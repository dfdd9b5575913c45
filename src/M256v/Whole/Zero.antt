-- ===== src/M256v/Whole/Zero.antt =====
-- The zero test of algebra/mv_generic.h.
use tv_rq.Prelude.{
  ℕ, zero, suc, ◌+◌, ◌<◌, ◌≤◌, ◌≡◌, ◌↔◌, refl, ap, ◌∙◌, Bool, true, false, some, arith, Bool-cases,
  inl, inr,
}
use native.Mathlib.Decide.{dec_lt}
use tv_rq.Memory.{Mem}
use tv_rq.M256v.{M256v, row_iszero}
use tv_rq.M256v.Access.{at}
use tv_rq.M256v.Zero.{row_iszero_lem}
use tv_rq.M256v.Whole.{zero_from, iszero}

module _ (mat : M256v) (m : Mem) where
  -- The rows from `r` on are zero.
  abbrev ZeroFrom : ℕ → Type 0
  ZeroFrom r = (i c : ℕ) → r ≤ i → i < mat.n_row → c < mat.n_col → m (at mat i c) ≡ 0

  zero_row :
      (n r : ℕ)
      → row_iszero mat r m ≡ some true
      → zero_from (suc n) r mat m ≡ zero_from n (r + 1) mat m
  unfolding zero_from
  zero_row n r e = rw e refl

  other_row : (n r : ℕ) → row_iszero mat r m ≡ some false → zero_from (suc n) r mat m ≡ some false
  unfolding zero_from
  other_row n r e = rw e refl

  zero_from_lem :
      (n r : ℕ)
      → r + n ≡ mat.n_row
      → (b : Bool) × (zero_from n r mat m ≡ some b) × ((b ≡ true) ↔ ZeroFrom r)
  zero_from_lem zero r e =
      unfold zero_from in (true, refl, (λ _ i c h l. absurd (omega arith), λ _. refl))
  zero_from_lem (suc n) r e =
      let (z, found, iff) = row_iszero_lem mat r m (omega arith) in
      elim (Bool-cases z) [
        | inl t ↦
            let (b, found', iff') = zero_from_lem n (r + 1) (omega arith) in
            (
              b,
              zero_row n r (found ∙ ap some t) ∙ found',
              (
                λ bt i c h l lc. elim (dec_lt r i) [
                  | yes later ↦ iff'.0 bt i c (omega arith) l lc
                  | no here ↦ let same : i ≡ r = omega arith in rw same (iff.0 t c lc)
                ],
                λ all. iff'.1 (λ i c h l lc. all i c (omega arith) l lc),
              ),
            )
        | inr f ↦ (
          false,
          other_row n r (found ∙ ap some f),
          (
            λ t. cc,
            λ all. absurd (false_case z f (iff.1 (λ c lc. all r c (omega arith) (omega arith) lc))),
          ),
        )
      ]
    where
      false_case : (z : Bool) → z ≡ false → z ≡ true → ⊥
      false_case z f t = cc

  -- `iszero` fails no assert and says whether every element of the matrix is zero.
  pub iszero_lem :
      (b : Bool) × (iszero mat m ≡ some b)
      × ((b ≡ true) ↔ ((i c : ℕ) → i < mat.n_row → c < mat.n_col → m (at mat i c) ≡ 0))
  unfolding iszero
  iszero_lem =
      let (b, found, iff) = zero_from_lem mat.n_row 0 (omega arith) in
      (
        b,
        found,
        (λ t i c h l. iff.0 t i c (omega arith) h l, λ all. iff.1 (λ i c _ h l. all i c h l)),
      )
