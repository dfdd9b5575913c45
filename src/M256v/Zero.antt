-- ===== src/M256v/Zero.antt =====
-- `m256v_row_iszero`.
use tv_rq.Prelude.{
  ℕ, zero, suc, ◌+◌, ◌≤◌, ◌<◌, ◌≡◌, ◌↔◌, ◌≢◌, ◌∙◌, refl, Bool, true, false, some, arith,
}
use native.Mathlib.Decide.{dec_lt, ℕ_discrete}
use tv_rq.Memory.{Mem}
use tv_rq.M256v.{M256v, row_zero_from, row_iszero}
use tv_rq.M256v.Access.{at, get_el_lem}

module _ (mat : M256v) (r : ℕ) (m : Mem) (in_range : r < mat.n_row) where
  zero_step :
      (n c : ℕ)
      → c < mat.n_col
      → m (at mat r c) ≡ 0
      → row_zero_from (suc n) c mat r m ≡ row_zero_from n (c + 1) mat r m
  unfolding row_zero_from
  zero_step n c h z = ground (arith, get_el_lem mat r c m in_range (omega arith))

  nonzero_step :
      (n c : ℕ) → c < mat.n_col → m (at mat r c) ≢ 0 → row_zero_from (suc n) c mat r m ≡ some false
  unfolding row_zero_from
  nonzero_step n c h z = ground (arith, get_el_lem mat r c m in_range (omega arith))

  row_zero_from_lem :
      (n c : ℕ)
      → c + n ≡ mat.n_col
      → (b : Bool) × (row_zero_from n c mat r m ≡ some b)
        × ((b ≡ true) ↔ ((k : ℕ) → c ≤ k → k < mat.n_col → m (at mat r k) ≡ 0))
  row_zero_from_lem zero c e =
      unfold row_zero_from in (true, refl, (λ _ k h l. absurd (omega arith), λ _. refl))
  row_zero_from_lem (suc n) c e = elim (ℕ_discrete (m (at mat r c)) 0) [
    | yes z ↦
        let (b, found, iff) = row_zero_from_lem n (c + 1) (omega arith) in
        (
          b,
          zero_step n c (omega arith) z ∙ found,
          (
            λ t k h l. elim (dec_lt c k) [
              | yes p ↦ iff.0 t k (omega arith) l
              | no p ↦ let same : k ≡ c = omega arith in rw same z
            ],
            λ all. iff.1 (λ k h l. all k (omega arith) l),
          ),
        )
    | no z ↦ (
      false,
      nonzero_step n c (omega arith) z,
      (λ t. cc, λ all. absurd (z (all c (omega arith) (omega arith)))),
    )
  ]

  -- It says whether every element of the row is zero.
  pub row_iszero_lem :
      (b : Bool) × (row_iszero mat r m ≡ some b)
      × ((b ≡ true) ↔ ((c : ℕ) → c < mat.n_col → m (at mat r c) ≡ 0))
  unfolding row_iszero
  row_iszero_lem =
      let (b, found, iff) = row_zero_from_lem mat.n_col 0 (omega arith) in
      (b, found, (λ t c h. iff.0 t c (omega arith) h, λ all. iff.1 (λ k _ l. all k l)))
