-- ===== src/Lu/Kernel.antt =====
-- A matrix of which `LU_decomp_inplace` of algebra/mv_generic.h finds a rank below its number of
-- columns takes a nonzero vector to zero.
use tv_rq.Prelude.{
  ℕ, zero, suc, ◌+◌, ◌-◌, ◌≤◌, ◌<◌, ◌≡◌, ◌≢◌, refl, ap, ap₂, sym, ◌∙◌, arith, bit_xor, min, ◌==◌,
  ==_self, if◌then◌else◌,
}
use native.Mathlib.Decide.{dec_lt}
use tv_rq.Prelude.Bits.{xor_self, zero-xor}
use tv_rq.Memory.{Mem}
use tv_rq.Gf256.Poly.{◌⊗◌, ⊗-lt, ⊗-zero, zero-⊗, one-⊗, ⊗-xor}
use tv_rq.Gf256.Field.{⊗_assoc}
use tv_rq.M256v.{M256v}
use tv_rq.Lu.{LuState}
use tv_rq.Lu.Sum.{sum_from_ext, sum_from_zero, sum_from-xor}
use tv_rq.Lu.Value.{
  IsByteMat, IsByteVec, row_from, row_from_ext, row_from_first, row_from-lt, value, value_at,
  value_at_ext,
}
use tv_rq.Lu.Combine.{el}
use tv_rq.Lu.Upper.{inverse_lem}
use tv_rq.Lu.Rank.{Finished}

-- The vector with one entry replaced.
set_entry : (ℕ → ℕ) → ℕ → ℕ → ℕ → ℕ
set_entry y i v k = if k == i then v else y k

set_entry_same : (y : ℕ → ℕ) (i v : ℕ) → set_entry y i v i ≡ v
unfolding set_entry
set_entry_same y i v = rw (==_self i) refl

set_entry_other : (y : ℕ → ℕ) (i v k : ℕ) → k ≢ i → set_entry y i v k ≡ y k
unfolding set_entry
set_entry_other y i v k h = ground arith

set_entry-IsByteVec : (y : ℕ → ℕ) (i v : ℕ) → IsByteVec y → v < 256 → IsByteVec (set_entry y i v)
unfolding set_entry
set_entry-IsByteVec y i v h l k = ground (arith, h k)

-- A product in a row is that of the sum of two vectors.
pub row_from-xor :
    (n : ℕ) (a : ℕ → ℕ → ℕ) (x y : ℕ → ℕ) (r lo : ℕ)
    → IsByteVec x
    → IsByteVec y
    → row_from n a (λ k. bit_xor (x k) (y k)) r lo
      ≡ bit_xor (row_from n a x r lo) (row_from n a y r lo)
unfolding row_from
row_from-xor n a x y r lo bx by =
    sum_from_ext lo (n - lo) _ _ (λ k l u. ⊗-xor (a r k) (x k) (y k) (bx k) (by k))
    ∙ sum_from-xor lo (n - lo) _ _

module _ (n rank : ℕ) (a : ℕ → ℕ → ℕ) (ba : IsByteMat a) (low : rank < n)
    (pivots : (i : ℕ) → i < rank → a i i ≢ 0) where
  -- The pivot's entry that makes the product with a row of U zero.
  solve_row :
      (i : ℕ) (y : ℕ → ℕ)
      → i < rank
      → IsByteVec y
      → (v : ℕ) × (v < 256) × (row_from n a (set_entry y i v) i i ≡ 0)
  solve_row i y h by =
      let (w, _, hw, unit) = inverse_lem (a i i) (pivots i h) (ba i i) in
      let rest = row_from n a y i (i + 1) in
      let small : rest < 256 = row_from-lt n a y i (i + 1) by in
      (
        w ⊗ rest,
        ⊗-lt w rest small,
        row_from_first n a (set_entry y i (w ⊗ rest)) i i (omega arith)
            ∙ ap₂ bit_xor
                (ap (λ v. a i i ⊗ v) (set_entry_same y i (w ⊗ rest))
                  ∙ sym (⊗_assoc (a i i) w rest (ba i i) hw small)
                  ∙ ap (λ v. v ⊗ rest) unit
                  ∙ one-⊗ rest)
                (row_from_ext n a a (set_entry y i (w ⊗ rest)) y i i (i + 1)
                  (λ c l u. (refl, set_entry_other y i (w ⊗ rest) c (λ e. omega arith))))
            ∙ xor_self rest,
      )

  -- Back substitution in the last `j` rows of U from a one in the column after them.
  back_substitution :
      (j : ℕ)
      → j ≤ rank
      → (y : ℕ → ℕ) × IsByteVec y
        × (y rank ≡ 1)
        × ((i : ℕ) → rank - j ≤ i → i < rank → row_from n a y i i ≡ 0)
  back_substitution zero h = (
    set_entry (λ k. 0) rank 1,
    set_entry-IsByteVec (λ k. 0) rank 1 (λ k. omega arith) (omega arith),
    set_entry_same (λ k. 0) rank 1,
    λ i l u. absurd (omega arith),
  )
  back_substitution (suc j) h =
      let (y, by, one, done) = back_substitution j (omega arith) in
      let i = rank - suc j in
      let (v, hv, e) = solve_row i y (omega arith) by in
      (
        set_entry y i v,
        set_entry-IsByteVec y i v by hv,
        set_entry_other y i v rank (λ e. omega arith) ∙ one,
        λ r l u. elim (dec_lt i r) [
          | yes after ↦
              row_from_ext n a a (set_entry y i v) y r r r
                (λ c lc uc. (refl, set_entry_other y i v c (λ e. omega arith)))
              ∙ done r (omega arith) u
          | no here ↦
              let same : r ≡ i = omega arith in
              ap (λ r. row_from n a (set_entry y i v) r r) same ∙ e
        ],
      )

  row_empty :
      (y : ℕ → ℕ) (r : ℕ) → ((c : ℕ) → rank ≤ c → c < n → a r c ≡ 0) → row_from n a y r rank ≡ 0
  unfolding row_from
  row_empty y r zeros =
      sum_from_zero rank (n - rank) _
        (λ c l u. ap (λ v. v ⊗ y c) (zeros c l (omega arith)) ∙ zero-⊗ (y c))

  -- All rows of L times such a vector are zero.
  value_zero :
      (y : ℕ → ℕ) (r : ℕ)
      → ((i : ℕ) → i < rank → row_from n a y i i ≡ 0)
      → ((c : ℕ) → rank ≤ r → rank ≤ c → c < n → a r c ≡ 0)
      → value n rank a y r ≡ 0
  unfolding value value_at
  value_zero y r h zeros =
      ap₂ bit_xor
        (sum_from_zero 0 (min r rank) _
          (λ j l u. ap (λ v. a r j ⊗ v) (h j (omega arith)) ∙ ⊗-zero (a r j)))
        last
      ∙ zero-xor 0
    where
      last : row_from n a y r (min r rank) ≡ 0
      last = elim (dec_lt r rank) [
        | yes l ↦ let same : min r rank ≡ r = omega arith in ap (row_from n a y r) same ∙ h r l
        | no l ↦
            let same : min r rank ≡ rank = omega arith in
            ap (row_from n a y r) same ∙ row_empty y r (λ c lc uc. zeros c (omega arith) lc uc)
      ]

-- The vector counts up to the number of columns.
pub value_vec_ext :
    (n s : ℕ) (a : ℕ → ℕ → ℕ) (x y : ℕ → ℕ) (r : ℕ)
    → ((k : ℕ) → k < n → x k ≡ y k)
    → s ≤ n
    → value n s a x r ≡ value n s a y r
unfolding value value_at
value_vec_ext n s a x y r h fits =
    ap₂ bit_xor
      (sum_from_ext 0 (min r s) _ _
        (λ j l u. ap (λ v. a r j ⊗ v) (row_from_ext n a a x y j j j (λ c lc uc. (refl, h c uc)))))
      (row_from_ext n a a x y r r (min r s) (λ c l u. (refl, h c u)))

-- The matrix counts within its bounds.
pub value_ext :
    (n : ℕ) (a b : ℕ → ℕ → ℕ) (x : ℕ → ℕ) (r : ℕ)
    → r < n
    → ((r c : ℕ) → r < n → c < n → a r c ≡ b r c)
    → value n n a x r ≡ value n n b x r
unfolding value
value_ext n a b x r h e =
    value_at_ext n a b x r r (min r n) (omega arith) (λ c l. e r c h l)
      (λ j c k l. e j c (omega arith) l)

-- A rank below the number of columns: some vector that is not zero is taken to zero.
pub kernel_lem :
    (mat : M256v) (m0 : Mem) (rank : ℕ) (st : LuState)
    → Finished mat m0 rank st
    → rank < mat.n_col
    → (z : ℕ → ℕ) × IsByteVec z
      × (k : ℕ) × (k < mat.n_col)
      × (z k ≢ 0)
      × ((r : ℕ) → r < mat.n_row → row_from mat.n_col (el mat m0) z r 0 ≡ 0)
kernel_lem mat m0 rank st fin low =
    let d = fin.decomposed in
    let (y, by, one, done) =
      back_substitution mat.n_col rank (el mat st.mem) (λ r c. d.bytes _) low d.pivots rank
        (omega arith) in
    let z : ℕ → ℕ = λ k. y (d.cols_perm.inverse k) in
    (
      z,
      λ k. by _,
      st.cp rank,
      d.cols_perm.inside rank low,
      λ e. omega (arith, one, e, ap y (d.cols_perm.left rank low)),
      λ r h.
          let q = d.rows_perm.inverse r in
          let hq : q < mat.n_row = d.rows_perm.inverse_inside r h in
          ap (λ k. row_from mat.n_col (el mat m0) z k 0) (sym (d.rows_perm.right r h))
          ∙ sym (d.values z q (λ k. by _) hq)
          ∙ value_vec_ext mat.n_col rank (el mat st.mem) (λ k. z (st.cp k)) y q
              (λ k l. ap y (d.cols_perm.left k l)) (omega arith)
          ∙ value_zero mat.n_col rank (el mat st.mem) (λ r c. d.bytes _) low d.pivots y q
              (λ i l. done i (omega arith) l) (λ c lr lc uc. fin.zeros q c lr hq lc uc),
    )
