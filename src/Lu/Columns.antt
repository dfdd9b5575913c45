-- ===== src/Lu/Columns.antt =====
-- Columns that change places, in what a half-decomposed matrix stands for.
use tv_rq.Prelude.{ℕ, ◌-◌, ◌<◌, ◌≤◌, ◌≡◌, ap, ap₂, ◌∙◌, arith, bit_xor, min}
use tv_rq.Gf256.Poly.{◌⊗◌}
use tv_rq.Lu.Sum.{sum_from_ext}
use tv_rq.Lu.Value.{row_from, value_at, value}
use tv_rq.Lu.Transpose.{transpose, transpose_other, sum_from-transpose}

row_from-transpose :
    (n : ℕ) (a b : ℕ → ℕ → ℕ) (x : ℕ → ℕ) (r lo i q : ℕ)
    → lo ≤ i
    → i ≤ q
    → q < n
    → ((c : ℕ) → c < n → b r c ≡ a r (transpose i q c))
    → row_from n b (λ k. x (transpose i q k)) r lo ≡ row_from n a x r lo
unfolding row_from
row_from-transpose n a b x r lo i q l h u same =
    sum_from_ext lo (n - lo) _ _ (λ k p t. ap (λ v. v ⊗ x (transpose i q k)) (same k (omega arith)))
    ∙ sum_from-transpose lo n i q (λ k. a r k ⊗ x k) l h u

-- Columns of the part that is not decomposed yet may change places, with the entries of the vector.
pub value-transpose :
    (n rows s : ℕ) (a b : ℕ → ℕ → ℕ) (x : ℕ → ℕ) (i q : ℕ)
    → s ≤ i
    → i ≤ q
    → q < n
    → ((r c : ℕ) → r < rows → c < n → b r c ≡ a r (transpose i q c))
    → (r : ℕ) → r < rows
    → value n s b (λ k. x (transpose i q k)) r ≡ value n s a x r
unfolding value value_at
value-transpose n rows s a b x i q l h u same r in_rows =
    ap₂ bit_xor
      (sum_from_ext 0 (min r s) _ _ (λ j p t.
        ap₂ (λ v w. v ⊗ w)
          (same r j in_rows (omega arith)
            ∙ ap (a r)
                (transpose_other i q j (λ e. absurd (omega arith)) (λ e. absurd (omega arith))))
          (row_from-transpose n a b x j j i q (omega arith) h u (λ c k. same j c (omega arith) k))))
      (row_from-transpose n a b x r (min r s) i q (omega arith) h u (λ c k. same r c in_rows k))
