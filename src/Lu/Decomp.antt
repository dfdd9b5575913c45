-- ===== src/Lu/Decomp.antt =====
-- `LU_decomp_inplace` of algebra/mv_generic.h: what its rounds keep, and what it leaves behind.
use tv_rq.Prelude.{
  fun_ext, ℕ, ◌+◌, ◌≤◌, ◌<◌, ◌≡◌, ◌≢◌, ◌⊎◌, inl, inr, refl, ap, ap₂, sym, subst, ◌∙◌, arith,
  bit_xor,
}
use native.Mathlib.Decide.{dec_lt, ℕ_discrete}
use tv_rq.Prelude.Bits.{zero-xor}
use tv_rq.Memory.{Mem}
use tv_rq.Memory.Sweep.{IsBytes}
use tv_rq.Gf256.Poly.{◌⊗◌, ⊗-zero}
use tv_rq.M256v.{M256v}
use tv_rq.Lu.{LuState, swap_int}
use tv_rq.Lu.Value.{IsByteVec, Round, row_from, value, value_step, value_swap}
use tv_rq.Lu.Combine.{el}
use tv_rq.Lu.Eliminate.{OffMatrix}
use tv_rq.Lu.Columns.{value-transpose}
use tv_rq.Lu.Pivot.{Moved}
use tv_rq.Lu.Transpose.{
  transpose, transpose_left, transpose_right, transpose_other, transpose_same, transpose-lt,
  transpose-le, swap_int_lem, IsPermutation, swap_int-IsPermutation,
}

-- From row `s` on, column `q` is zero.
abbrev pub ZeroColumn : M256v → Mem → ℕ → ℕ → Type 0
ZeroColumn mat m s q = (r : ℕ) → s ≤ r → r < mat.n_row → el mat m r q ≡ 0

-- The state after `s` rounds on the memory `m0`: row r of the half-decomposed matrix, with its columns
-- in the order of `cp`, stands for row `rp r` of the matrix at the start.
pub record Decomposed (mat : M256v) (m0 : Mem) (s : ℕ) (st : LuState) : Type 0 where
  pub bytes : IsBytes st.mem
  pub off : (a : ℕ) → OffMatrix mat a → st.mem a ≡ m0 a
  pub rows_perm : IsPermutation st.rp mat.n_row
  pub cols_perm : IsPermutation st.cp mat.n_col
  pub pivots : (j : ℕ) → j < s → el mat st.mem j j ≢ 0
  pub values :
      (x : ℕ → ℕ) (r : ℕ)
      → IsByteVec x
      → r < mat.n_row
      → value mat.n_col s (el mat st.mem) (λ k. x (st.cp k)) r
        ≡ row_from mat.n_col (el mat m0) x (st.rp r) 0
  pub straight :
      ((k : ℕ) → k < mat.n_col → st.cp k ≡ k)
      ⊎ ((q : ℕ) × (s ≤ q) × (q < mat.n_col) × ZeroColumn mat st.mem s q)

module _ (mat : M256v) (m0 : Mem) (s : ℕ) (row : s < mat.n_row) (col : s < mat.n_col) (st : LuState)
    (d : Decomposed mat m0 s st) (p q : ℕ) (p_low : s ≤ p) (p_high : p < mat.n_row) (q_low : s ≤ q)
    (q_high : q < mat.n_col) (found : el mat st.mem p q ≢ 0)
    (before : (k j : ℕ) → s ≤ k → k < mat.n_row → s ≤ j → j < q → el mat st.mem k j ≡ 0) (m1 : Mem)
    (moved : Moved mat st.mem s p s q m1) (rp cp : ℕ → ℕ) (e_rp : rp ≡ swap_int s p st.rp)
    (e_cp : cp ≡ swap_int s q st.cp) (iv : ℕ) (iv_small : iv < 256) (unit : iv ⊗ el mat m1 s s ≡ 1)
    (m2 : Mem) (bytes2 : IsBytes m2)
    (round : Round mat.n_col mat.n_row s iv (el mat m1) (el mat m2))
    (off2 : (a : ℕ) → OffMatrix mat a → m2 a ≡ m1 a) where
  zero_stays : (z : ℕ) → s < z → z < mat.n_col → ZeroColumn mat m1 s z → ZeroColumn mat m2 (s + 1) z
  zero_stays z h l zeros r low high =
      round.rest r z (omega arith) high h l
      ∙ ap₂ bit_xor (zeros r (omega arith) high) (
          ap (λ v. (el mat m1 r s ⊗ iv) ⊗ v) (zeros s (omega arith) row)
          ∙ ⊗-zero (el mat m1 r s ⊗ iv))
      ∙ zero-xor 0

  -- A column of zeros after the move, from one before it.
  moved_zero :
      (z j : ℕ)
      → z < mat.n_col
      → transpose s q z ≡ j
      → ZeroColumn mat st.mem s j
      → ZeroColumn mat m1 s z
  moved_zero z j h e zeros r low high =
      moved.entries r z high h
      ∙ ap (el mat st.mem (transpose s p r)) e
      ∙ zeros (transpose s p r) (transpose-le s p r p_low low)
          (transpose-lt s p r mat.n_row row p_high high)

  straight_next :
      ((k : ℕ) → k < mat.n_col → cp k ≡ k)
      ⊎ ((z : ℕ) × (s + 1 ≤ z) × (z < mat.n_col) × ZeroColumn mat m2 (s + 1) z)
  straight_next = elim (dec_lt s q) [
    | yes right ↦ inr (
      q,
      omega arith,
      q_high,
      zero_stays q right q_high (
          moved_zero q s q_high (transpose_right s q)
            (λ r low high. before r s low high (omega arith) right)),
    )
    | no same ↦
        let e : q ≡ s = omega arith in
        elim d.straight [
          | inl id ↦ inl (λ k h.
              ap (λ f. f k) e_cp
              ∙ swap_int_lem s q st.cp k
              ∙ ap st.cp (ap (λ q. transpose s q k) e ∙ transpose_same s k)
              ∙ id k h)
          | inr (z, low, high, zeros) ↦ elim (ℕ_discrete z s) [
            | yes w ↦ absurd (found (ap (el mat st.mem p) (e ∙ sym w) ∙ zeros p p_low p_high))
            | no ne ↦ inr (
              z,
              omega arith,
              high,
              zero_stays z (omega arith) high
                  (moved_zero z z high (ap (λ q. transpose s q z) e ∙ transpose_same s z) zeros),
            )
          ]
        ]
  ]

  pivots_next : (j : ℕ) → j < s + 1 → el mat m2 j j ≢ 0
  pivots_next j h z = elim (dec_lt j s) [
    | yes l ↦ d.pivots j l (
        sym (
          ap₂ (el mat st.mem)
            (transpose_other s p j (λ e. absurd (omega arith)) (λ e. absurd (omega arith)))
            (transpose_other s q j (λ e. absurd (omega arith)) (λ e. absurd (omega arith))))
        ∙ sym (moved.entries j j (omega arith) (omega arith))
        ∙ sym (round.above j j (omega arith) (omega arith))
        ∙ z)
    | no l ↦
        let here : j ≡ s = omega arith in
        found (
          sym (ap₂ (el mat st.mem) (transpose_left s p) (transpose_left s q))
          ∙ sym (moved.entries s s row col)
          ∙ sym (round.above s s (omega arith) col)
          ∙ ap (λ j. el mat m2 j j) (sym here)
          ∙ z)
  ]

  values_next :
      (x : ℕ → ℕ) (r : ℕ)
      → IsByteVec x
      → r < mat.n_row
      → value mat.n_col (s + 1) (el mat m2) (λ k. x (cp k)) r
        ≡ row_from mat.n_col (el mat m0) x (rp r) 0
  values_next x r bx h =
      value_step mat.n_col mat.n_row s iv (el mat m1) (el mat m2) (λ k. x (cp k)) round col
        (λ r c. moved.bytes _) (λ k. bx (cp k)) unit iv_small r h
      ∙ ap (λ y. value mat.n_col s (el mat m1) y r)
          (fun_ext λ k. ap x (ap (λ f. f k) e_cp ∙ swap_int_lem s q st.cp k))
      ∙ value-transpose mat.n_col mat.n_row s (λ r c. el mat st.mem (transpose s p r) c) (el mat m1)
          (λ k. x (st.cp k)) s q (omega arith) q_low q_high (λ r c lr lc. moved.entries r c lr lc) r
          h
      ∙ value_swap mat.n_col mat.n_row s (el mat st.mem) (λ r c. el mat st.mem (transpose s p r) c)
          (transpose s p) (λ k. x (st.cp k)) (omega arith)
          (λ j l. transpose_other s p j (λ e. absurd (omega arith)) (λ e. absurd (omega arith)))
          (λ j l. transpose-le s p j p_low l) (λ r c lr lc. refl) r h
      ∙ d.values x (transpose s p r) bx (transpose-lt s p r mat.n_row row p_high h)
      ∙ ap (λ i. row_from mat.n_col (el mat m0) x i 0)
          (sym (ap (λ f. f r) e_rp ∙ swap_int_lem s p st.rp r))

  pub Decomposed-next : Decomposed mat m0 (s + 1) (record { mem = m2; rp = rp; cp = cp })
  Decomposed-next = record {
    bytes = bytes2;
    off = λ a away. off2 a away ∙ moved.off a away ∙ d.off a away;
    rows_perm =
        subst (λ f. IsPermutation f mat.n_row) (sym e_rp)
          (swap_int-IsPermutation s p mat.n_row st.rp row p_high d.rows_perm);
    cols_perm =
        subst (λ f. IsPermutation f mat.n_col) (sym e_cp)
          (swap_int-IsPermutation s q mat.n_col st.cp col q_high d.cols_perm);
    pivots = pivots_next;
    values = values_next;
    straight = straight_next;
  }
