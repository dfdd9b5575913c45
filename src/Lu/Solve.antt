-- ===== src/Lu/Solve.antt =====
-- `LU_invmult_inplace` of algebra/mv_generic.h without permutations: the system is solved.
use tv_rq.Prelude.{
  on_left, ℕ, zero, suc, ◌+◌, ◌-◌, ◌*◌, ◌≤◌, ◌<◌, ◌≡◌, ◌≢◌, refl, ap, ap₂, sym, ◌∙◌, none, some,
  arith, min, bit_xor, le→leb,
}
use tv_rq.Prelude.Bits.{xor_comm, xor_assoc, xor_self, xor-zero, xor_cancel}
use tv_rq.Memory.{Mem}
use tv_rq.Memory.Sweep.{IsBytes}
use tv_rq.Gf256.Poly.{◌⊗◌, one-⊗}
use tv_rq.Gf256.Field.{⊗_comm, ⊗_assoc}
use tv_rq.M256v.{M256v, get_subview}
use tv_rq.M256v.Access.{at, IsView, get_el_offs_lem}
use tv_rq.Lu.{
  place, rank_of, l_invmult_inplace, u_invmult_inplace, lu_invmult_inplace, permute_rows_if,
}
use tv_rq.Lu.Sum.{sum_from, sum_from_ext}
use tv_rq.Lu.Value.{IsByteVec, IsByteMat, row_from, row_from_ext, row_from_first, value, value_at}
use tv_rq.Lu.Combine.{Disjoint, el}
use tv_rq.Lu.Lower.{Places, l_invmult_inplace_p_lem}
use tv_rq.Lu.Upper.{u_invmult_inplace_p_lem, inverse_lem}
use tv_rq.Lu.Eliminate.{OffMatrix}

-- A row of a square matrix that is decomposed to the end, times the vector.
pub value_full :
    (n : ℕ) (a : ℕ → ℕ → ℕ) (x : ℕ → ℕ) (r : ℕ)
    → r < n
    → value n n a x r
      ≡ bit_xor (sum_from 0 r (λ j. a r j ⊗ row_from n a x j j)) (row_from n a x r r)
unfolding value value_at
value_full n a x r h =
    ap (λ t. bit_xor (sum_from 0 t (λ j. a r j ⊗ row_from n a x j j)) (row_from n a x r t))
      (smaller n r h)
  where
    smaller : (n r : ℕ) → r < n → min r n ≡ r
    smaller n r h = omega arith

-- Forward and back substitution together.
substitution :
    (n : ℕ) (a : ℕ → ℕ → ℕ) (x y z : ℕ → ℕ) (r : ℕ)
    → r < n
    → ((i : ℕ) → i < n → z i ≡ bit_xor (y i) (sum_from 0 i (λ j. a i j ⊗ z j)))
    → ((i : ℕ) → i < n → row_from n a x i i ≡ z i)
    → value n n a x r ≡ y r
substitution n a x y z r h lower upper =
    value_full n a x r h
    ∙ ap₂ bit_xor
        (sum_from_ext 0 r _ (λ j. a r j ⊗ z j)
          (λ j l u. ap (λ v. a r j ⊗ v) (upper j (omega arith))))
        (upper r h ∙ lower r h)
    ∙ xor_comm (sum_from 0 r (λ j. a r j ⊗ z j)) _
    ∙ xor_assoc (y r) _ _
    ∙ ap (bit_xor (y r)) (xor_self (sum_from 0 r (λ j. a r j ⊗ z j)))
    ∙ xor-zero (y r)

xor_right_cancel : (p q s : ℕ) → bit_xor s p ≡ bit_xor s q → p ≡ q
xor_right_cancel p q s e = sym (xor_cancel s p) ∙ ap (bit_xor s) e ∙ xor_cancel s q

⊗_cancel : (u p q : ℕ) → u ≢ 0 → u < 256 → p < 256 → q < 256 → u ⊗ p ≡ u ⊗ q → p ≡ q
⊗_cancel u p q ne hu hp hq e =
    let (w, _, hw, unit) = inverse_lem u ne hu in
    let back : (v : ℕ) → v < 256 → w ⊗ (u ⊗ v) ≡ v =
      λ v hv. sym (⊗_assoc w u v hw hu hv) ∙ ap (λ t. t ⊗ v) (⊗_comm w u hw hu ∙ unit) ∙ one-⊗ v in
    sym (back p hp) ∙ ap (λ t. w ⊗ t) e ∙ back q hq

module _ (n : ℕ) (a : ℕ → ℕ → ℕ) (x y : ℕ → ℕ) (ba : IsByteMat a) (bx : IsByteVec x)
    (by : IsByteVec y) (pivots : (i : ℕ) → i < n → a i i ≢ 0)
    (same : (r : ℕ) → r < n → value n n a x r ≡ value n n a y r) where
  -- The products with U agree, up to row `k`.
  upper_agree : (k r : ℕ) → k ≤ n → r < k → row_from n a x r r ≡ row_from n a y r r
  upper_agree zero r h l = absurd (omega arith)
  upper_agree (suc k) r h l =
      xor_right_cancel _ _ (sum_from 0 r (λ j. a r j ⊗ row_from n a x j j)) (
        sym (value_full n a x r (omega arith))
        ∙ same r (omega arith)
        ∙ value_full n a y r (omega arith)
        ∙ ap (λ t. bit_xor t (row_from n a y r r))
            (sum_from_ext 0 r _ _
              (λ j p q. ap (λ v. a r j ⊗ v) (sym (upper_agree k j (omega arith) (omega arith))))))

  -- So the vectors do, from the last entry to the first.
  vectors_agree : (k i : ℕ) → k ≤ n → n - k ≤ i → i < n → x i ≡ y i
  vectors_agree zero i h l u = absurd (omega arith)
  vectors_agree (suc k) i h l u = ⊗_cancel (a i i) (x i) (y i) (pivots i u) (ba i i) (bx i) (by i) (
      xor_right_cancel _ _ (row_from n a x i (i + 1)) (
        xor_comm _ (a i i ⊗ x i)
        ∙ sym (row_from_first n a x i i u)
        ∙ upper_agree n i (omega arith) u
        ∙ row_from_first n a y i i u
        ∙ xor_comm (a i i ⊗ y i) _
        ∙ ap (λ t. bit_xor t (a i i ⊗ y i))
            (row_from_ext n a a y x i i (i + 1)
              (λ c p q. (refl, sym (vectors_agree k c (omega arith) (omega arith) q))))))

  -- A system with no zero on the diagonal of U has at most one solution.
  pub unique_solution : (i : ℕ) → i < n → x i ≡ y i
  unique_solution i h = vectors_agree n i (omega arith) (omega arith) h

-- The first rows of a matrix, as the view that `get_subview` makes.
abbrev pub top_rows : M256v → ℕ → M256v
top_rows x n = record {
  n_row = n;
  n_col = x.n_col;
  rstride = x.rstride;
  e = x.e + (0 * x.rstride + 0);
}

pub top_rows_lem :
    (x : M256v) (n : ℕ)
    → 0 < x.n_row
    → n ≤ x.n_row
    → get_subview x 0 0 n x.n_col ≡ some (top_rows x n)
unfolding get_subview
top_rows_lem x n pos h =
    rw
      (
        le→leb (0 + n) x.n_row (omega arith),
        le→leb (0 + x.n_col) x.n_col (omega arith),
        get_el_offs_lem x 0 0 pos (omega arith),
      )
      refl

top_at : (x : M256v) (n r c : ℕ) → at (top_rows x n) r c ≡ at x r c
top_at x n r c = omega arith

-- The solution of the system of `lu` for the rows of `x` at the start.
pub record Solved (lu x : M256v) (m t : Mem) : Type 0 where
  pub bytes : IsBytes t
  pub rows :
      (r c : ℕ)
      → r < lu.n_col
      → c < x.n_col
      → value lu.n_col lu.n_col (el lu m) (λ k. el x t k c) r ≡ el x m r c
  pub off : (a : ℕ) → OffMatrix x a → t a ≡ m a

module _ (lu x : M256v) (rowbuf : ℕ) (m : Mem) (view : IsView x) (apart : Disjoint lu x)
    (square : lu.n_row ≡ lu.n_col) (fits : lu.n_col ≤ x.n_row) (pos : 0 < lu.n_col)
    (bytes : IsBytes m) (pivots : (i : ℕ) → i < lu.n_col → el lu m i i ≢ 0) where
  abbrev top : M256v
  top = top_rows x lu.n_col

  top_apart : Disjoint lu top
  top_apart r c r' c' h l h' l' e =
      apart r c r' c' h l (omega arith) l' (e ∙ top_at x lu.n_col r' c')

  top-Places : Places top (place none) lu.n_col
  unfolding place
  top-Places = record { inside = λ i h. h; distinct = λ i j h l ne. ne }

  full_rank : rank_of lu none ≡ lu.n_col
  unfolding rank_of
  full_rank = ground arith

  run :
      (t1 t2 : Mem)
      → l_invmult_inplace lu lu.n_col top m ≡ some t1
      → u_invmult_inplace lu lu.n_col top t1 ≡ some t2
      → lu_invmult_inplace lu none none none x rowbuf m ≡ some t2
  unfolding lu_invmult_inplace permute_rows_if
  run t1 t2 e1 e2 =
      rw
        (
          le→leb lu.n_col x.n_row fits,
          le→leb lu.n_row x.n_row (omega arith),
          top_rows_lem x lu.n_col (omega arith) fits,
          top_rows_lem x lu.n_row (omega arith) (omega arith),
          full_rank,
        )
        (on_left (ap (λ n. l_invmult_inplace lu lu.n_col (top_rows x n) m) square ∙ e1) _
          ∙ on_left e2 (permute_rows_if none x rowbuf))

  -- Without permutations and with no zero on the diagonal, `lu_invmult_inplace` of a square
  -- decomposition, for rows that share no cell with it and are at least as many as its own, fails no
  -- assert and puts the solution of the system in place of its right-hand side, in each column;
  -- nothing behind the matrix changes.
  pub lu_invmult_inplace_lem :
      (t : Mem) × (lu_invmult_inplace lu none none none x rowbuf m ≡ some t) × Solved lu x m t
  unfolding l_invmult_inplace u_invmult_inplace place
  lu_invmult_inplace_lem =
      let (t1, e1, w1) =
        l_invmult_inplace_p_lem lu top none lu.n_col m view top_apart top-Places (omega arith)
          (omega arith) bytes in
      let kept : (r c : ℕ) → r < lu.n_col → c < lu.n_col → el lu t1 r c ≡ el lu m r c =
        λ r c h l. w1.off (at lu r c) (λ i c' h' l'. top_apart r c i c' (omega arith) l h' l') in
      let (t2, e2, w2) =
        u_invmult_inplace_p_lem lu top none lu.n_col t1 view top_apart top-Places (omega arith)
          (omega arith) w1.bytes (λ i h z. pivots i h (sym (kept i i h h) ∙ z)) in
      (
        t2,
        run t1 t2 e1 e2,
        record {
          bytes = w2.bytes;
          rows = λ r c h l.
              substitution lu.n_col (el lu m) (λ k. el x t2 k c) (λ k. el x m k c)
                (λ k. el top t1 k c) r h
                (λ i p.
                  w1.rows i c p l
                  ∙ ap (λ a. bit_xor (m a) (sum_from 0 i (λ j. el lu m i j ⊗ el top t1 j c)))
                      (top_at x lu.n_col i c))
                (λ i p.
                  row_from_ext lu.n_col (el lu m) (el lu t1) _ _ i i i
                    (λ k q u. (sym (kept i k p u), ap t2 (sym (top_at x lu.n_col k c))))
                  ∙ w2.rows i c p l);
          off = λ a away.
              w2.off a (λ i c h l e. away i c (omega arith) l (e ∙ top_at x lu.n_col i c))
              ∙ w1.off a (λ i c h l e. away i c (omega arith) l (e ∙ top_at x lu.n_col i c));
        },
      )
