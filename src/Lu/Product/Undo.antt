-- ===== src/Lu/Product/Undo.antt =====
-- `LU_mult_inplace` of algebra/mv_generic.h without permutations, and that it undoes `LU_invmult_inplace`.
use tv_rq.Prelude.{
  on_left, ℕ, ◌≤◌, ◌<◌, ◌≡◌, ◌≢◌, ap, ap₂, sym, subst, ◌∙◌, none, some, arith, bit_xor, le→leb,
  ◌>>=◌,
}
use tv_rq.Prelude.Bits.{xor_comm}
use tv_rq.Memory.{Mem}
use tv_rq.Memory.Sweep.{IsBytes}
use tv_rq.Gf256.Poly.{◌⊗◌}
use tv_rq.M256v.{M256v}
use tv_rq.M256v.Access.{at, IsView}
use tv_rq.Lu.{lu_invmult_inplace, permute_rows_if}
use tv_rq.Lu.Sum.{sum_from_ext}
use tv_rq.Lu.Value.{row_from, value}
use tv_rq.Lu.Combine.{Disjoint, el}
use tv_rq.Lu.Eliminate.{OffMatrix}
use tv_rq.Lu.Kernel.{value_ext}
use tv_rq.Lu.Solve.{top_rows, top_rows_lem, value_full, lu_invmult_inplace_lem}
use tv_rq.Lu.Product.{u_mult_inplace, l_mult_inplace, lu_mult_inplace}
use tv_rq.Lu.Product.Rows.{u_mult_inplace_lem, l_mult_inplace_lem}

-- The first rows are the product of the decomposed matrix and those at the start.
pub record Multiplied (lu x : M256v) (m t : Mem) : Type 0 where
  pub bytes : IsBytes t
  pub rows :
      (r c : ℕ)
      → r < lu.n_row
      → c < x.n_col
      → el x t r c ≡ value lu.n_row lu.n_row (el lu m) (λ k. el x m k c) r
  pub off : (a : ℕ) → OffMatrix x a → t a ≡ m a

module _ (lu x : M256v) (rowbuf : ℕ) (view : IsView x) (apart : Disjoint lu x)
    (square : lu.n_row ≡ lu.n_col) (fits : lu.n_col ≤ x.n_row) (pos : 0 < lu.n_col) where
  run :
      (m t1 t2 : Mem)
      → u_mult_inplace lu x m ≡ some t1
      → l_mult_inplace lu x t1 ≡ some t2
      → lu_mult_inplace lu none none x rowbuf m ≡ some t2
  unfolding lu_mult_inplace permute_rows_if
  run m t1 t2 e1 e2 =
      rw
        (
          le→leb lu.n_col x.n_row fits,
          le→leb lu.n_row x.n_row (omega arith),
          top_rows_lem x lu.n_col (omega arith) fits,
          top_rows_lem x lu.n_row (omega arith) (omega arith),
        )
        (on_left e1 _ ∙ on_left e2 (permute_rows_if none (top_rows x lu.n_row) rowbuf))

  -- Without permutations `lu_mult_inplace` of a square matrix fails no assert and multiplies the rows
  -- by L times U.
  pub lu_mult_inplace_lem :
      (m : Mem)
      → IsBytes m
      → (t : Mem) × (lu_mult_inplace lu none none x rowbuf m ≡ some t) × Multiplied lu x m t
  lu_mult_inplace_lem m bytes =
      let (t1, e1, a) = u_mult_inplace_lem lu x view apart fits m bytes in
      let (t2, e2, b) = l_mult_inplace_lem lu x view apart fits t1 (omega arith) a.bytes in
      let upper : (i c : ℕ)
          → i < lu.n_row
          → c < x.n_col
          → el x t1 i c ≡ row_from lu.n_col (el lu m) (λ j. el x m j c) i i =
        λ i c h l. a.rows i c (omega arith) l in
      (
        t2,
        run m t1 t2 e1 e2,
        record {
          bytes = b.bytes;
          rows = λ r c h l.
              subst (λ n. el x t2 r c ≡ value n n (el lu m) (λ k. el x m k c) r) (sym square)
                (b.rows r c (omega arith) h l
                  ∙ ap₂ bit_xor (upper r c h l) (
                      sum_from_ext 0 r _ _ (λ j p q.
                        ap₂ (λ u v. u ⊗ v)
                          (a.off (at lu r j)
                            (λ i' c' l' lc'. apart r j i' c' h (omega arith) (omega arith) lc'))
                          (upper j c (omega arith) l)))
                  ∙ xor_comm (row_from lu.n_col (el lu m) (λ j. el x m j c) r r) _
                  ∙ sym (value_full lu.n_col (el lu m) (λ k. el x m k c) r (omega arith)));
          off = λ p away.
              b.off p (λ i c l u lc. away i c (omega arith) lc)
              ∙ a.off p (λ i c l lc. away i c (omega arith) lc);
        },
      )

  -- Solved and multiplied again, a right-hand side is as it was: for a square matrix with no zero on
  -- the diagonal, and rows that share no cell with it and are at least as many as its own,
  -- `lu_mult_inplace` undoes `lu_invmult_inplace`, both without permutations.
  pub lu_mult_inplace-lu_invmult_inplace :
      (m : Mem)
      → IsBytes m
      → ((i : ℕ) → i < lu.n_col → el lu m i i ≢ 0)
      → (t : Mem) × ((lu_invmult_inplace lu none none none x rowbuf m
            >>= lu_mult_inplace lu none none x rowbuf)
          ≡ some t)
        × ((r c : ℕ) → r < lu.n_row → c < x.n_col → el x t r c ≡ el x m r c)
        × ((a : ℕ) → OffMatrix x a → t a ≡ m a)
  lu_mult_inplace-lu_invmult_inplace m bytes pivots =
      let (t1, e1, s) =
        lu_invmult_inplace_lem lu x rowbuf m view apart square fits pos bytes pivots in
      let (t2, e2, p) = lu_mult_inplace_lem t1 s.bytes in
      (
        t2,
        on_left e1 (lu_mult_inplace lu none none x rowbuf) ∙ e2,
        λ r c h l.
            p.rows r c h l
            ∙ value_ext lu.n_row (el lu t1) (el lu m) (λ k. el x t1 k c) r h
                (λ i j hi hj.
                  s.off (at lu i j) (λ i' c' h' l'. apart i j i' c' hi (omega arith) h' l'))
            ∙ ap (λ n. value n n (el lu m) (λ k. el x t1 k c) r) square
            ∙ s.rows r c (omega arith) l,
        λ a away. p.off a away ∙ s.off a away,
      )
