-- ===== src/Api/Execute/Symbol.antt =====
-- One symbol of `RqOutExecute` of api/tvrq_api.c.
use tv_rq.Prelude.{ℕ, ◌<◌, ◌≡◌, ap, ap₂, sym, subst, ◌∙◌, some, All, arith, bit_xor, ◌>>=◌}
use tv_rq.Memory.{Mem}
use tv_rq.Memory.Sweep.{IsBytes}
use tv_rq.Parameters.{Parameters}
use tv_rq.Parameters.Valid.{IsValid}
use tv_rq.Tuple.{Tuple}
use tv_rq.M256v.{M256v, copy_row, multadd_row}
use tv_rq.M256v.Access.{at}
use tv_rq.M256v.Rows.{Written, RowsApart, copy_row_lem}
use tv_rq.Lt.{walk}
use tv_rq.Lt.Positions.{InRange, visit_all, later_positions, positions, walk_lem}
use tv_rq.Lt.Columns.{later_positions-All}
use tv_rq.Lt.Tuples.{esi_positions, esi_positions_lem}
use tv_rq.Api.Execute.{out_symbol}
use tv_rq.Api.Execute.Sum.{sum, sum_ext, add_rows}

module _ (im o : M256v) (p : Parameters) (i : ℕ) (esis : Mem) (m : Mem) (valid : IsValid p)
    (same_cols : im.n_col ≡ o.n_col) (im_rows : im.n_row ≡ p.l) (in_range : i < o.n_row)
    (apart : (q : ℕ) → q < im.n_row → RowsApart im q o i) (bytes : IsBytes m) where
  walk_row :
      {t : Tuple}
      → InRange t p
      → (m' : Mem) × (walk (λ c. multadd_row im c 1 o i) t p (λ c. copy_row im c o i) m ≡ some m')
        × Written m m' o.n_col (at o i) (λ c. sum (λ q. m (at im q c)) (positions t p))
  unfolding positions sum
  walk_row {t} range =
      let inside : All (λ q. q < im.n_row) (later_positions t p) =
        subst (λ n. All (λ q. q < n) (later_positions t p)) (sym im_rows)
          (later_positions-All valid range) in
      let first : t.b < im.n_row = omega (arith, im_rows, valid.split, range.b_max) in
      let (m1, e, w) = copy_row_lem im t.b o i m same_cols first in_range bytes (apart t.b first) in
      let (m', run, w') =
        add_rows im o i same_cols in_range apart (later_positions t p) m1 w.bytes inside in
      (
        m',
        walk_lem (λ c. multadd_row im c 1 o i) (λ c. copy_row im c o i) m valid range
            ∙ ap (λ x. x >>= visit_all (λ q. multadd_row im q 1 o i) (later_positions t p)) e
            ∙ run,
        record {
          bytes = w'.bytes;
          here = λ c l.
              w'.here c l
              ∙ ap₂ bit_xor (w.here c l) (
                  sum_ext (λ q. q < im.n_row) _ _ (later_positions t p) inside
                    (λ q b. w.off (at im q c) (λ k lk. apart q b k c lk l)));
          off = λ x away. w'.off x away ∙ w.off x away;
        },
      )

  -- The row of the output becomes the sum of the rows at the tuple's positions.
  pub out_symbol_lem :
      (m' : Mem) × (out_symbol im o p esis i m ≡ some m')
      × Written m m' o.n_col (at o i) (λ c. sum (λ q. m (at im q c)) (esi_positions (esis i) p))
  unfolding out_symbol
  out_symbol_lem =
      let (t, e, range, same) = esi_positions_lem (esis i) valid in
      let (m', run, w) = walk_row range in
      (
        m',
        ap (λ x. x >>= λ t. walk (λ c. multadd_row im c 1 o i) t p (λ c. copy_row im c o i) m) e
            ∙ run,
        subst (λ cs. Written m m' o.n_col (at o i) (λ c. sum (λ q. m (at im q c)) cs)) (sym same) w,
      )
