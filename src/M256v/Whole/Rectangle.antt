-- ===== src/M256v/Whole/Rectangle.antt =====
-- What `copy_submat` of algebra/mv_generic.h leaves behind.
use tv_rq.Prelude.{ℕ, ◌+◌, ◌*◌, ◌<◌, ◌≤◌, ◌≡◌, ◌≢◌, ap, ◌∙◌, some, arith, le→leb}
use tv_rq.Memory.{Mem, write, for_range}
use tv_rq.Memory.Sweep.{IsBytes}
use tv_rq.M256v.{M256v}
use tv_rq.M256v.Access.{at, IsView, at_injective, get_el_lem, set_el_lem}
use tv_rq.M256v.Rows.{Written, for_range-Written}
use tv_rq.M256v.Fill.{Filled, fill_lem}
use tv_rq.M256v.Whole.{copy_el, copy_submat}

-- The view of a rectangle of a matrix.
abbrev pub rectangle : M256v → ℕ → ℕ → ℕ → ℕ → M256v
rectangle t row col n_row n_col = record {
  n_row = n_row;
  n_col = n_col;
  rstride = t.rstride;
  e = t.e + (row * t.rstride + col);
}

module _ (a : M256v) (a_row a_col n_row n_col : ℕ) (t : M256v) (t_row t_col : ℕ)
    (a_rows : a_row + n_row ≤ a.n_row) (a_cols : a_col + n_col ≤ a.n_col)
    (t_rows : t_row + n_row ≤ t.n_row) (t_cols : t_col + n_col ≤ t.n_col) where
  abbrev part : M256v
  part = rectangle t t_row t_col n_row n_col

  in_part : (r c : ℕ) → at t (r + t_row) (c + t_col) ≡ at part r c
  in_part r c = grind arith

  copy_el_lem :
      (r c : ℕ) (m : Mem)
      → r < n_row
      → c < n_col
      → copy_el a a_row a_col t t_row t_col r c m
        ≡ some (write m (at part r c) (m (at a (r + a_row) (c + a_col))))
  unfolding copy_el
  copy_el_lem r c m h l = rw (get_el_lem a (r + a_row) (c + a_col) m (omega arith) (omega arith)) (
      set_el_lem t (r + t_row) (c + t_col) _ m (omega arith) (omega arith)
      ∙ ap (λ x. some (write m x (m (at a (r + a_row) (c + a_col))))) (in_part r c))

  module _ (view : IsView t)
      (apart : (r c r' c' : ℕ)
        → r < n_row
        → c < n_col
        → r' < n_row
        → c' < n_col
        → at a (r + a_row) (c + a_col) ≢ at part r' c') where
    part-IsView : IsView part
    part-IsView = omega arith

    copy_part :
        (r : ℕ) (m : Mem)
        → r < n_row
        → IsBytes m
        → (m' : Mem) × (for_range n_col 0 (copy_el a a_row a_col t t_row t_col r) m ≡ some m')
          × Written m m' n_col (at part r) (λ c. m (at a (r + a_row) (c + a_col)))
    copy_part r m h bytes =
        for_range-Written (at part r) (λ c m. m (at a (r + a_row) (c + a_col))) _ n_col m bytes
          (λ j k lt lk e.
            omega (arith, (at_injective part r j r k part-IsView (omega arith) lk e).1))
          (λ c m' l away.
            away (at a (r + a_row) (c + a_col)) (λ k lk. apart r c r k h l h (omega arith)))
          (λ c m l b. (copy_el_lem r c m h l, b _))

    -- `copy_submat` of a rectangle within both matrices makes each element of the target's rectangle
    -- that of the source's, which shares no cell with it, and changes nothing else.
    pub copy_submat_lem :
        (m : Mem)
        → IsBytes m
        → (m' : Mem) × (copy_submat a a_row a_col n_row n_col t t_row t_col m ≡ some m')
          × Filled
              (rectangle t t_row t_col n_row n_col)
              m
              m'
              n_row
              (λ r c. m (at a (r + a_row) (c + a_col)))
    unfolding copy_submat
    copy_submat_lem m bytes =
        let (m', run, f) =
          fill_lem part part-IsView m (λ r c. m (at a (r + a_row) (c + a_col)))
            (λ r m. for_range n_col 0 (copy_el a a_row a_col t t_row t_col r) m) n_row
            (λ r m1 h f.
              let (m2, e, w) = copy_part r m1 h f.bytes in
              (
                m2,
                e,
                record {
                  bytes = w.bytes;
                  here = λ c l.
                      w.here c l
                      ∙ f.off (at a (r + a_row) (c + a_col))
                          (λ j k lj lk. apart r c j k h l (omega arith) lk);
                  off = w.off;
                },
              ))
            bytes in
        (
          m',
          rw
              (
                le→leb (a_row + n_row) a.n_row a_rows,
                le→leb (a_col + n_col) a.n_col a_cols,
                le→leb (t_row + n_row) t.n_row t_rows,
                le→leb (t_col + n_col) t.n_col t_cols,
              )
              run,
          f,
        )
