-- ===== src/M256v/Whole/Entries.antt =====
-- What `clear`, `copy`, `add` and `add_inplace` of algebra/mv_generic.h leave behind, element by element.
use tv_rq.Prelude.{ℕ, ◌<◌, ◌≡◌, refl, ap, ap₂, ◌∙◌, some, arith, bit_xor, ==_iff, ◌>>=◌}
use tv_rq.Memory.{Mem, for_range}
use tv_rq.Memory.Sweep.{IsBytes}
use tv_rq.M256v.{M256v, copy_row, multadd_row}
use tv_rq.M256v.Access.{at, IsView, at_injective}
use tv_rq.M256v.Rows.{Written, RowsApart, copy_row_lem, clear_row_lem}
use tv_rq.M256v.Fill.{Filled, fill_lem}
use tv_rq.M256v.Add.{multadd_row_lem}
use tv_rq.M256v.Whole.{clear, copy, add, add_inplace}

-- `clear` makes each element zero.
pub clear_lem :
    (mat : M256v) (m : Mem)
    → IsView mat
    → IsBytes m
    → (m' : Mem) × (clear mat m ≡ some m') × Filled mat m m' mat.n_row (λ r c. 0)
unfolding clear
clear_lem mat m view bytes =
    fill_lem mat view m (λ r c. 0) _ mat.n_row (λ i m1 h f. clear_row_lem mat i m1 view h f.bytes)
      bytes

-- Two matrices of the same size that share no cell.
pub record Beside (a b : M256v) : Type 0 where
  pub rows : a.n_row ≡ b.n_row
  pub cols : a.n_col ≡ b.n_col
  pub apart : (i j : ℕ) → i < a.n_row → j < b.n_row → RowsApart a i b j

copy_step :
    (a b : M256v) (m : Mem)
    → Beside a b
    → copy a b m ≡ for_range b.n_row 0 (λ i m. copy_row a i b i m) m
unfolding copy
copy_step a b m s =
    rw ((==_iff a.n_row b.n_row).1 s.rows, (==_iff a.n_col b.n_col).1 s.cols)
      (ap (λ n. for_range n 0 (λ i m. copy_row a i b i m) m) s.rows)

-- `copy` makes each element of the target that of the source.
pub copy_lem :
    (a b : M256v) (m : Mem)
    → IsView b
    → IsBytes m
    → Beside a b
    → (m' : Mem) × (copy a b m ≡ some m') × Filled b m m' b.n_row (λ r c. m (at a r c))
unfolding copy
copy_lem a b m view bytes s =
    let (m', run, f) =
      fill_lem b view m (λ r c. m (at a r c)) (λ i m. copy_row a i b i m) b.n_row
        (λ i m1 h f.
          let (m2, e, w) =
            copy_row_lem a i b i m1 s.cols (omega (arith, s.rows)) h f.bytes
              (s.apart i i (omega (arith, s.rows)) h) in
          (
            m2,
            e,
            record {
              bytes = w.bytes;
              here = λ c l.
                  w.here c l
                  ∙ f.off (at a i c)
                      (λ j k lj lk. s.apart i j (omega (arith, s.rows)) (omega arith) k c lk l);
              off = w.off;
            },
          ))
        bytes in
    (m', copy_step a b m s ∙ run, f)

add_inplace_step :
    (a b : M256v) (m : Mem)
    → Beside a b
    → add_inplace a b m ≡ for_range b.n_row 0 (λ r m. multadd_row a r 1 b r m) m
unfolding add_inplace
add_inplace_step a b m s =
    rw ((==_iff a.n_row b.n_row).1 s.rows, (==_iff a.n_col b.n_col).1 s.cols) refl

-- `add_inplace` adds each element of the source to that of the target.
pub add_inplace_lem :
    (a b : M256v) (m : Mem)
    → IsView b
    → IsBytes m
    → Beside a b
    → (m' : Mem) × (add_inplace a b m ≡ some m')
      × Filled b m m' b.n_row (λ r c. bit_xor (m (at b r c)) (m (at a r c)))
add_inplace_lem a b m view bytes s =
    let (m', run, f) =
      fill_lem b view m (λ r c. bit_xor (m (at b r c)) (m (at a r c)))
        (λ i m. multadd_row a i 1 b i m) b.n_row
        (λ i m1 h f.
          let (m2, e, w) =
            multadd_row_lem a i b i m1 s.cols (omega (arith, s.rows)) h f.bytes
              (s.apart i i (omega (arith, s.rows)) h) in
          (
            m2,
            e,
            record {
              bytes = w.bytes;
              here = λ c l.
                  w.here c l
                  ∙ ap₂ bit_xor
                      (f.off (at b i c)
                        (λ j k lj lk e. omega (arith, (at_injective b i c j k view l lk e).0)))
                      (f.off (at a i c)
                        (λ j k lj lk. s.apart i j (omega (arith, s.rows)) (omega arith) k c lk l));
              off = w.off;
            },
          ))
        bytes in
    (m', add_inplace_step a b m s ∙ run, f)

-- Copied and added, a row of `a` and one of `b` give their sum.
add_row :
    (a b out : M256v) (i : ℕ) (m : Mem)
    → Beside a out
    → Beside b out
    → i < out.n_row
    → IsBytes m
    → (m' : Mem) × ((copy_row a i out i m >>= multadd_row b i 1 out i) ≡ some m')
      × Written m m' out.n_col (at out i) (λ c. bit_xor (m (at a i c)) (m (at b i c)))
add_row a b out i m s t h bytes =
    let (m1, e1, w1) =
      copy_row_lem a i out i m s.cols (omega (arith, s.rows)) h bytes
        (s.apart i i (omega (arith, s.rows)) h) in
    let (m2, e2, w2) =
      multadd_row_lem b i out i m1 t.cols (omega (arith, t.rows)) h w1.bytes
        (t.apart i i (omega (arith, t.rows)) h) in
    (
      m2,
      ap (λ o. o >>= multadd_row b i 1 out i) e1 ∙ e2,
      record {
        bytes = w2.bytes;
        here = λ c l.
            w2.here c l
            ∙ ap₂ bit_xor (w1.here c l)
                (w1.off (at b i c) (λ k lk. t.apart i i (omega (arith, t.rows)) h k c lk l));
        off = λ x away. w2.off x away ∙ w1.off x away;
      },
    )

add_step :
    (a b out : M256v) (m : Mem)
    → Beside a out
    → Beside b out
    → add a b out m
      ≡ for_range out.n_row 0 (λ i m. copy_row a i out i m >>= multadd_row b i 1 out i) m
unfolding add
add_step a b out m s t =
    rw
      (
        (==_iff a.n_row b.n_row).1 (omega (arith, s.rows, t.rows)),
        (==_iff a.n_col b.n_col).1 (omega (arith, s.cols, t.cols)),
        (==_iff a.n_row out.n_row).1 s.rows,
        (==_iff a.n_col out.n_col).1 s.cols,
      )
      (ap (λ n. for_range n 0 (λ i m. copy_row a i out i m >>= multadd_row b i 1 out i) m) s.rows)

-- `add` makes each element of the target the sum of those of the two sources, which share no cell
-- with it.
pub add_lem :
    (a b out : M256v) (m : Mem)
    → IsView out
    → IsBytes m
    → Beside a out
    → Beside b out
    → (m' : Mem) × (add a b out m ≡ some m')
      × Filled out m m' out.n_row (λ r c. bit_xor (m (at a r c)) (m (at b r c)))
add_lem a b out m view bytes s t =
    let (m', run, f) =
      fill_lem out view m (λ r c. bit_xor (m (at a r c)) (m (at b r c)))
        (λ i m. copy_row a i out i m >>= multadd_row b i 1 out i) out.n_row
        (λ i m1 h f.
          let (m2, e, w) = add_row a b out i m1 s t h f.bytes in
          (
            m2,
            e,
            record {
              bytes = w.bytes;
              here = λ c l.
                  w.here c l
                  ∙ ap₂ bit_xor
                      (f.off (at a i c)
                        (λ j k lj lk. s.apart i j (omega (arith, s.rows)) (omega arith) k c lk l))
                      (f.off (at b i c)
                        (λ j k lj lk. t.apart i j (omega (arith, t.rows)) (omega arith) k c lk l));
              off = w.off;
            },
          ))
        bytes in
    (m', add_step a b out m s t ∙ run, f)
