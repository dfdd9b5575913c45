-- ===== src/Lt/Rows.antt =====
-- The matrix that `lt_generate_mat` of tvrq/lt.c writes.
use tv_rq.Prelude.{
  ℕ, ◌<◌, ◌≡◌, refl, ap, sym, subst, ◌∙◌, some, List, [], ◌∷◌, All, arith, ◌==◌, ==_iff, ==_self,
  if◌then◌else◌, Bool-cases, inl, inr, ◌>>=◌,
}
use tv_rq.Memory.{Mem, write, for_range}
use tv_rq.Memory.Sweep.{IsBytes, write_same, write_other, write-IsBytes}
use tv_rq.Parameters.{Parameters}
use tv_rq.Parameters.Valid.{IsValid}
use tv_rq.M256v.{M256v, set_el}
use tv_rq.M256v.Access.{at, IsView, set_el_lem, at_injective}
use tv_rq.M256v.Rows.{Written}
use tv_rq.M256v.Fill.{Filled, fill_lem}
use tv_rq.M256v.Whole.Entries.{clear_lem}
use tv_rq.Lt.{walk, lt_row, lt_generate_mat}
use tv_rq.Lt.Positions.{visit_all, positions, walk_lem}
use tv_rq.Lt.Columns.{positions_lem}
use tv_rq.Lt.Tuples.{isi_positions, isi_positions_lem}

-- The element of column `c` after 1 is stored at the columns of the list, over `d`.
unfoldable pub mark : ℕ → List ℕ → ℕ → ℕ
mark c [] d = d
mark c (x ∷ xs) d = if c == x then 1 else mark c xs d

mark_one : (c : ℕ) (xs : List ℕ) → mark c xs 1 ≡ 1
unfolding mark
mark_one c [] = refl
mark_one c (x ∷ xs) = elim (Bool-cases (c == x)) [
  | inl e ↦ rw e refl
  | inr e ↦ rw e (mark_one c xs)
]

module _ (mat : M256v) (view : IsView mat) (i : ℕ) (in_range : i < mat.n_row) where
  mark_step :
      (q c : ℕ) (qs : List ℕ) (m : Mem)
      → q < mat.n_col
      → c < mat.n_col
      → mark c qs (write m (at mat i q) 1 (at mat i c)) ≡ mark c (q ∷ qs) (m (at mat i c))
  unfolding mark
  mark_step q c qs m h l = elim (Bool-cases (c == q)) [
    | inl e ↦
        let same : c ≡ q = (==_iff c q).0 e in
        rw (same, ==_self q) (ap (mark q qs) (write_same m (at mat i q) 1) ∙ mark_one q qs)
    | inr e ↦ rw e (
        ap (mark c qs) (
          write_other m (at mat i q) 1 (at mat i c)
            (λ a. ground (arith, (at_injective mat i c i q view l h a).1))))
  ]

  mark_each :
      (cs : List ℕ) (m : Mem)
      → IsBytes m
      → All (λ c. c < mat.n_col) cs
      → (m' : Mem) × (visit_all (λ c m. set_el mat i c 1 m) cs m ≡ some m')
        × Written m m' mat.n_col (at mat i) (λ c. mark c cs (m (at mat i c)))
  unfolding visit_all mark
  mark_each [] m bytes h =
      (m, refl, record { bytes = bytes; here = λ c l. refl; off = λ x away. refl })
  mark_each (q ∷ qs) m bytes h =
      let (m', run, w) =
        mark_each qs (write m (at mat i q) 1) (write-IsBytes m (at mat i q) 1 (omega arith) bytes)
          h.1 in
      (
        m',
        ap (λ o. o >>= visit_all (λ c m. set_el mat i c 1 m) qs)
              (set_el_lem mat i q 1 m in_range (omega (arith, h.0)))
            ∙ run,
        record {
          bytes = w.bytes;
          here = λ c l. w.here c l ∙ mark_step q c qs m h.0 l;
          off = λ x away. w.off x away ∙ write_other m (at mat i q) 1 x (away q h.0);
        },
      )

  -- One row, in a matrix with as many columns as there are intermediate symbols.
  lt_row_lem :
      (p : Parameters) (isis : ℕ → ℕ) (m : Mem)
      → IsValid p
      → mat.n_col ≡ p.l
      → IsBytes m
      → (m' : Mem) × (lt_row mat p isis i m ≡ some m')
        × Written m m' mat.n_col
            (at mat i)
            (λ c. mark c (isi_positions (isis i) p) (m (at mat i c)))
  unfolding lt_row positions visit_all
  lt_row_lem p isis m valid cols bytes =
      let (t, e, range, same) = isi_positions_lem (isis i) valid in
      let inside =
        subst (λ n. All (λ c. c < n) (positions t p)) (sym cols) (positions_lem valid range).1 in
      let (m', run, w) = mark_each (positions t p) m bytes inside in
      (
        m',
        ap (λ o. o >>= λ t. walk (λ c m. set_el mat i c 1 m) t p (λ c m. set_el mat i c 1 m) m) e
            ∙ walk_lem (λ c m. set_el mat i c 1 m) (λ c m. set_el mat i c 1 m) m valid range
            ∙ run,
        subst (λ cs. Written m m' mat.n_col (at mat i) (λ c. mark c cs (m (at mat i c)))) (sym same)
            w,
      )

pub lt_generate_mat_lem :
    (mat : M256v) (p : Parameters) (isis : ℕ → ℕ) (m : Mem)
    → IsView mat
    → IsValid p
    → mat.n_col ≡ p.l
    → IsBytes m
    → (m' : Mem) × (lt_generate_mat mat p mat.n_row isis m ≡ some m')
      × Filled mat m m' mat.n_row (λ r c. mark c (isi_positions (isis r) p) 0)
unfolding lt_generate_mat
lt_generate_mat_lem mat p isis m view valid cols bytes =
    let (m0, e, zero_rows) = clear_lem mat m view bytes in
    let (m', run, f) =
      fill_lem mat view m0 (λ r c. mark c (isi_positions (isis r) p) 0) (lt_row mat p isis)
        mat.n_row
        (λ i m1 h f1.
          let (m2, e2, w) = lt_row_lem mat view i h p isis m1 valid cols f1.bytes in
          (
            m2,
            e2,
            record {
              bytes = w.bytes;
              here = λ c l.
                  w.here c l
                  ∙ ap (mark c (isi_positions (isis i) p)) (
                      f1.off (at mat i c)
                        (λ j k lj lk a. omega (arith, (at_injective mat i c j k view l lk a).0))
                      ∙ zero_rows.rows i c h l);
              off = w.off;
            },
          ))
        zero_rows.bytes in
    (
      m',
      rw ((==_iff mat.n_col p.l).1 cols, ==_self mat.n_row)
          (ap (λ o. o >>= λ m'. for_range mat.n_row 0 (lt_row mat p isis) m') e ∙ run),
      record {
        bytes = f.bytes;
        rows = f.rows;
        off = λ x away. f.off x away ∙ zero_rows.off x away;
      },
    )
