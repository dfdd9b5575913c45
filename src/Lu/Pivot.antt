-- ===== src/Lu/Pivot.antt =====
-- The search for a pivot in `LU_decomp_inplace` of algebra/mv_generic.h, and its move into place.
use tv_rq.Prelude.{
  on_left, fun_ext, ℕ, zero, suc, ◌+◌, ◌-◌, ◌≤◌, ◌<◌, ◌≡◌, ◌≢◌, ◌⊎◌, inl, inr, refl, ap, ap₂, sym,
  ◌∙◌, Option, none, some, arith, ◌==◌, if◌then◌else◌,
}
use native.Mathlib.Decide.{dec_lt, ℕ_discrete}
use tv_rq.Memory.{Mem}
use tv_rq.Memory.Sweep.{IsBytes}
use tv_rq.M256v.{M256v, swap_rows, swap_cols}
use tv_rq.M256v.Access.{at, IsView, at_injective, get_el_lem}
use tv_rq.M256v.Cols.{swap_rows_lem, swap_cols_lem}
use tv_rq.Lu.{LuState, swap_int, find_row, find_pivot, move_pivot}
use tv_rq.Lu.Combine.{el}
use tv_rq.Lu.Eliminate.{OffMatrix}
use tv_rq.Lu.Transpose.{
  transpose, transpose_left, transpose_right, transpose_other, transpose-lt, swap_int_lem,
  transpose_same, ==_other,
}

module _ (mat : M256v) (m : Mem) where
  zero_next :
      (n r c : ℕ)
      → r < mat.n_row
      → c < mat.n_col
      → el mat m r c ≡ 0
      → find_row (suc n) r c mat m ≡ find_row n (r + 1) c mat m
  unfolding find_row
  zero_next n r c h l e = rw (get_el_lem mat r c m h (omega arith), e) refl

  nonzero_here :
      (n r c : ℕ)
      → r < mat.n_row
      → c < mat.n_col
      → el mat m r c ≢ 0
      → find_row (suc n) r c mat m ≡ some (some r)
  unfolding find_row
  nonzero_here n r c h l e = ground (arith, get_el_lem mat r c m h (omega arith))

  -- The first nonzero element of a column from a row on.
  find_row_lem :
      (n r c : ℕ)
      → r + n ≡ mat.n_row
      → c < mat.n_col
      → ((find_row n r c mat m ≡ some none) × ((k : ℕ) → r ≤ k → k < mat.n_row → el mat m k c ≡ 0))
        ⊎ ((p : ℕ) × (find_row n r c mat m ≡ some (some p))
            × (r ≤ p)
            × (p < mat.n_row)
            × (el mat m p c ≢ 0))
  find_row_lem zero r c h l = unfold find_row in inl (refl, λ k p q. absurd (omega arith))
  find_row_lem (suc n) r c h l = elim (ℕ_discrete (el mat m r c) 0) [
    | no ne ↦ inr (r, nonzero_here n r c (omega arith) l ne, omega arith, omega arith, ne)
    | yes z ↦ elim (find_row_lem n (r + 1) c (omega arith) l) [
      | inl (e, all) ↦ inl (
        zero_next n r c (omega arith) l z ∙ e,
        λ k p q. elim (dec_lt r k) [
          | yes later ↦ all k (omega arith) q
          | no here ↦ let same : k ≡ r = omega arith in ap (λ k. el mat m k c) same ∙ z
        ],
      )
      | inr (p, e, low, high, ne) ↦
          inr (p, zero_next n r c (omega arith) l z ∙ e, omega arith, high, ne)
    ]
  ]

  -- What the search finds from column `c` on: nothing but zeros, or the first column with another
  -- element, and where it has one.
  abbrev pub Search : ℕ → ℕ → Option (Option (ℕ × ℕ)) → Type 0
  Search i c found =
      ((found ≡ some none)
        × ((k j : ℕ) → i ≤ k → k < mat.n_row → c ≤ j → j < mat.n_col → el mat m k j ≡ 0))
      ⊎ ((p : ℕ) × (q : ℕ) × (found ≡ some (some (p, q)))
          × (i ≤ p)
          × (p < mat.n_row)
          × (c ≤ q)
          × (q < mat.n_col)
          × (el mat m p q ≢ 0)
          × ((k j : ℕ) → i ≤ k → k < mat.n_row → c ≤ j → j < q → el mat m k j ≡ 0))

  next_col :
      (n c i : ℕ)
      → find_row (mat.n_row - i) i c mat m ≡ some none
      → find_pivot (suc n) c i mat m ≡ find_pivot n (c + 1) i mat m
  unfolding find_pivot
  next_col n c i e = rw e refl

  this_col :
      (n c i p : ℕ)
      → find_row (mat.n_row - i) i c mat m ≡ some (some p)
      → find_pivot (suc n) c i mat m ≡ some (some (p, c))
  unfolding find_pivot
  this_col n c i p e = rw e refl

  no_col : (c i : ℕ) → c ≡ mat.n_col → find_pivot zero c i mat m ≡ some none
  unfolding find_pivot
  no_col c i e = ground arith

  pub find_pivot_lem :
      (n c i : ℕ) → c + n ≡ mat.n_col → i < mat.n_row → Search i c (find_pivot n c i mat m)
  find_pivot_lem zero c i h l = inl (no_col c i (omega arith), λ k j p q u v. absurd (omega arith))
  find_pivot_lem (suc n) c i h l =
      elim (find_row_lem (mat.n_row - i) i c (omega arith) (omega arith)) [
        | inr (p, e, low, high, ne) ↦ inr (
          p,
          c,
          this_col n c i p e,
          low,
          high,
          omega arith,
          omega arith,
          ne,
          λ k j a b u v. absurd (omega arith),
        )
        | inl (e, zeros) ↦
            let before : (k j : ℕ) → i ≤ k → k < mat.n_row → j ≡ c → el mat m k j ≡ 0 =
              λ k j a b s. ap (el mat m k) s ∙ zeros k a b in
            elim (find_pivot_lem n (c + 1) i (omega arith) l) [
              | inl (f, all) ↦ inl (
                next_col n c i e ∙ f,
                λ k j a b u v. elim (dec_lt c j) [
                  | yes later ↦ all k j a b (omega arith) v
                  | no here ↦ before k j a b (omega arith)
                ],
              )
              | inr (p, q, f, low, high, left, right, ne, all) ↦ inr (
                p,
                q,
                next_col n c i e ∙ f,
                low,
                high,
                omega arith,
                right,
                ne,
                λ k j a b u v. elim (dec_lt c j) [
                  | yes later ↦ all k j a b (omega arith) v
                  | no here ↦ before k j a b (omega arith)
                ],
              )
            ]
      ]

-- Rows and columns have changed places.
pub record Moved (mat : M256v) (m : Mem) (i p j q : ℕ) (m' : Mem) : Type 0 where
  pub bytes : IsBytes m'
  pub entries :
      (r c : ℕ)
      → r < mat.n_row
      → c < mat.n_col
      → el mat m' r c ≡ el mat m (transpose i p r) (transpose j q c)
  pub off : (a : ℕ) → OffMatrix mat a → m' a ≡ m a

module _ (mat : M256v) (view : IsView mat) where
  rows-Moved :
      (i p : ℕ) (m : Mem)
      → IsBytes m
      → i < mat.n_row
      → p < mat.n_row
      → (m' : Mem) × ((if p == i then some m else swap_rows mat i p m) ≡ some m')
        × Moved mat m i p 0 0 m'
  rows-Moved i p m bytes h l = elim (ℕ_discrete p i) [
    | yes e ↦ (
      m,
      ground arith,
      record {
        bytes = bytes;
        entries = λ r c lr lc. sym (
            ap (λ x. el mat m x (transpose 0 0 c))
              (ap (λ p. transpose i p r) e ∙ transpose_same i r)
            ∙ ap (el mat m r) (transpose_same 0 c));
        off = λ a away. refl;
      },
    )
    | no ne ↦
        let (m', run, w) = swap_rows_lem mat m view bytes i p h l (λ e. ne (sym e)) in
        (
          m',
          rw (==_other p i ne) run,
          record {
            bytes = w.bytes;
            entries = λ r c lr lc. elim (ℕ_discrete r i) [
              | yes e ↦
                  ap (λ r. el mat m' r c) e
                  ∙ w.left c lc
                  ∙ sym (
                      ap₂ (el mat m) (ap (transpose i p) e ∙ transpose_left i p)
                        (transpose_same 0 c))
              | no d ↦ elim (ℕ_discrete r p) [
                | yes e ↦
                    ap (λ r. el mat m' r c) e
                    ∙ w.right c lc
                    ∙ sym (
                        ap₂ (el mat m) (ap (transpose i p) e ∙ transpose_right i p)
                          (transpose_same 0 c))
                | no f ↦
                    w.off (at mat r c) (λ k lk. (
                      λ e. d (at_injective mat r c i k view lc lk e).0,
                      λ e. f (at_injective mat r c p k view lc lk e).0,
                    ))
                    ∙ sym (ap₂ (el mat m) (transpose_other i p r d f) (transpose_same 0 c))
              ]
            ];
            off = λ a away. w.off a (λ k lk. (away i k h lk, away p k l lk));
          },
        )
  ]

  cols-Moved :
      (j q : ℕ) (m : Mem)
      → IsBytes m
      → 0 < mat.n_row
      → j < mat.n_col
      → q < mat.n_col
      → (m' : Mem) × ((if q == j then some m else swap_cols mat q j m) ≡ some m')
        × Moved mat m 0 0 j q m'
  cols-Moved j q m bytes pos h l = elim (ℕ_discrete q j) [
    | yes e ↦ (
      m,
      ground arith,
      record {
        bytes = bytes;
        entries = λ r c lr lc. sym (
            ap₂ (el mat m) (transpose_same 0 r) (ap (λ q. transpose j q c) e ∙ transpose_same j c));
        off = λ a away. refl;
      },
    )
    | no ne ↦
        let (m', run, w) = swap_cols_lem mat m view bytes q j pos l h ne in
        (
          m',
          rw (==_other q j ne) run,
          record {
            bytes = w.bytes;
            entries = λ r c lr lc. elim (ℕ_discrete c j) [
              | yes e ↦
                  ap (el mat m' r) e
                  ∙ w.right r lr
                  ∙ sym (
                      ap₂ (el mat m) (transpose_same 0 r)
                        (ap (transpose j q) e ∙ transpose_left j q))
              | no d ↦ elim (ℕ_discrete c q) [
                | yes e ↦
                    ap (el mat m' r) e
                    ∙ w.left r lr
                    ∙ sym (
                        ap₂ (el mat m) (transpose_same 0 r)
                          (ap (transpose j q) e ∙ transpose_right j q))
                | no f ↦
                    w.off (at mat r c) (λ k lk. (
                      λ e. f (at_injective mat r c k q view lc l e).1,
                      λ e. d (at_injective mat r c k j view lc h e).1,
                    ))
                    ∙ sym (ap₂ (el mat m) (transpose_same 0 r) (transpose_other j q c d f))
              ]
            ];
            off = λ a away. w.off a (λ k lk. (away k q lk l, away k j lk h));
          },
        )
  ]

  move_run :
      (i p q : ℕ) (st : LuState) (m1 m2 : Mem)
      → (if p == i then some st.mem else swap_rows mat i p st.mem) ≡ some m1
      → (if q == i then some m1 else swap_cols mat q i m1) ≡ some m2
      → move_pivot mat i p q st
        ≡ some (record {
          mem = m2;
          rp = if p == i then st.rp else swap_int i p st.rp;
          cp = if q == i then st.cp else swap_int i q st.cp;
        })
  unfolding move_pivot
  move_run i p q st m1 m2 e1 e2 = on_left e1 _ ∙ on_left e2 _

  -- The array after the move, which may be none.
  swap_if :
      (i p : ℕ) (f : ℕ → ℕ) (x : ℕ) → (if p == i then f else swap_int i p f) x ≡ swap_int i p f x
  swap_if i p f x = elim (ℕ_discrete p i) [
    | yes e ↦
        ground
          (arith, swap_int_lem i p f x, ap (λ p. f (transpose i p x)) e, ap f (transpose_same i x))
    | no ne ↦ rw (==_other p i ne) refl
  ]

  -- The element in row `p` and column `q` is moved to row and column `i`, and the arrays record it.
  pub move_pivot_lem :
      (i p q : ℕ) (st : LuState)
      → IsBytes st.mem
      → i < mat.n_row
      → p < mat.n_row
      → i < mat.n_col
      → q < mat.n_col
      → (st' : LuState) × (move_pivot mat i p q st ≡ some st')
        × Moved mat st.mem i p i q st'.mem
        × (st'.rp ≡ swap_int i p st.rp)
        × (st'.cp ≡ swap_int i q st.cp)
  move_pivot_lem i p q st bytes hi hp li lq =
      let (m1, e1, w1) = rows-Moved i p st.mem bytes hi hp in
      let (m2, e2, w2) = cols-Moved i q m1 w1.bytes (omega arith) li lq in
      (
        _,
        move_run i p q st m1 m2 e1 e2,
        record {
          bytes = w2.bytes;
          entries = λ r c lr lc.
              w2.entries r c lr lc
              ∙ ap (λ r. el mat m1 r (transpose i q c)) (transpose_same 0 r)
              ∙ w1.entries r (transpose i q c) lr (transpose-lt i q c mat.n_col li lq lc)
              ∙ ap (el mat st.mem (transpose i p r)) (transpose_same 0 (transpose i q c));
          off = λ a away. w2.off a away ∙ w1.off a away;
        },
        fun_ext (swap_if i p st.rp),
        fun_ext (swap_if i q st.cp),
      )
