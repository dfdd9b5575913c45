-- ===== src/M256v/Cols.antt =====
-- What the two swaps and the column operations of algebra/m256v.c do to each cell of the memory.
use tv_rq.Prelude.{
  zero, suc, fun_ext, false, ℕ, ◌+◌, ◌-◌, ◌*◌, ◌<◌, ◌≡◌, ◌≢◌, refl, sym, ap, ap₂, ◌∙◌, some, Option,
  ◌==◌, ==_zero, ==_iff, ◌>>=◌, arith, if◌then◌else◌,
}
use native.Mathlib.Decide.{dec_lt}
use tv_rq.Memory.{Mem, for_range}
use tv_rq.Memory.Sweep.{IsBytes}
use tv_rq.Gf256.Poly.{◌⊗◌, ⊗-zero, ⊗-lt}
use tv_rq.Gf256.{gf256_log}
use tv_rq.M256v.{
  M256v, get_el, set_el, scaled, swap_bytes, swap_rows, swap_cols, mult_col_from, copy_col,
}
use tv_rq.M256v.Access.{at, IsView, get_el_offs_lem, get_el_lem, set_el_lem, at_injective}
use tv_rq.M256v.Rows.{Written, for_range-Written}
use tv_rq.M256v.Swap.{Swapped, Apart, swap_lem}
use tv_rq.M256v.Cells.{scale_cell}

ne_test : (a b : ℕ) → a ≢ b → (a == b) ≡ false
ne_test a b h = ground arith

-- A loop from `i` on is a loop from 0 on, with the body moved.
for_range_shift {ℓ} :
    {S : Type ℓ} (body : ℕ → S → Option S) (i n j : ℕ) (s : S)
    → for_range n (i + j) body s ≡ for_range n j (λ k. body (i + k)) s
unfolding for_range
for_range_shift body i zero j s = refl
for_range_shift body i (suc n) j s =
    ap (λ f. body (i + j) s >>= f)
      (fun_ext λ t.
        ap (λ k. for_range n k body t) {y = i + (j + 1)} (omega arith)
        ∙ for_range_shift body i n (j + 1) t)

for_range_from {ℓ} :
    {S : Type ℓ} (body : ℕ → S → Option S) (i n : ℕ) (s : S)
    → for_range n i body s ≡ for_range n 0 (λ k. body (i + k)) s
for_range_from body i n s =
    ap (λ k. for_range n k body s) {y = i + 0} (omega arith) ∙ for_range_shift body i n 0 s

module _ (mat : M256v) (m : Mem) (view : IsView mat) (bytes : IsBytes m) where
  -- `swap_rows` exchanges two different rows and changes nothing else.
  pub swap_rows_lem :
      (r1 r2 : ℕ)
      → r1 < mat.n_row
      → r2 < mat.n_row
      → r1 ≢ r2
      → (m' : Mem) × (swap_rows mat r1 r2 m ≡ some m')
        × Swapped (at mat r1) (at mat r2) mat.n_col m mat.n_col m'
  unfolding swap_rows
  swap_rows_lem r1 r2 h k ne =
      let (m', e, w) = swap_lem (at mat r1) (at mat r2) mat.n_col m bytes apart in
      (
        m',
        rw
            (
              ne_test r1 r2 ne,
              get_el_offs_lem mat r1 0 h (omega arith),
              get_el_offs_lem mat r2 0 k (omega arith),
              address r1,
              address r2,
            )
            e,
        w,
      )
    where
      apart : Apart (at mat r1) (at mat r2) mat.n_col m
      apart = record {
        lefts = λ i j a b e. omega arith;
        rights = λ i j a b e. omega arith;
        between = λ i j a b e. ne (at_injective mat r1 i r2 j view a b e).0;
      }

      address : (r : ℕ) → ◌≡◌ {A = ℕ → ℕ} (λ i. mat.e + (r * mat.rstride + 0) + i) (at mat r)
      address r = fun_ext λ i. omega arith

  -- `swap_cols` exchanges two different columns and changes nothing else.
  pub swap_cols_lem :
      (c1 c2 : ℕ)
      → 0 < mat.n_row
      → c1 < mat.n_col
      → c2 < mat.n_col
      → c1 ≢ c2
      → (m' : Mem) × (swap_cols mat c1 c2 m ≡ some m')
        × Swapped (λ r. at mat r c1) (λ r. at mat r c2) mat.n_row m mat.n_row m'
  unfolding swap_cols
  swap_cols_lem c1 c2 pos h k ne =
      let (m', e, w) = swap_lem (λ r. at mat r c1) (λ r. at mat r c2) mat.n_row m bytes apart in
      (
        m',
        rw
            (
              ne_test c1 c2 ne,
              get_el_offs_lem mat 0 c1 pos (omega arith),
              get_el_offs_lem mat 0 c2 pos (omega arith),
            )
            (ap (λ body. for_range mat.n_row 0 body m) bodies ∙ e),
        w,
      )
    where
      apart : Apart (λ r. at mat r c1) (λ r. at mat r c2) mat.n_row m
      apart = record {
        lefts = λ i j a b e. omega (arith, (at_injective mat i c1 j c1 view h h e).0);
        rights = λ i j a b e. omega (arith, (at_injective mat i c2 j c2 view k k e).0);
        between = λ i j a b e. ne (at_injective mat i c1 j c2 view h k e).1;
      }

      bodies :
          ◌≡◌ {A = ℕ → Mem → Option Mem}
            (λ i m. some (
              swap_bytes
                (mat.e + (0 * mat.rstride + c1) + i * mat.rstride)
                (mat.e + (0 * mat.rstride + c2) + i * mat.rstride)
                m))
            (λ i m. some (swap_bytes (at mat i c1) (at mat i c2) m))
      bodies = fun_ext λ i. fun_ext λ m.
          ap₂ (λ a b. some (swap_bytes a b m)) {y = at mat i c1} {v = at mat i c2} (omega arith)
            (omega arith)

  column_apart : (c i j : ℕ) → c < mat.n_col → i < j → at mat i c ≢ at mat j c
  column_apart c i j h l e = omega (arith, (at_injective mat i c j c view h h e).0)

  -- `mult_col_from` multiplies the column, from row `offs` on, by `alpha`, which may be zero, and
  -- changes nothing else.
  pub mult_col_from_lem :
      (c offs alpha : ℕ)
      → c < mat.n_col
      → alpha < 256
      → (m' : Mem) × (mult_col_from mat c offs alpha m ≡ some m')
        × Written m m'
            (mat.n_row - offs)
            (λ k. at mat (offs + k) c)
            (λ k. m (at mat (offs + k) c) ⊗ alpha)
  unfolding mult_col_from
  mult_col_from_lem c offs alpha h small = elim (dec_lt 0 alpha) [
    | yes p ↦
        let (m', e, w) =
          for_range-Written (λ k. at mat (offs + k) c) (λ k m. m (at mat (offs + k) c) ⊗ alpha)
            (λ k m. get_el mat (offs + k) c m >>= λ v.
              if v == 0
              then some m
              else (scaled (gf256_log alpha) v >>= λ x. set_el mat (offs + k) c x m))
            (mat.n_row - offs) m bytes apart (λ k m' l away. ap (λ t. t ⊗ alpha) (own k m' away))
            (λ k m l b. (
              scale_cell mat (offs + k) c alpha m (omega arith) h p small b,
              ⊗-lt _ alpha small,
            )) in
        (m', rw (==_zero alpha p) (for_range_from _ offs (mat.n_row - offs) m ∙ e), w)
    | no p ↦
        let zero_alpha : alpha ≡ 0 = omega arith in
        let (m', e, w) =
          for_range-Written (λ k. at mat (offs + k) c) (λ k m. m (at mat (offs + k) c) ⊗ alpha)
            (λ k m. set_el mat (offs + k) c 0 m) (mat.n_row - offs) m bytes apart
            (λ k m' l away. ap (λ t. t ⊗ alpha) (own k m' away))
            (λ k m l b. (
              rw (zero_alpha, ⊗-zero) (set_el_lem mat (offs + k) c 0 m (omega arith) (omega arith)),
              ⊗-lt _ alpha small,
            )) in
        (m', rw zero_alpha (for_range_from _ offs (mat.n_row - offs) m ∙ e), w)
  ]
    where
      apart : (i j : ℕ) → i < j → j < mat.n_row - offs → at mat (offs + i) c ≢ at mat (offs + j) c
      apart i j a b = column_apart c (offs + i) (offs + j) h (omega arith)

      own :
          (k : ℕ) (m' : Mem)
          → ((x : ℕ) → ((j : ℕ) → j < k → x ≢ at mat (offs + j) c) → m' x ≡ m x)
          → m' (at mat (offs + k) c) ≡ m (at mat (offs + k) c)
      own k m' away =
          away (at mat (offs + k) c)
            (λ j l e. column_apart c (offs + j) (offs + k) h (omega arith) (sym e))

-- `copy_col` makes the target column equal to the source column, of the same or another view, and
-- changes nothing else, where the two share no cell.
pub copy_col_lem :
    (m1 : M256v) (c1 : ℕ) (mt : M256v) (ct : ℕ) (m : Mem)
    → IsView mt
    → IsBytes m
    → m1.n_row ≡ mt.n_row
    → c1 < m1.n_col
    → ct < mt.n_col
    → ((j k : ℕ) → j < mt.n_row → k < mt.n_row → at m1 k c1 ≢ at mt j ct)
    → (m' : Mem) × (copy_col m1 c1 mt ct m ≡ some m')
      × Written m m' mt.n_row (λ r. at mt r ct) (λ r. m (at m1 r c1))
unfolding copy_col
copy_col_lem m1 c1 mt ct m view bytes same h k apart =
    let (m', e, w) =
      for_range-Written (λ r. at mt r ct) (λ r m. m (at m1 r c1))
        (λ i m. get_el m1 i c1 m >>= λ v. set_el mt i ct v m) mt.n_row m bytes
        (λ i j a b. column_apart mt m view bytes ct i j k a)
        (λ i m' l away. away (at m1 i c1) (λ j a. apart j i (omega arith) l))
        (λ i m l b. (
          rw (get_el_lem m1 i c1 m (omega arith) (omega arith))
              (set_el_lem mt i ct _ m l (omega arith)),
          b _,
        )) in
    (m', rw ((==_iff m1.n_row mt.n_row).1 same) e, w)
