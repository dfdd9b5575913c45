-- ===== src/M256v/Rows.antt =====
-- What the row operations of algebra/m256v.c do to each cell of the memory.
use tv_rq.Prelude.{
  ap₂, ==_iff, ℕ, ◌+◌, ◌-◌, ◌*◌, ◌≤◌, ◌<◌, ◌≡◌, ◌≢◌, refl, sym, ap, some, Option, ◌==◌, ==_zero,
  ◌>>=◌, arith, if◌then◌else◌, bit_xor,
}
use tv_rq.Memory.{Mem, write, for_range}
use tv_rq.Memory.Sweep.{IsBytes, sweep, sweep_at, sweep_other, sweep-IsBytes, for_range-sweep}
use tv_rq.M256v.{
  M256v, get_el, set_el, clear_row, mult_row, add_byte, multadd_byte, multadd_row_from, copy_row,
}
use tv_rq.M256v.Cells.{scale_cell, round_lem}
use tv_rq.M256v.Access.{at, IsView, get_el_offs_lem, get_el_lem, set_el_lem}
use tv_rq.Gf256.Poly.{◌⊗◌, ⊗-zero, zero-⊗, ⊗-lt}
use tv_rq.Gf256.Field.{gf256_log_byte}
use tv_rq.Prelude.Bits.{xor-zero, xor-lt}
use tv_rq.Gf256.{gf256_log}
use native.Mathlib.Decide.{dec_lt}

-- `m'` is `m` with the `n` cells at `addr` holding `val`, and is a memory of bytes.
pub record Written (m m' : Mem) (n : ℕ) (addr val : ℕ → ℕ) : Type 0 where
  pub bytes : IsBytes m'
  pub here : (k : ℕ) → k < n → m' (addr k) ≡ val k
  pub off : (x : ℕ) → ((k : ℕ) → k < n → x ≢ addr k) → m' x ≡ m x

-- A loop over the cells of a row or a column.
pub for_range-Written :
    (addr : ℕ → ℕ) (val : ℕ → Mem → ℕ) (body : ℕ → Mem → Option Mem) (n : ℕ) (m : Mem)
    → IsBytes m
    → ((j k : ℕ) → j < k → k < n → addr j ≢ addr k)
    → ((k : ℕ) (m' : Mem)
        → k < n
        → ((x : ℕ) → ((j : ℕ) → j < k → x ≢ addr j) → m' x ≡ m x)
        → val k m' ≡ val k m)
    → ((k : ℕ) (m : Mem)
        → k < n
        → IsBytes m
        → (body k m ≡ some (write m (addr k) (val k m))) × (val k m < 256))
    → (m' : Mem) × (for_range n 0 body m ≡ some m') × Written m m' n addr (λ k. val k m)
for_range-Written addr val body n m bytes apart local step = (
  sweep addr val n m,
  for_range-sweep addr val body n m bytes step,
  record {
    bytes = sweep-IsBytes addr val n m (λ k m' h b. (step k m' h b).1) bytes;
    here = sweep_at addr val n m apart local;
    off = λ x away. sweep_other addr val n m x away;
  },
)

module _ (mat : M256v) (r : ℕ) (m : Mem) (view : IsView mat) (in_range : r < mat.n_row)
    (bytes : IsBytes m) where
  row_apart : (j k : ℕ) → j < k → k < mat.n_col → at mat r j ≢ at mat r k
  row_apart j k h l e = omega arith

  -- `clear_row` sets the row to zero and changes nothing else.
  pub clear_row_lem :
      (m' : Mem) × (clear_row mat r m ≡ some m') × Written m m' mat.n_col (at mat r) (λ c. 0)
  unfolding clear_row
  clear_row_lem =
      for_range-Written (at mat r) (λ c m. 0) _ mat.n_col m bytes row_apart (λ k m' h away. refl)
        (λ k m h b. (set_el_lem mat r k 0 m in_range (omega arith), omega arith))

  away_ok :
      (k : ℕ) (m' : Mem)
      → k < mat.n_col
      → ((x : ℕ) → ((j : ℕ) → j < k → x ≢ at mat r j) → m' x ≡ m x)
      → m' (at mat r k) ≡ m (at mat r k)
  away_ok k m' h away = away (at mat r k) (λ j l e. row_apart j k l h (sym e))

  mult_row_zero : mult_row mat r 0 m ≡ clear_row mat r m
  unfolding mult_row
  mult_row_zero = refl

  -- `mult_row` multiplies the row by `alpha`, which may be zero, and changes nothing else.
  pub mult_row_lem :
      (alpha : ℕ)
      → alpha < 256
      → (m' : Mem) × (mult_row mat r alpha m ≡ some m')
        × Written m m' mat.n_col (at mat r) (λ c. m (at mat r c) ⊗ alpha)
  unfolding mult_row
  mult_row_lem alpha h = elim (dec_lt 0 alpha) [
    | yes p ↦
        let (m', e, w) =
          for_range-Written (at mat r) (λ c m. m (at mat r c) ⊗ alpha) _ mat.n_col m bytes row_apart
            (λ k m' l away. ap (λ t. t ⊗ alpha) (away_ok k m' l away))
            (λ k m l b. (scale_cell mat r k alpha m in_range l p h b, ⊗-lt _ alpha h)) in
        (m', rw (==_zero alpha p, gf256_log_byte alpha p h) e, w)
    | no p ↦
        let zero_alpha : alpha ≡ 0 = omega arith in
        let (m', e, w) = clear_row_lem in
        (
          m',
          rw zero_alpha e,
          record {
            bytes = w.bytes;
            here = λ k l. rw (zero_alpha, ⊗-zero (m (at mat r k))) (w.here k l);
            off = w.off;
          },
        )
  ]

-- Two rows, of one matrix or of two, that share no cell.
abbrev pub RowsApart : M256v → ℕ → M256v → ℕ → Type 0
RowsApart m1 r1 mt rt = (j k : ℕ) → j < mt.n_col → k < mt.n_col → at m1 r1 k ≢ at mt rt j

module _ (m1 : M256v) (r1 : ℕ) (mt : M256v) (rt : ℕ) (m : Mem) (same_cols : m1.n_col ≡ mt.n_col)
    (in1 : r1 < m1.n_row) (int : rt < mt.n_row) (bytes : IsBytes m)
    (apart : RowsApart m1 r1 mt rt) where
  -- `copy_row` makes the target row equal to the source row, and changes nothing else.
  pub copy_row_lem :
      (m' : Mem) × (copy_row m1 r1 mt rt m ≡ some m')
      × Written m m' mt.n_col (at mt rt) (λ c. m (at m1 r1 c))
  unfolding copy_row
  copy_row_lem =
      let (m', e, w) =
        for_range-Written (at mt rt) (λ c m. m (at m1 r1 c))
          (λ i m. get_el m1 r1 i m >>= λ v. set_el mt rt i v m) mt.n_col m bytes
          (λ j k a b e. omega arith)
          (λ k m' l away. away (at m1 r1 k) (λ j a. apart j k (omega arith) l))
          (λ k m l b. (
            rw (get_el_lem m1 r1 k m in1 (omega arith)) (set_el_lem mt rt k _ m int (omega arith)),
            b _,
          )) in
      (m', rw ((==_iff m1.n_col mt.n_col).1 same_cols) e, w)

  -- The loop over the bytes from column `offs` on.
  multadd_loop :
      (offs alpha : ℕ)
      → offs ≤ mt.n_col
      → alpha < 256
      → 0 < alpha
      → (m' : Mem) × (for_range
            (mt.n_col - offs)
            0
            (λ i.
              if alpha == 1
              then add_byte
                  (m1.e + (r1 * m1.rstride + offs) + i)
                  (mt.e + (rt * mt.rstride + offs) + i)
              else multadd_byte
                  (gf256_log alpha)
                  (m1.e + (r1 * m1.rstride + offs) + i)
                  (mt.e + (rt * mt.rstride + offs) + i))
            m
          ≡ some m')
        × Written m m'
            (mt.n_col - offs)
            (λ k. at mt rt (offs + k))
            (λ k. bit_xor (m (at mt rt (offs + k))) (alpha ⊗ m (at m1 r1 (offs + k))))
  multadd_loop offs alpha h small p =
      for_range-Written (λ k. at mt rt (offs + k))
        (λ k m. bit_xor (m (at mt rt (offs + k))) (alpha ⊗ m (at m1 r1 (offs + k)))) _
        (mt.n_col - offs) m bytes (λ j k a b e. omega arith)
        (λ k m' l away.
          ap₂ (λ a b. bit_xor a (alpha ⊗ b)) (away (at mt rt (offs + k)) (λ j a e. omega arith))
            (away (at m1 r1 (offs + k))
              (λ j a. apart (offs + j) (offs + k) (omega arith) (omega arith))))
        (λ k m l b. (
          rw (source k, target k) (round_lem alpha _ _ m small p b),
          xor-lt 8 _ _ (b _) (⊗-lt alpha _ (b _)),
        ))
    where
      source : (k : ℕ) → at m1 r1 (offs + k) ≡ m1.e + (r1 * m1.rstride + offs) + k
      source k = omega arith

      target : (k : ℕ) → at mt rt (offs + k) ≡ mt.e + (rt * mt.rstride + offs) + k
      target k = omega arith

  -- `multadd_row_from` adds to the target row, from column `offs` on, `alpha` times the source row,
  -- on the three paths of the code (`alpha` zero, one or other), and changes nothing else.
  pub multadd_row_from_lem :
      (offs alpha : ℕ)
      → offs ≤ mt.n_col
      → alpha < 256
      → (m' : Mem) × (multadd_row_from m1 r1 offs alpha mt rt m ≡ some m')
        × Written m m'
            (mt.n_col - offs)
            (λ k. at mt rt (offs + k))
            (λ k. bit_xor (m (at mt rt (offs + k))) (alpha ⊗ m (at m1 r1 (offs + k))))
  unfolding multadd_row_from
  multadd_row_from_lem offs alpha h small = elim (dec_lt 0 alpha) [
    | yes p ↦
        let (m', e, w) = multadd_loop offs alpha h small p in
        (
          m',
          rw
              (
                (==_iff m1.n_col mt.n_col).1 same_cols,
                ==_zero alpha p,
                get_el_offs_lem m1 r1 offs in1 (omega arith),
                get_el_offs_lem mt rt offs int h,
                get_el_offs_lem m1 r1 m1.n_col in1 (omega arith),
                rounds,
              )
              e,
          w,
        )
    | no p ↦
        let zero_alpha : alpha ≡ 0 = omega arith in
        (
          m,
          rw ((==_iff m1.n_col mt.n_col).1 same_cols, zero_alpha),
          record {
            bytes = bytes;
            here = λ k l. rw (zero_alpha, zero-⊗) (sym (xor-zero _));
            off = λ x away. refl;
          },
        )
  ]
    where
      rounds : r1 * m1.rstride + m1.n_col - (r1 * m1.rstride + offs) ≡ mt.n_col - offs
      rounds = omega arith
