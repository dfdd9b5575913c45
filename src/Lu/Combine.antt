-- ===== src/Lu/Combine.antt =====
-- The loops of algebra/mv_generic.h that add multiples of rows to a row.
use tv_rq.Prelude.{
  ℕ, ◌+◌, ◌-◌, ◌≤◌, ◌<◌, ◌≡◌, ◌≢◌, refl, ap, ap₂, sym, subst, ◌∙◌, some, arith, bit_xor,
}
use tv_rq.Prelude.Bits.{xor-zero, xor_assoc}
use tv_rq.Memory.{Mem, for_range}
use tv_rq.Memory.Sweep.{IsBytes}
use tv_rq.Memory.Loop.{for_range_keeps}
use tv_rq.Gf256.Poly.{◌⊗◌}
use tv_rq.M256v.{M256v}
use tv_rq.M256v.Access.{at, IsView, at_injective, get_el_lem}
use tv_rq.M256v.Rows.{Written, RowsApart}
use tv_rq.M256v.Add.{multadd_row_alpha_lem}
use tv_rq.Lu.{add_multiple}
use tv_rq.Lu.Sum.{sum_from, sum_from_last, sum_from_one}

sub_self : (n : ℕ) → n - n ≡ 0
sub_self n = omega arith

next_count : (lo k : ℕ) → lo ≤ k → k + 1 - lo ≡ k - lo + 1
next_count lo k h = omega arith

last_index : (lo k : ℕ) → lo ≤ k → lo + (k - lo) ≡ k
last_index lo k h = omega arith

all_count : (lo n : ℕ) → lo + n - lo ≡ n
all_count lo n = omega arith

-- Two matrices that share no cell.
abbrev pub Disjoint : M256v → M256v → Type 0
Disjoint a b =
    (r c r' c' : ℕ)
    → r < a.n_row
    → c < a.n_col
    → r' < b.n_row
    → c' < b.n_col
    → at a r c ≢ at b r' c'

-- The element in a row and a column.
abbrev pub el : M256v → Mem → ℕ → ℕ → ℕ
el mat m r c = m (at mat r c)

pub rows_apart : (x : M256v) (r r' : ℕ) → IsView x → r ≢ r' → RowsApart x r x r'
rows_apart x r r' view ne j k h l e = ne (at_injective x r k r' j view l h e).0

module _ (lu x : M256v) (view : IsView x) (apart : Disjoint lu x) (i dst : ℕ) (src : ℕ → ℕ)
    (row : i < lu.n_row) (target : dst < x.n_row) (m : Mem) (bytes : IsBytes m) where
  -- What the rows from `lo` on come to in a column.
  abbrev pub combination : ℕ → ℕ → ℕ → ℕ
  combination lo n c = sum_from lo n (λ j. el lu m i j ⊗ el x m (src j) c)

  start : (lo c : ℕ) → m (at x dst c) ≡ bit_xor (m (at x dst c)) (combination lo (lo - lo) c)
  unfolding sum_from
  start lo c = sym (
      ap (λ n. bit_xor (m (at x dst c)) (combination lo n c)) (sub_self lo)
      ∙ xor-zero (m (at x dst c)))

  abbrev After : ℕ → ℕ → Mem → Type 0
  After lo k t =
      Written m t x.n_col (at x dst) (λ c. bit_xor (m (at x dst c)) (combination lo (k - lo) c))

  next :
      (lo k : ℕ) (t : Mem)
      → lo ≤ k
      → k < lu.n_col
      → src k < x.n_row
      → src k ≢ dst
      → After lo k t
      → (t' : Mem) × (add_multiple lu i x dst src k t ≡ some t') × After lo (k + 1) t'
  unfolding add_multiple
  next lo k t l h fits ne w =
      let alpha : t (at lu i k) ≡ el lu m i k =
        w.off (at lu i k) (λ c lc. apart i k dst c row h target lc) in
      let (t', e, w') =
        multadd_row_alpha_lem x (src k) (t (at lu i k)) x dst t refl fits target (w.bytes _) w.bytes
          (rows_apart x (src k) dst view ne) in
      (
        t',
        rw (get_el_lem lu i k t row (omega arith)) e,
        record {
          bytes = w'.bytes;
          here = λ c lc.
              w'.here c lc
              ∙ ap₂ bit_xor (w.here c lc) (
                  ap₂ (λ p q. p ⊗ q) alpha
                    (w.off (at x (src k) c)
                      (λ c' lc' e. ne (at_injective x (src k) c dst c' view lc lc' e).0)))
              ∙ xor_assoc (m (at x dst c)) (combination lo (k - lo) c)
                  (el lu m i k ⊗ el x m (src k) c)
              ∙ ap (bit_xor (m (at x dst c))) (grow c);
          off = λ a away. w'.off a away ∙ w.off a away;
        },
      )
    where
      grow :
          (c : ℕ)
          → bit_xor (combination lo (k - lo) c) (el lu m i k ⊗ el x m (src k) c)
            ≡ combination lo (k + 1 - lo) c
      grow c = sym (
          ap (λ n. combination lo n c) (next_count lo k l)
          ∙ sum_from_last lo (k - lo) (λ j. el lu m i j ⊗ el x m (src j) c)
          ∙ ap (λ j. bit_xor (combination lo (k - lo) c) (el lu m i j ⊗ el x m (src j) c))
              (last_index lo k l))

  -- One of the multiples.
  pub add_multiple_lem :
      (k : ℕ)
      → k < lu.n_col
      → src k < x.n_row
      → src k ≢ dst
      → (m' : Mem) × (add_multiple lu i x dst src k m ≡ some m')
        × Written m m' x.n_col
            (at x dst)
            (λ c. bit_xor (m (at x dst c)) (el lu m i k ⊗ el x m (src k) c))
  add_multiple_lem k h fits ne =
      let (m', e, w) =
        next k k m (omega arith) h fits ne
          (record { bytes = bytes; here = λ c l. start k c; off = λ a away. refl }) in
      (
        m',
        e,
        record {
          bytes = w.bytes;
          here = λ c l.
              w.here c l
              ∙ ap (bit_xor (m (at x dst c))) (
                  ap (λ n. combination k n c) (one_more k)
                  ∙ sum_from_one k (λ j. el lu m i j ⊗ el x m (src j) c));
          off = w.off;
        },
      )
    where
      one_more : (k : ℕ) → k + 1 - k ≡ 1
      one_more k = omega arith

  -- The loop over the columns from `lo` on adds to the row the multiples of the other rows.
  pub combine_lem :
      (lo n : ℕ)
      → lo + n ≤ lu.n_col
      → ((j : ℕ) → lo ≤ j → j < lo + n → (src j < x.n_row) × (src j ≢ dst))
      → (m' : Mem) × (for_range n lo (add_multiple lu i x dst src) m ≡ some m')
        × Written m m' x.n_col (at x dst) (λ c. bit_xor (m (at x dst c)) (combination lo n c))
  combine_lem lo n h rows =
      let (m', run, w) =
        for_range_keeps (After lo) (add_multiple lu i x dst src) n lo m
          (λ k t l u w. next lo k t l (omega arith) (rows k l u).0 (rows k l u).1 w)
          (record { bytes = bytes; here = λ c l. start lo c; off = λ a away. refl }) in
      (
        m',
        run,
        subst
            (λ k.
              Written m m' x.n_col (at x dst) (λ c. bit_xor (m (at x dst c)) (combination lo k c)))
            (all_count lo n) w,
      )
