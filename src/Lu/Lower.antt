-- ===== src/Lu/Lower.antt =====
-- `l_invmult_inplace_p` of algebra/mv_generic.h: forward substitution.
use tv_rq.Prelude.{
  ℕ, ◌+◌, ◌≤◌, ◌<◌, ◌≡◌, ◌≢◌, refl, ap, ap₂, sym, subst, ◌∙◌, Option, some, arith, bit_xor,
}
use native.Mathlib.Decide.{dec_lt}
use tv_rq.Memory.{Mem, for_range}
use tv_rq.Memory.Sweep.{IsBytes}
use tv_rq.Memory.Loop.{for_range_keeps}
use tv_rq.Gf256.Poly.{◌⊗◌}
use tv_rq.M256v.{M256v}
use tv_rq.M256v.Access.{at, IsView, at_injective}
use tv_rq.Lu.{add_multiple, place, l_invmult_inplace_p}
use tv_rq.Lu.Sum.{sum_from, sum_from_ext}
use tv_rq.Lu.Combine.{Disjoint, el, combine_lem}

-- Rows of `x` for the indices below `n`, all different.
pub record Places (x : M256v) (pl : ℕ → ℕ) (n : ℕ) : Type 0 where
  pub inside : (i : ℕ) → i < n → pl i < x.n_row
  pub distinct : (i j : ℕ) → i < n → j < n → i ≢ j → pl i ≢ pl j

-- The address is that of no element of the first `k` rows of `x`.
abbrev pub OffPlaces : M256v → (ℕ → ℕ) → ℕ → ℕ → Type 0
OffPlaces x pl k a = (i c : ℕ) → i < k → c < x.n_col → a ≢ at x (pl i) c

-- The first `k` rows of `t` are those of `m` multiplied by the inverse of L.
pub record Lowered (lu x : M256v) (pl : ℕ → ℕ) (m : Mem) (k : ℕ) (t : Mem) : Type 0 where
  pub bytes : IsBytes t
  pub rows :
      (i c : ℕ)
      → i < k
      → c < x.n_col
      → el x t (pl i) c
        ≡ bit_xor (el x m (pl i) c) (sum_from 0 i (λ j. el lu m i j ⊗ el x t (pl j) c))
  pub off : (a : ℕ) → OffPlaces x pl k a → t a ≡ m a

module _ (lu x : M256v) (pl : ℕ → ℕ) (rank : ℕ) (view : IsView x) (apart : Disjoint lu x)
    (places : Places x pl rank) (rows : rank ≤ lu.n_row) (cols : rank ≤ lu.n_col) (m : Mem) where
  lower_step :
      (k : ℕ) (t : Mem)
      → k < rank
      → Lowered lu x pl m k t
      → (t' : Mem) × (for_range k 0 (add_multiple lu k x (pl k) pl) t ≡ some t')
        × Lowered lu x pl m (k + 1) t'
  lower_step k t h f =
      let (t', run, w) =
        combine_lem lu x view apart k (pl k) pl (omega arith) (places.inside k h) t f.bytes 0 k
          (omega arith)
          (λ j l u.
            (places.inside j (omega arith), places.distinct j k (omega arith) h (omega arith))) in
      let kept : (i c : ℕ) → i < k → c < x.n_col → el x t' (pl i) c ≡ el x t (pl i) c = λ i c l lc.
        w.off (at x (pl i) c) (λ c' lc' e.
          places.distinct i k (omega arith) h (omega arith)
            (at_injective x (pl i) c (pl k) c' view lc lc' e).0) in
      let same : (i j : ℕ) → i < lu.n_row → j < lu.n_col → t (at lu i j) ≡ m (at lu i j) =
        λ i j li lj.
          f.off (at lu i j)
            (λ i' c' l' lc'. apart i j (pl i') c' li lj (places.inside i' (omega arith)) lc') in
      (
        t',
        run,
        record {
          bytes = w.bytes;
          rows = λ i c l lc. elim (dec_lt i k) [
            | yes p ↦
                kept i c p lc
                ∙ f.rows i c p lc
                ∙ ap (bit_xor (el x m (pl i) c)) (
                    sum_from_ext 0 i _ _
                      (λ j lj uj. ap (λ v. el lu m i j ⊗ v) (sym (kept j c (omega arith) lc))))
            | no p ↦
                let here : k ≡ i = omega arith in
                subst
                  (λ i.
                    el x t' (pl i) c
                    ≡ bit_xor (el x m (pl i) c)
                        (sum_from 0 i (λ j. el lu m i j ⊗ el x t' (pl j) c)))
                  here
                  (w.here c lc
                    ∙ ap₂ bit_xor
                        (f.off (at x (pl k) c) (λ i' c' l' lc' e.
                          places.distinct i' k (omega arith) h (omega arith)
                            (sym (at_injective x (pl k) c (pl i') c' view lc lc' e).0)))
                        (sum_from_ext 0 k _ _ (λ j lj uj.
                          ap₂ (λ p q. p ⊗ q) (same k j (omega arith) (omega arith))
                            (sym (kept j c (omega arith) lc)))))
          ];
          off = λ a away.
              w.off a (λ c lc. away k c (omega arith) lc)
              ∙ f.off a (λ i c l lc. away i c (omega arith) lc);
        },
      )

  -- The loops of `L^(-1)` end with each row that which, added to the multiples of the rows before by
  -- the entries of L, is the row at the start.
  pub lower_lem :
      IsBytes m
      → (t : Mem) × (for_range rank 0 (λ i. for_range i 0 (add_multiple lu i x (pl i) pl)) m
          ≡ some t)
        × Lowered lu x pl m rank t
  lower_lem bytes =
      let (t, run, f) =
        for_range_keeps (Lowered lu x pl m) (λ i. for_range i 0 (add_multiple lu i x (pl i) pl))
          rank 0 m (λ k t l u f. lower_step k t (omega arith) f)
          (record {
            bytes = bytes;
            rows = λ i c l lc. absurd (omega arith);
            off = λ a away. refl;
          }) in
      (t, run, subst (λ k. Lowered lu x pl m k t) (omega arith) f)

-- `l_invmult_inplace_p` fails no assert, and leaves each row that which, added to the multiples of the
-- rows before by the entries of L, is the row at the start: it solves the system of L. The rows may be
-- placed anywhere in the matrix, which shares no cell with LU.
pub l_invmult_inplace_p_lem :
    (lu x : M256v) (placements : Option (ℕ → ℕ)) (rank : ℕ) (m : Mem)
    → IsView x
    → Disjoint lu x
    → Places x (place placements) rank
    → rank ≤ lu.n_row
    → rank ≤ lu.n_col
    → IsBytes m
    → (t : Mem) × (l_invmult_inplace_p lu rank x placements m ≡ some t)
      × Lowered lu x (place placements) m rank t
unfolding l_invmult_inplace_p
l_invmult_inplace_p_lem lu x placements rank m view apart places rows cols bytes =
    lower_lem lu x (place placements) rank view apart places rows cols m bytes
