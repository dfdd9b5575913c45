-- ===== src/Lu/Upper.antt =====
-- `u_invmult_inplace_p` of algebra/mv_generic.h: back substitution.
use tv_rq.Prelude.{
  ℕ, zero, suc, ◌+◌, ◌-◌, ◌≤◌, ◌<◌, ◌≡◌, ◌≢◌, refl, ap, ap₂, sym, subst, ◌∙◌, Option, some, arith,
  bit_xor, ◌>>=◌,
}
use mathlib.Core.Option.{some-injective}
use native.Mathlib.Decide.{dec_lt}
use tv_rq.Prelude.Bits.{xor-zero, xor_assoc, xor_self, xor-lt}
use tv_rq.Memory.{Mem, for_range}
use tv_rq.Memory.Sweep.{IsBytes}
use tv_rq.Gf256.{gf256_inv}
use tv_rq.Gf256.Poly.{◌⊗◌, ⊗-lt, one-⊗}
use tv_rq.Gf256.Field.{gf256_mul-inv, gf256_mul-eq-⊗, ⊗_comm, ⊗_assoc}
use tv_rq.M256v.{M256v, mult_row}
use tv_rq.M256v.Access.{at, IsView, at_injective, get_el_lem}
use tv_rq.M256v.Rows.{mult_row_lem}
use tv_rq.Lu.{add_multiple, place, u_invmult_row, u_invmult_rounds, u_invmult_inplace_p}
use tv_rq.Lu.Sum.{sum_from, sum_from-lt}
use tv_rq.Lu.Value.{row_from, row_from_first, row_from_ext}
use tv_rq.Lu.Combine.{Disjoint, el, combine_lem}
use tv_rq.Lu.Lower.{Places, OffPlaces}

-- The inverse of a nonzero byte is found.
pub inverse_lem :
    (v : ℕ) → v ≢ 0 → v < 256 → (w : ℕ) × (gf256_inv v ≡ some w) × (w < 256) × (v ⊗ w ≡ 1)
inverse_lem v ne h =
    let (w, found, small, one) = gf256_mul-inv v (omega arith) h in
    (w, found, small, some-injective _ _ (sym (gf256_mul-eq-⊗ v w h small) ∙ one))

-- u ((z + s) / u) + s = z.
undo :
    (u w z s : ℕ)
    → u < 256
    → w < 256
    → z < 256
    → s < 256
    → u ⊗ w ≡ 1
    → bit_xor (u ⊗ (bit_xor z s ⊗ w)) s ≡ z
undo u w z s hu hw hz hs unit =
    ap (λ t. bit_xor t s)
      (ap (λ t. u ⊗ t) (⊗_comm (bit_xor z s) w (xor-lt 8 z s hz hs) hw)
        ∙ sym (⊗_assoc u w (bit_xor z s) hu hw (xor-lt 8 z s hz hs))
        ∙ ap (λ t. t ⊗ bit_xor z s) unit
        ∙ one-⊗ (bit_xor z s))
    ∙ xor_assoc z s s
    ∙ ap (bit_xor z) (xor_self s)
    ∙ xor-zero z

-- The first `k` rows of `t` are such that U times `t` has there the rows of `m`.
pub record Raised (lu x : M256v) (pl : ℕ → ℕ) (m : Mem) (k : ℕ) (t : Mem) : Type 0 where
  pub bytes : IsBytes t
  pub rows :
      (i c : ℕ)
      → i < k
      → c < x.n_col
      → row_from lu.n_col (el lu m) (λ j. el x t (pl j) c) i i ≡ el x m (pl i) c
  pub off : (a : ℕ) → OffPlaces x pl k a → t a ≡ m a

module _ (lu x : M256v) (pl : ℕ → ℕ) (view : IsView x) (apart : Disjoint lu x)
    (places : Places x pl lu.n_col) where
  -- One row, with a nonzero entry on the diagonal.
  raise_row :
      (i : ℕ) (m : Mem)
      → i < lu.n_row
      → i < lu.n_col
      → IsBytes m
      → el lu m i i ≢ 0
      → (t : Mem) × (u_invmult_row lu x pl i m ≡ some t)
        × IsBytes t
        × ((c : ℕ)
            → c < x.n_col
            → bit_xor
                (el lu m i i ⊗ el x t (pl i) c)
                (row_from lu.n_col (el lu m) (λ j. el x m (pl j) c) i (i + 1))
              ≡ el x m (pl i) c)
        × ((a : ℕ) → ((c : ℕ) → c < x.n_col → a ≢ at x (pl i) c) → t a ≡ m a)
  unfolding u_invmult_row row_from
  raise_row i m h l bytes ne =
      let (m1, e1, w1) =
        combine_lem lu x view apart i (pl i) pl h (places.inside i l) m bytes (i + 1)
          (lu.n_col - (i + 1)) (omega arith)
          (λ j lj uj.
            (places.inside j (omega arith), places.distinct j i (omega arith) l (omega arith))) in
      let (w, found, small, unit) = inverse_lem (el lu m i i) ne (bytes _) in
      let same : m1 (at lu i i) ≡ el lu m i i =
        w1.off (at lu i i) (λ c lc. apart i i (pl i) c h l (places.inside i l) lc) in
      let (t, e2, w2) = mult_row_lem x (pl i) m1 view (places.inside i l) w1.bytes w small in
      (
        t,
        rows_run m1 e1 w same found t e2,
        w2.bytes,
        λ c lc.
            ap
              (λ v.
                bit_xor (el lu m i i ⊗ v)
                  (sum_from (i + 1) (lu.n_col - (i + 1)) (λ j. el lu m i j ⊗ el x m (pl j) c)))
              (w2.here c lc ∙ ap (λ v. v ⊗ w) (w1.here c lc))
            ∙ undo (el lu m i i) w (el x m (pl i) c) _ (bytes _) small (bytes _)
                (sum_from-lt (i + 1) (lu.n_col - (i + 1)) _ (λ j. ⊗-lt (el lu m i j) _ (bytes _)))
                unit,
        λ a away. w2.off a away ∙ w1.off a away,
      )
    where
      rows_run :
          (m1 : Mem)
          → for_range (lu.n_col - (i + 1)) (i + 1) (add_multiple lu i x (pl i) pl) m ≡ some m1
          → (w : ℕ) → m1 (at lu i i) ≡ el lu m i i
          → gf256_inv (el lu m i i) ≡ some w
          → (t : Mem) → mult_row x (pl i) w m1 ≡ some t
          → u_invmult_row lu x pl i m ≡ some t
      rows_run m1 e1 w same found t e2 =
          rw e1 (rw (get_el_lem lu i i m1 h (omega arith), same, found) e2)

  raise_lem :
      (n : ℕ) (m : Mem)
      → n ≤ lu.n_row
      → n ≤ lu.n_col
      → IsBytes m
      → ((i : ℕ) → i < n → el lu m i i ≢ 0)
      → (t : Mem) × (u_invmult_rounds n lu x pl m ≡ some t) × Raised lu x pl m n t
  unfolding u_invmult_rounds
  raise_lem zero m h l bytes ne = (
    m,
    refl,
    record { bytes = bytes; rows = λ i c p. absurd (omega arith); off = λ a away. refl },
  )
  raise_lem (suc n) m h l bytes ne =
      let (m1, e1, b1, solved, off1) =
        raise_row n m (omega arith) (omega arith) bytes (ne n (omega arith)) in
      let lu_same : (r c : ℕ) → r < lu.n_row → c < lu.n_col → el lu m1 r c ≡ el lu m r c =
        λ r c lr lc.
          off1 (at lu r c)
            (λ c' lc'. apart r c (pl n) c' lr lc (places.inside n (omega arith)) lc') in
      let (t, e2, f) =
        raise_lem n m1 (omega arith) (omega arith) b1
          (λ i p z. ne i (omega arith) (sym (lu_same i i (omega arith) (omega arith)) ∙ z)) in
      let later : (j c : ℕ)
          → n ≤ j
          → j < lu.n_col
          → c < x.n_col
          → el x t (pl j) c ≡ el x m1 (pl j) c =
        λ j c p lj lc. f.off (at x (pl j) c) (λ i' c' l' lc' e.
          places.distinct j i' lj (omega arith) (omega arith)
            (at_injective x (pl j) c (pl i') c' view lc lc' e).0) in
      let others : (j c : ℕ)
          → j ≢ n
          → j < lu.n_col
          → c < x.n_col
          → el x m1 (pl j) c ≡ el x m (pl j) c =
        λ j c p lj lc. off1 (at x (pl j) c) (λ c' lc' e.
          places.distinct j n lj (omega arith) p
            (at_injective x (pl j) c (pl n) c' view lc lc' e).0) in
      (
        t,
        ap (λ o. o >>= u_invmult_rounds n lu x pl) e1 ∙ e2,
        record {
          bytes = f.bytes;
          rows = λ i c p lc. elim (dec_lt i n) [
            | yes q ↦
                row_from_ext lu.n_col (el lu m) (el lu m1) (λ j. el x t (pl j) c)
                  (λ j. el x t (pl j) c) i i i
                  (λ k lk uk. (sym (lu_same i k (omega arith) uk), refl))
                ∙ f.rows i c q lc
                ∙ others i c (omega arith) (omega arith) lc
            | no q ↦
                let here : n ≡ i = omega arith in
                subst
                  (λ i. row_from lu.n_col (el lu m) (λ j. el x t (pl j) c) i i ≡ el x m (pl i) c)
                  here
                  (row_from_first lu.n_col (el lu m) (λ j. el x t (pl j) c) n n (omega arith)
                    ∙ ap₂ bit_xor
                        (ap (λ v. el lu m n n ⊗ v) (later n c (omega arith) (omega arith) lc))
                        (row_from_ext lu.n_col (el lu m) (el lu m) (λ j. el x t (pl j) c)
                          (λ j. el x m (pl j) c) n n (n + 1)
                          (λ k lk uk.
                            (refl, later k c (omega arith) uk lc ∙ others k c (omega arith) uk lc)))
                    ∙ solved c lc)
          ];
          off = λ a away.
              f.off a (λ i c p lc. away i c (omega arith) lc)
              ∙ off1 a (λ c lc. away n c (omega arith) lc);
        },
      )

-- `u_invmult_inplace_p` fails no assert where the diagonal has no zero, and leaves rows whose multiples
-- by the entries of U add up to the rows at the start: it solves the system of U.
pub u_invmult_inplace_p_lem :
    (lu x : M256v) (placements : Option (ℕ → ℕ)) (rank : ℕ) (m : Mem)
    → IsView x
    → Disjoint lu x
    → Places x (place placements) lu.n_col
    → rank ≤ lu.n_row
    → rank ≤ lu.n_col
    → IsBytes m
    → ((i : ℕ) → i < rank → el lu m i i ≢ 0)
    → (t : Mem) × (u_invmult_inplace_p lu rank x placements m ≡ some t)
      × Raised lu x (place placements) m rank t
unfolding u_invmult_inplace_p
u_invmult_inplace_p_lem lu x placements rank m view apart places rows cols bytes ne =
    raise_lem lu x (place placements) view apart places rank m rows cols bytes ne
