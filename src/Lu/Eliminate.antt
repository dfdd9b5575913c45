-- ===== src/Lu/Eliminate.antt =====
-- One round of the elimination in `LU_decomp_inplace` of algebra/mv_generic.h.
use tv_rq.Prelude.{
  ℕ, ◌+◌, ◌-◌, ◌≤◌, ◌<◌, ◌≡◌, ◌≢◌, ◌⊎◌, inl, inr, refl, ap₂, subst, ◌∙◌, some, arith, bit_xor,
}
use native.Mathlib.Decide.{dec_lt}
use tv_rq.Memory.{Mem, for_range}
use tv_rq.Memory.Sweep.{IsBytes}
use tv_rq.Memory.Loop.{for_range_keeps}
use tv_rq.Gf256.{gf256_inv}
use tv_rq.Gf256.Poly.{◌⊗◌}
use tv_rq.Gf256.Field.{⊗_comm}
use tv_rq.M256v.{M256v, mult_col_from}
use tv_rq.M256v.Access.{at, IsView, at_injective, get_el_lem}
use tv_rq.M256v.Rows.{multadd_row_from_lem}
use tv_rq.M256v.Cols.{mult_col_from_lem}
use tv_rq.Lu.{update_row, eliminate}
use tv_rq.Lu.Value.{Round}
use tv_rq.Lu.Combine.{el, rows_apart}
use tv_rq.Lu.Upper.{inverse_lem}

-- The address is that of no element of the matrix.
abbrev pub OffMatrix : M256v → ℕ → Type 0
OffMatrix mat a = (r c : ℕ) → r < mat.n_row → c < mat.n_col → a ≢ at mat r c

module _ (mat : M256v) (view : IsView mat) (i : ℕ) (row : i < mat.n_row) (col : i < mat.n_col) where
  -- The column of L.
  column_lem :
      (iv : ℕ) (m : Mem)
      → IsBytes m
      → iv < 256
      → (m' : Mem) × (mult_col_from mat i (i + 1) iv m ≡ some m')
        × IsBytes m'
        × ((r : ℕ) → i < r → r < mat.n_row → el mat m' r i ≡ el mat m r i ⊗ iv)
        × ((a : ℕ) → ((r : ℕ) → i < r → r < mat.n_row → a ≢ at mat r i) → m' a ≡ m a)
  column_lem iv m bytes small =
      let (m', run, w) = mult_col_from_lem mat m view bytes i (i + 1) iv col small in
      (
        m',
        run,
        w.bytes,
        λ r h l.
            subst (λ k. el mat m' k i ≡ el mat m k i ⊗ iv) (whole r h)
              (w.here (r - (i + 1)) (omega arith)),
        λ a away. w.off a (λ k l e. away (i + 1 + k) (omega arith) (omega arith) e),
      )
    where
      whole : (r : ℕ) → i < r → i + 1 + (r - (i + 1)) ≡ r
      whole r h = omega arith

  -- One row below the pivot.
  update_row_lem :
      (j : ℕ) (m : Mem)
      → i < j
      → j < mat.n_row
      → IsBytes m
      → (m' : Mem) × (update_row mat i j m ≡ some m')
        × IsBytes m'
        × ((c : ℕ)
            → i < c
            → c < mat.n_col
            → el mat m' j c ≡ bit_xor (el mat m j c) (el mat m j i ⊗ el mat m i c))
        × ((a : ℕ) → ((c : ℕ) → i < c → c < mat.n_col → a ≢ at mat j c) → m' a ≡ m a)
  unfolding update_row
  update_row_lem j m h l bytes =
      let (m', run, w) =
        multadd_row_from_lem mat i mat j m refl row l bytes
          (rows_apart mat i j view (λ e. absurd (omega arith))) (i + 1) (el mat m j i) (omega arith)
          (bytes _) in
      (
        m',
        rw (get_el_lem mat j i m l (omega arith)) run,
        w.bytes,
        λ c p q.
            subst (λ k. el mat m' j k ≡ bit_xor (el mat m j k) (el mat m j i ⊗ el mat m i k))
              (whole c p) (w.here (c - (i + 1)) (omega arith)),
        λ a away. w.off a (λ k q e. away (i + 1 + k) (omega arith) (omega arith) e),
      )
    where
      whole : (c : ℕ) → i < c → i + 1 + (c - (i + 1)) ≡ c
      whole c h = omega arith

  -- The rows below the pivot, up to the `k`-th, are updated.
  record Updated (m : Mem) (k : ℕ) (t : Mem) : Type 0 where
    bytes : IsBytes t
    rows :
        (r c : ℕ)
        → i < r
        → r < k
        → r < mat.n_row
        → i < c
        → c < mat.n_col
        → el mat t r c ≡ bit_xor (el mat m r c) (el mat m r i ⊗ el mat m i c)
    off :
        (a : ℕ)
        → ((r c : ℕ) → i < r → r < k → r < mat.n_row → i < c → c < mat.n_col → a ≢ at mat r c)
        → t a ≡ m a

  update_step :
      (m : Mem) (k : ℕ) (t : Mem)
      → i < k
      → k < mat.n_row
      → Updated m k t
      → (t' : Mem) × (update_row mat i k t ≡ some t') × Updated m (k + 1) t'
  update_step m k t h l f =
      let (t', run, bytes, here, off) = update_row_lem k t h l f.bytes in
      let before : (r c : ℕ)
          → c < mat.n_col
          → (k ≤ r) ⊎ ((r ≤ i) ⊎ (c ≤ i))
          → el mat t r c ≡ el mat m r c =
        λ r c lc out. f.off (at mat r c) (λ r' c' p q s u v e.
          outside r c r' c' out p q u (at_injective mat r c r' c' view lc v e)) in
      (
        t',
        run,
        record {
          bytes = bytes;
          rows = λ r c p q s u v. elim (dec_lt r k) [
            | yes y ↦
                off (at mat r c)
                  (λ c' u' v' e. absurd (omega (arith, (at_injective mat r c k c' view v v' e).0)))
                ∙ f.rows r c p y s u v
            | no y ↦
                let same : k ≡ r = omega arith in
                subst (λ r. el mat t' r c ≡ bit_xor (el mat m r c) (el mat m r i ⊗ el mat m i c))
                  same
                  (here c u v
                    ∙ ap₂ bit_xor (before k c v (inl (omega arith))) (
                        ap₂ (λ p q. p ⊗ q) (before k i col (inl (omega arith)))
                          (before i c v (inr (inl (omega arith))))))
          ];
          off = λ a away.
              off a (λ c u v. away k c h (omega arith) l u v)
              ∙ f.off a (λ r c p q s u v. away r c p (omega arith) s u v);
        },
      )
    where
      outside :
          (r c r' c' : ℕ)
          → (k ≤ r) ⊎ ((r ≤ i) ⊎ (c ≤ i))
          → i < r'
          → r' < k
          → i < c'
          → (r ≡ r') × (c ≡ c')
          → ⊥
      outside r c r' c' (inl x) p q u e = omega (arith, e.0)
      outside r c r' c' (inr (inl x)) p q u e = omega (arith, e.0)
      outside r c r' c' (inr (inr x)) p q u e = omega (arith, e.1)

  update_lem :
      (m : Mem)
      → IsBytes m
      → (t : Mem) × (for_range (mat.n_row - (i + 1)) (i + 1) (update_row mat i) m ≡ some t)
        × Updated m mat.n_row t
  update_lem m bytes =
      let (t, run, f) =
        for_range_keeps (Updated m) (update_row mat i) (mat.n_row - (i + 1)) (i + 1) m
          (λ k t p q f. update_step m k t (omega arith) (omega arith) f)
          (record {
            bytes = bytes;
            rows = λ r c p q. absurd (omega arith);
            off = λ a away. refl;
          }) in
      (t, run, subst (λ k. Updated m k t) (omega arith) f)

  run :
      (iv : ℕ) (m : Mem)
      → gf256_inv (el mat m i i) ≡ some iv
      → (m1 : Mem) → mult_col_from mat i (i + 1) iv m ≡ some m1
      → (m2 : Mem) → for_range (mat.n_row - (i + 1)) (i + 1) (update_row mat i) m1 ≡ some m2
      → eliminate mat i m ≡ some m2
  unfolding eliminate
  run iv m found m1 e1 m2 e2 = rw (get_el_lem mat i i m row (omega arith), found) (rw e1 e2)

  -- A round of the elimination, where the pivot is not zero.
  pub eliminate_lem :
      (m : Mem)
      → IsBytes m
      → el mat m i i ≢ 0
      → (m' : Mem) × (eliminate mat i m ≡ some m')
        × IsBytes m'
        × (iv : ℕ) × (iv < 256)
        × (iv ⊗ el mat m i i ≡ 1)
        × Round mat.n_col mat.n_row i iv (el mat m) (el mat m')
        × ((a : ℕ) → OffMatrix mat a → m' a ≡ m a)
  eliminate_lem m bytes ne =
      let (iv, found, small, unit) = inverse_lem (el mat m i i) ne (bytes _) in
      let (m1, e1, b1, col1, off1) = column_lem iv m bytes small in
      let (m2, e2, f) = update_lem m1 b1 in
      let kept1 : (r c : ℕ) → c < mat.n_col → (r ≤ i) ⊎ (c ≢ i) → el mat m1 r c ≡ el mat m r c =
        λ r c lc out.
          off1 (at mat r c)
            (λ r' p q e. first r c r' out p (at_injective mat r c r' i view lc col e)) in
      let kept2 : (r c : ℕ) → c < mat.n_col → (r ≤ i) ⊎ (c ≤ i) → el mat m2 r c ≡ el mat m1 r c =
        λ r c lc out. f.off (at mat r c) (λ r' c' p q s u v e.
          second r c r' c' out p u (at_injective mat r c r' c' view lc v e)) in
      (
        m2,
        run iv m found m1 e1 m2 e2,
        f.bytes,
        iv,
        small,
        ⊗_comm iv (el mat m i i) small (bytes _) ∙ unit,
        record {
          above = λ r c h l. kept2 r c l (inl h) ∙ kept1 r c l (inl h);
          left = λ r c p q u.
              kept2 r c (omega arith) (inr (omega arith))
              ∙ kept1 r c (omega arith) (inr (λ e. absurd (omega arith)));
          column = λ r p q. kept2 r i col (inr (omega arith)) ∙ col1 r p q;
          rest = λ r c p q u v.
              f.rows r c p q q u v
              ∙ ap₂ bit_xor (kept1 r c v (inr (λ e. absurd (omega arith))))
                  (ap₂ (λ p q. p ⊗ q) (col1 r p q) (kept1 i c v (inl (omega arith))));
        },
        λ a away. f.off a (λ r c p q s u v. away r c s v) ∙ off1 a (λ r p q. away r i q col),
      )
    where
      first : (r c r' : ℕ) → (r ≤ i) ⊎ (c ≢ i) → i < r' → (r ≡ r') × (c ≡ i) → ⊥
      first r c r' (inl x) p e = omega (arith, e.0)
      first r c r' (inr x) p e = x e.1

      second : (r c r' c' : ℕ) → (r ≤ i) ⊎ (c ≤ i) → i < r' → i < c' → (r ≡ r') × (c ≡ c') → ⊥
      second r c r' c' (inl x) p u e = omega (arith, e.0)
      second r c r' c' (inr x) p u e = omega (arith, e.1)
