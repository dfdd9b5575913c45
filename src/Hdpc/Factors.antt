-- ===== src/Hdpc/Factors.antt =====
-- The two factors that `hdpc_generate_mat_specexact` of tvrq/hdpc.c writes.
use tv_rq.Prelude.{
  ℕ, suc, ◌+◌, ◌-◌, ◌<◌, ◌≤◌, ◌≡◌, ◌≢◌, refl, ap, ap₂, sym, subst, ◌∙◌, true, false, ◌||◌, ◌&&◌,
  some, arith, ◌==◌, ltb, leb, if◌then◌else◌,
}
use native.Mathlib.Decide.{ℕ_discrete}
use tv_rq.Memory.{Mem, write, for_range}
use tv_rq.Memory.Sweep.{write_same, write_other, write-IsBytes}
use tv_rq.Memory.Loop.{for_range_keeps, for_range_start}
use tv_rq.Gf256.Poly.{◌⊗◌}
use tv_rq.Gf256.Field.{gf256_mul-eq-⊗}
use tv_rq.M256v.{M256v, set_el}
use tv_rq.M256v.Access.{at, IsView, set_el_lem, at_injective}
use tv_rq.M256v.Fill.{Filled}
use tv_rq.Ldpc.Ones.{cell}
use tv_rq.Hdpc.{gamma_round}
use tv_rq.Hdpc.Entries.{alpha_pow, alpha_pow-lt}

-- Storing a value in an element of a matrix of known elements.
pub Filled-set_el :
    (mat : M256v) (ms m : Mem) (val : ℕ → ℕ → ℕ) (r c v : ℕ)
    → IsView mat
    → r < mat.n_row
    → c < mat.n_col
    → v < 256
    → Filled mat ms m mat.n_row val
    → (m' : Mem) × (set_el mat r c v m ≡ some m')
      × Filled mat ms m' mat.n_row (λ r' c'. if cell r c r' c' then v else val r' c')
Filled-set_el mat ms m val r c v view h l small f = (
  write m (at mat r c) v,
  set_el_lem mat r c v m h (omega arith),
  record {
    bytes = write-IsBytes m (at mat r c) v small f.bytes;
    rows = λ r' c' h' l'. elim (ℕ_discrete r' r) [
      | yes p ↦ elim (ℕ_discrete c' c) [
        | yes q ↦
            ap₂ (λ r' c'. write m (at mat r c) v (at mat r' c')) p q
            ∙ write_same m (at mat r c) v
            ∙ sym (ap (λ b. if b then v else val r' c') (cell_here r c r' c' p q))
        | no q ↦
            write_other m (at mat r c) v (at mat r' c')
              (λ e. q (at_injective mat r' c' r c view l' l e).1)
            ∙ f.rows r' c' h' l'
            ∙ sym (ap (λ b. if b then v else val r' c') (cell_col r c r' c' q))
      ]
      | no p ↦
          write_other m (at mat r c) v (at mat r' c')
            (λ e. p (at_injective mat r' c' r c view l' l e).0)
          ∙ f.rows r' c' h' l'
          ∙ sym (ap (λ b. if b then v else val r' c') (cell_row r c r' c' p))
    ];
    off = λ x away. write_other m (at mat r c) v x (away r c h l) ∙ f.off x away;
  },
)
  where
    cell_here : (r c r' c' : ℕ) → r' ≡ r → c' ≡ c → cell r c r' c' ≡ true
    cell_here r c r' c' p q = ground arith

    cell_col : (r c r' c' : ℕ) → c' ≢ c → cell r c r' c' ≡ false
    cell_col r c r' c' q = ground arith

    cell_row : (r c r' c' : ℕ) → r' ≢ r → cell r c r' c' ≡ false
    cell_row r c r' c' p = ground arith

pub Filled-ext :
    (mat : M256v) (ms m : Mem) (n : ℕ) (val val' : ℕ → ℕ → ℕ)
    → ((r c : ℕ) → r < n → c < mat.n_col → val r c ≡ val' r c)
    → Filled mat ms m n val
    → Filled mat ms m n val'
Filled-ext mat ms m n val val' e f = record {
  bytes = f.bytes;
  rows = λ r c h l. f.rows r c h l ∙ e r c h l;
  off = f.off;
}

-- GAMMA after `i` rounds, and `j` rounds of the inner loop in the next.
unfoldable gamma_stage : ℕ → ℕ → ℕ → ℕ → ℕ
gamma_stage i j r c =
    if leb c r && (ltb (r - c) i || ((r - c == i) && ltb r j)) then alpha_pow (r - c) else 0

stage_step :
    (i j r c : ℕ)
    → i ≤ j
    → (if cell j (j - i) r c then alpha_pow i else gamma_stage i j r c) ≡ gamma_stage i (j + 1) r c
unfolding gamma_stage
stage_step i j r c h = elim (ℕ_discrete r j) [
  | yes p ↦ elim (ℕ_discrete c (j - i)) [
    | yes q ↦
        ap (λ b. if b then alpha_pow i else gamma_stage i j r c) (here p q)
        ∙ ap alpha_pow (diagonal p q)
        ∙ sym (ap (λ b. if b then alpha_pow (r - c) else 0) (reached p q))
    | no q ↦
        ap (λ b. if b then alpha_pow i else gamma_stage i j r c) (col q)
        ∙ ap (λ b. if b then alpha_pow (r - c) else 0) (same_row p q)
  ]
  | no p ↦
      ap (λ b. if b then alpha_pow i else gamma_stage i j r c) (row p)
      ∙ ap (λ b. if b then alpha_pow (r - c) else 0) (other_row p)
]
  where
    here : r ≡ j → c ≡ j - i → cell j (j - i) r c ≡ true
    here p q = ground arith

    diagonal : r ≡ j → c ≡ j - i → i ≡ r - c
    diagonal p q = omega arith

    reached :
        r ≡ j → c ≡ j - i → (leb c r && (ltb (r - c) i || ((r - c == i) && ltb r (j + 1)))) ≡ true
    reached p q = ground arith

    col : c ≢ j - i → cell j (j - i) r c ≡ false
    col q = ground arith

    row : r ≢ j → cell j (j - i) r c ≡ false
    row p = ground arith

    same_row :
        r ≡ j
        → c ≢ j - i
        → (leb c r && (ltb (r - c) i || ((r - c == i) && ltb r j)))
          ≡ (leb c r && (ltb (r - c) i || ((r - c == i) && ltb r (j + 1))))
    same_row p q = ground arith

    other_row :
        r ≢ j
        → (leb c r && (ltb (r - c) i || ((r - c == i) && ltb r j)))
          ≡ (leb c r && (ltb (r - c) i || ((r - c == i) && ltb r (j + 1))))
    other_row p = ground arith

stage_next : (i d r c : ℕ) → r < d → gamma_stage i d r c ≡ gamma_stage (i + 1) (i + 1) r c
unfolding gamma_stage
stage_next i d r c h = ap (λ b. if b then alpha_pow (r - c) else 0) tests
  where
    tests :
        (leb c r && (ltb (r - c) i || ((r - c == i) && ltb r d)))
        ≡ (leb c r && (ltb (r - c) (i + 1) || ((r - c == i + 1) && ltb r (i + 1))))
    tests = ground arith

-- The element of GAMMA.
unfoldable pub gamma_entry : ℕ → ℕ → ℕ
gamma_entry r c = if leb c r then alpha_pow (r - c) else 0

stage_first : (r c : ℕ) → 0 ≡ gamma_stage 0 0 r c
unfolding gamma_stage
stage_first r c = sym (ap (λ b. if b then alpha_pow (r - c) else 0) tests)
  where
    tests : (leb c r && (ltb (r - c) 0 || ((r - c == 0) && ltb r 0))) ≡ false
    tests = ground arith

stage_last : (d r c : ℕ) → r < d → gamma_stage d d r c ≡ gamma_entry r c
unfolding gamma_stage gamma_entry
stage_last d r c h = ap (λ b. if b then alpha_pow (r - c) else 0) tests
  where
    tests : (leb c r && (ltb (r - c) d || ((r - c == d) && ltb r d))) ≡ leb c r
    tests = ground arith

-- GAMMA and the power of alpha before round `i`.
record Stage (mat : M256v) (ms : Mem) (i : ℕ) (s : ℕ × Mem) : Type 0 where
  pub val : s.0 ≡ alpha_pow i
  pub filled : Filled mat ms s.1 mat.n_row (gamma_stage i i)

module _ (mat : M256v) (view : IsView mat) (d : ℕ) (ms : Mem) (rows : mat.n_row ≡ d)
    (cols : mat.n_col ≡ d) where
  gamma_round_lem :
      (i : ℕ) (s : ℕ × Mem)
      → i < d
      → Stage mat ms i s
      → (s' : ℕ × Mem) × (gamma_round mat d i s ≡ some s') × Stage mat ms (i + 1) s'
  unfolding gamma_round alpha_pow
  gamma_round_lem i s h st =
      let small : s.0 < 256 = subst (λ v. v < 256) (sym st.val) (alpha_pow-lt i) in
      let (m', e, f) =
        for_range_keeps (λ j m. Filled mat ms m mat.n_row (gamma_stage i j))
          (λ j. set_el mat j (j - i) s.0) (d - i) i s.1
          (λ j m l u f.
            let (m1, e1, f1) =
              Filled-set_el mat ms m (gamma_stage i j) j (j - i) s.0 view (omega (arith, rows))
                (omega (arith, cols)) small f in
            (
              m1,
              e1,
              Filled-ext mat ms m1 mat.n_row _ _
                  (λ r c hr hc.
                    ap (λ v. if cell j (j - i) r c then v else gamma_stage i j r c) st.val
                    ∙ stage_step i j r c l)
                  f1,
            ))
          st.filled in
      (
        (s.0 ⊗ 2, m'),
        rw (e, gf256_mul-eq-⊗ s.0 2 small (omega arith)) refl,
        record {
          val = ap (λ v. v ⊗ 2) st.val ∙ ap alpha_pow (next i);
          filled =
              Filled-ext mat ms m' mat.n_row _ _
                (λ r c hr hc.
                  ap (λ j. gamma_stage i j r c) (all i d h)
                  ∙ stage_next i d r c (omega (arith, rows)))
                f;
        },
      )
    where
      next : (k : ℕ) → suc k ≡ k + 1
      next k = omega arith

      all : (i d : ℕ) → i < d → i + (d - i) ≡ d
      all i d h = omega arith

  -- The loops that write GAMMA, after it is cleared.
  pub gamma_lem :
      (m : Mem)
      → Filled mat ms m mat.n_row (λ r c. 0)
      → (s : ℕ × Mem) × (for_range d 0 (gamma_round mat d) (1, m) ≡ some s)
        × Filled mat ms s.1 mat.n_row gamma_entry
  unfolding alpha_pow
  gamma_lem m f =
      let (s, e, st) =
        for_range_start (Stage mat ms) (gamma_round mat d) d (1, m)
          (λ i s h st. gamma_round_lem i s h st)
          (record {
            val = refl;
            filled = Filled-ext mat ms m mat.n_row _ _ (λ r c hr hc. stage_first r c) f;
          }) in
      (
        s,
        e,
        Filled-ext mat ms s.1 mat.n_row _ _ (λ r c hr hc. stage_last d r c (omega (arith, rows)))
            st.filled,
      )
