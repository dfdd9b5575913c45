-- ===== src/Hdpc/Parts.antt =====
-- The two parts of the HDPC rows in tvrq/hdpc.c: the product on the left, the identity on the right.
use tv_rq.Prelude.{
  on_left, ℕ, zero, suc, ◌+◌, ◌-◌, ◌<◌, ◌≤◌, ◌≡◌, ◌≢◌, refl, ap, ap₂, sym, ◌∙◌, Bool, true, false,
  ◌||◌, some, arith, ◌==◌, ==_self, lt→ltb, le→ltb, if◌then◌else◌, ◌>>=◌,
}
use native.Mathlib.Decide.{dec_lt, ℕ_discrete}
use tv_rq.Memory.{Mem, for_range}
use tv_rq.Memory.Sweep.{IsBytes}
use tv_rq.Parameters.{Parameters}
use tv_rq.Parameters.Valid.{IsValid}
use tv_rq.M256v.{M256v, get_subview, set_el}
use tv_rq.M256v.Access.{at, IsView, get_subview_lem, at_injective}
use tv_rq.M256v.Fill.{Filled}
use tv_rq.M256v.Whole.{clear}
use tv_rq.M256v.Whole.Entries.{clear_lem}
use tv_rq.Ldpc.Ones.{bit, cell, some_round, set_one_lem, IsOnes-for_range}
use tv_rq.Hdpc.Entries.{g_hdpc, hdpc_entry}

-- The loop that writes the identity matrix, in the rows before its own and in a row of its own.
diagonal_before : (n k r c : ℕ) → r < k → some_round n k (λ i. cell i i r c) ≡ false
unfolding some_round
diagonal_before zero k r c h = refl
diagonal_before (suc n) k r c h =
    ap₂ (λ a b. a || b) (diagonal_before n (k + 1) r c (omega arith)) (ground arith)

diagonal_lem : (n k r c : ℕ) → r < k + n → k ≤ r → some_round n k (λ i. cell i i r c) ≡ (c == r)
unfolding some_round
diagonal_lem zero k r c h l = absurd (omega arith)
diagonal_lem (suc n) k r c h l = elim (ℕ_discrete r k) [
  | yes e ↦ rw (diagonal_before n (k + 1) r c (omega arith), e, ==_self k) refl
  | no ne ↦
      ap₂ (λ a b. a || b) (diagonal_lem n (k + 1) r c (omega arith) (omega arith)) (cell_off ne)
      ∙ or_right (c == r)
]
  where
    cell_off : r ≢ k → cell k k r c ≡ false
    cell_off ne = ground arith

    or_right : (b : Bool) → (b || false) ≡ b
    or_right true = refl
    or_right false = refl

or_false : (b : Bool) → bit (b || false) ≡ bit b
or_false true = refl
or_false false = refl

-- The identity matrix.
pub identity_lem :
    (i_h : M256v) (m : Mem)
    → IsView i_h
    → i_h.n_row ≤ i_h.n_col
    → IsBytes m
    → (m' : Mem) × ((clear i_h m >>= for_range i_h.n_row 0 (λ i. set_el i_h i i 1)) ≡ some m')
      × Filled i_h m m' i_h.n_row (λ r c. bit (c == r))
identity_lem i_h m view wide bytes =
    let (m1, e1, f1) = clear_lem i_h m view bytes in
    let (m2, e2, f2) =
      IsOnes-for_range i_h view m (λ i. set_el i_h i i 1) (λ i. cell i i) (λ r c. false) i_h.n_row 0
        m1 (λ one i m' h g. set_one_lem i_h view m one i i m' (omega arith) (omega arith) g) f1 in
    (
      m2,
      on_left e1 (for_range i_h.n_row 0 (λ i. set_el i_h i i 1)) ∙ e2,
      record {
        bytes = f2.bytes;
        rows = λ r c h l.
            f2.rows r c h l
            ∙ ap (λ b. bit (b || false)) (diagonal_lem i_h.n_row 0 r c (omega arith) (omega arith))
            ∙ or_false (c == r);
        off = f2.off;
      },
    )

at_top : (h : M256v) (r c c' : ℕ) → c ≡ c' → at h (0 + r) c ≡ at h r c'
at_top h r c c' e = ap₂ (at h) (zero_add r) e
  where
    zero_add : (r : ℕ) → 0 + r ≡ r
    zero_add r = omega arith

shifted : (c d r : ℕ) → d ≤ c → (c - d == r) ≡ (c == d + r)
shifted c d r h = ground arith

-- The views of the two parts.
pub record Halves (h : M256v) (p : Parameters) (g i_h : M256v) : Type 0 where
  pub view_g : IsView g
  pub rows_g : g.n_row ≡ p.h
  pub cols_g : g.n_col ≡ p.kprime + p.s
  pub at_g : (r c : ℕ) → at g r c ≡ at h r c
  pub view_i : IsView i_h
  pub rows_i : i_h.n_row ≡ p.h
  pub cols_i : i_h.n_col ≡ p.h
  pub at_i : (r c : ℕ) → at i_h r c ≡ at h r (p.kprime + p.s + c)

module _ (h : M256v) (p : Parameters) (view : IsView h) (valid : IsValid p) (rows : h.n_row ≡ p.h)
    (cols : h.n_col ≡ p.l) where
  pub halves_lem :
      (g : M256v) × (i_h : M256v) × (get_subview h 0 0 p.h (p.kprime + p.s) ≡ some g)
      × (get_subview h 0 (p.kprime + p.s) p.h p.h ≡ some i_h)
      × Halves h p g i_h
  halves_lem =
      let d = p.kprime + p.s in
      let (g, eg, vg, rg, cg, ag) =
        get_subview_lem h 0 0 p.h d view (omega (arith, rows, valid.h_min)) (omega (arith, rows))
          (omega (arith, cols, valid.total)) in
      let (i_h, ei, vi, ri, ci, ai) =
        get_subview_lem h 0 d p.h p.h view (omega (arith, rows, valid.h_min)) (omega (arith, rows))
          (omega (arith, cols, valid.total)) in
      (
        g,
        i_h,
        eg,
        ei,
        record {
          view_g = vg;
          rows_g = rg;
          cols_g = cg;
          at_g = λ r c. ag r c ∙ at_top h r (0 + c) c (omega arith);
          view_i = vi;
          rows_i = ri;
          cols_i = ci;
          at_i = λ r c. ai r c ∙ at_top h r (d + c) (d + c) refl;
        },
      )

  -- The elements, after the identity matrix is written beside the product.
  pub assemble_lem :
      (g i_h : M256v) (m1 m2 : Mem)
      → Halves h p g i_h
      → ((r c : ℕ) → r < p.h → c < g.n_col → m1 (at g r c) ≡ g_hdpc p r c)
      → Filled i_h m1 m2 i_h.n_row (λ r c. bit (c == r))
      → (r c : ℕ) → r < h.n_row
      → c < h.n_col
      → m2 (at h r c) ≡ hdpc_entry p r c
  unfolding hdpc_entry
  assemble_lem g i_h m1 m2 v cells f2 r c hr hc =
      let d = p.kprime + p.s in
      elim (dec_lt c d) [
        | yes left ↦
            f2.off (at h r c) (λ i k hi hk e. omega (
              arith,
              left,
              (at_injective h r c i (d + k) view hc (omega (arith, v.cols_i, cols, valid.total))
                  (e ∙ v.at_i i k)).1,
            ))
            ∙ ap m1 (sym (v.at_g r c))
            ∙ cells r c (omega (arith, rows)) (omega (arith, v.cols_g))
            ∙ ap (λ b. if b then g_hdpc p r c else bit (c == d + r)) (sym (lt→ltb c d left))
        | no right ↦
            let back : d + (c - d) ≡ c = omega arith in
            ap m2 (ap (at h r) (sym back) ∙ sym (v.at_i r (c - d)))
            ∙ f2.rows r (c - d) (omega (arith, v.rows_i, rows))
                (omega (arith, v.cols_i, cols, valid.total))
            ∙ ap bit (shifted c d r (omega arith))
            ∙ ap (λ b. if b then g_hdpc p r c else bit (c == d + r))
                (sym (le→ltb c d (omega arith)))
      ]

  -- The cells off the matrix.
  pub Halves-off :
      (g i_h : M256v) (x : ℕ)
      → Halves h p g i_h
      → ((r c : ℕ) → r < h.n_row → c < h.n_col → x ≢ at h r c)
      → ((r c : ℕ) → r < p.h → c < g.n_col → x ≢ at g r c)
        × ((r c : ℕ) → r < i_h.n_row → c < i_h.n_col → x ≢ at i_h r c)
  Halves-off g i_h x v away = (
    λ r c hr hc e.
        away r c (omega (arith, rows)) (omega (arith, v.cols_g, cols, valid.total))
          (e ∙ v.at_g r c),
    λ r c hr hc e.
        away r (p.kprime + p.s + c) (omega (arith, v.rows_i, rows))
          (omega (arith, v.cols_i, cols, valid.total)) (e ∙ v.at_i r c),
  )
