-- ===== src/Hdpc/Exact.antt =====
-- `hdpc_generate_mat_specexact` of tvrq/hdpc.c, and that the two routines write the same matrix.
use tv_rq.Prelude.{
  ℕ, zero, suc, ◌+◌, ◌-◌, ◌*◌, ◌^◌, ◌≤◌, ◌<◌, ◌≡◌, refl, ap, ap₂, sym, subst, ◌∙◌, false, some,
  arith, ==_iff, bit_xor, leb, le→leb, if◌then◌else◌, ◌>>=◌,
}
use tv_rq.Prelude.Bits.{zero-xor}
use tv_rq.Memory.{Mem, for_range}
use tv_rq.Memory.Sweep.{IsBytes}
use tv_rq.Gf256.Poly.{◌⊗◌, ⊗-zero}
use tv_rq.Parameters.{Parameters}
use tv_rq.Parameters.Valid.{IsValid}
use tv_rq.M256v.{M256v, m256v_make, get_subview, set_el}
use tv_rq.M256v.Access.{at, IsView}
use tv_rq.M256v.Whole.{clear, mul}
use tv_rq.M256v.Whole.Entries.{clear_lem}
use tv_rq.M256v.Whole.Product.{dot, dot_ext, mul_lem}
use tv_rq.Lu.Sum.{sum_from, sum_from_ext, sum_from_zero, sum_from_split, sum_from-suc}
use tv_rq.Lu.Combine.{Disjoint}
use tv_rq.Hdpc.{mt_round, last_round, gamma_round, hdpc_generate_mat, hdpc_generate_mat_specexact}
use tv_rq.Hdpc.Entries.{alpha_pow, mt_entry, g_hdpc, hdpc_entry}
use tv_rq.Api.Words.{int32_pos}
use tv_rq.Hdpc.Mt.{mt_lem}
use tv_rq.Hdpc.Factors.{gamma_entry, gamma_lem}
use tv_rq.Hdpc.Parts.{identity_lem, halves_lem, assemble_lem}
use tv_rq.Hdpc.Rows.{hdpc_generate_mat_lem}

-- A product of matrices as a sum.
dot_sum : (n : ℕ) (f g : ℕ → ℕ) → dot n f g ≡ sum_from 0 n (λ k. f k ⊗ g k)
unfolding dot sum_from
dot_sum zero f g = refl
dot_sum (suc n) f g =
    ap (λ v. bit_xor v (f n ⊗ g n)) (dot_sum n f g) ∙ sym (sum_from-suc n (λ k. f k ⊗ g k))

-- MT times GAMMA.
product_lem :
    (p : Parameters) (r c : ℕ)
    → c < p.kprime + p.s
    → dot (p.kprime + p.s) (mt_entry p r) (λ k. gamma_entry k c) ≡ g_hdpc p r c
unfolding g_hdpc gamma_entry
product_lem p r c h =
    let d = p.kprime + p.s in
    dot_sum d (mt_entry p r) (λ k. gamma_entry k c)
    ∙ ap (λ n. sum_from 0 n (λ k. mt_entry p r k ⊗ gamma_entry k c)) (both c d h)
    ∙ sum_from_split 0 c (d - c) (λ k. mt_entry p r k ⊗ gamma_entry k c)
    ∙ ap₂ bit_xor
        (sum_from_zero 0 c _ (λ k l u.
          ap (λ b. mt_entry p r k ⊗ (if b then alpha_pow (k - c) else 0)) (above k c (omega arith))
          ∙ ⊗-zero (mt_entry p r k)))
        (ap (λ n. sum_from n (d - c) (λ k. mt_entry p r k ⊗ gamma_entry k c)) (zero_add c)
          ∙ sum_from_ext c (d - c) _ _ (λ k l u.
            ap (λ b. mt_entry p r k ⊗ (if b then alpha_pow (k - c) else 0)) (le→leb c k l)))
    ∙ zero-xor _
  where
    both : (c d : ℕ) → c < d → d ≡ c + (d - c)
    both c d h = omega arith

    zero_add : (n : ℕ) → 0 + n ≡ n
    zero_add n = omega arith

    above : (k c : ℕ) → k < c → leb c k ≡ false
    above k c h = ground arith

abbrev mt_view : Parameters → ℕ → M256v
mt_view p e = record { n_row = p.h; n_col = p.kprime + p.s; rstride = p.kprime + p.s; e = e }

abbrev gamma_view : Parameters → ℕ → M256v
gamma_view p e = record {
  n_row = p.kprime + p.s;
  n_col = p.kprime + p.s;
  rstride = p.kprime + p.s;
  e = e;
}

compose :
    (h g i_h : M256v) (p : Parameters) (mt_mem gamma_mem : ℕ) (m m0 m1 m2 m3 m4 : Mem)
    (s t : ℕ × Mem)
    → h.n_row ≡ p.h
    → h.n_col ≡ p.l
    → p.h * (p.kprime + p.s) < 2 ^ 31
    → (p.kprime + p.s) * (p.kprime + p.s) < 2 ^ 31
    → clear (mt_view p mt_mem) m ≡ some m0
    → for_range (p.kprime + p.s - 1) 0 (mt_round (mt_view p mt_mem) p) m0 ≡ some m1
    → for_range p.h 0 (last_round (mt_view p mt_mem) p) (1, m1) ≡ some s
    → clear (gamma_view p gamma_mem) s.1 ≡ some m2
    → for_range (p.kprime + p.s) 0 (gamma_round (gamma_view p gamma_mem) (p.kprime + p.s)) (1, m2)
      ≡ some t
    → get_subview h 0 0 p.h (p.kprime + p.s) ≡ some g
    → mul (mt_view p mt_mem) (gamma_view p gamma_mem) g t.1 ≡ some m3
    → get_subview h 0 (p.kprime + p.s) p.h p.h ≡ some i_h
    → (clear i_h m3 >>= for_range p.h 0 (λ i. set_el i_h i i 1)) ≡ some m4
    → hdpc_generate_mat_specexact h p mt_mem gamma_mem m ≡ some m4
unfolding hdpc_generate_mat_specexact m256v_make
compose h g i_h p mt_mem gamma_mem m m0 m1 m2 m3 m4 s t rows cols small fits a b c d e f k l n =
    rw
      (
        (==_iff h.n_row p.h).1 rows,
        (==_iff h.n_col p.l).1 cols,
        int32_pos (p.h * (p.kprime + p.s)) small,
        a,
        b,
      )
      (rw (c, int32_pos ((p.kprime + p.s) * (p.kprime + p.s)) fits, d) (rw (e, f) (rw (k, l) n)))

module _ (h : M256v) (p : Parameters) (mt_mem gamma_mem : ℕ) (m : Mem) (view : IsView h)
    (valid : IsValid p) (rows : h.n_row ≡ p.h) (cols : h.n_col ≡ p.l)
    (fits : (p.kprime + p.s) * (p.kprime + p.s) < 2 ^ 31) (bytes : IsBytes m)
    (apart_mt : Disjoint (mt_view p mt_mem) h) (apart_gamma : Disjoint (gamma_view p gamma_mem) h)
    (apart : Disjoint (mt_view p mt_mem) (gamma_view p gamma_mem)) where
  abbrev mt : M256v
  mt = mt_view p mt_mem

  abbrev gamma : M256v
  gamma = gamma_view p gamma_mem

  mt_small : p.h * (p.kprime + p.s) < 2 ^ 31
  mt_small = bound p.h (p.kprime + p.s) valid.h_max (omega (arith, valid.kprime_max, valid.s_max))
    where
      bound : (h d : ℕ) → h ≤ 16 → d ≤ 57310 → h * d < 2 ^ 31
      bound h d a b = grind arith

  -- `hdpc_generate_mat_specexact` leaves the elements of the definition too.
  specexact_lem :
      (m' : Mem) × (hdpc_generate_mat_specexact h p mt_mem gamma_mem m ≡ some m')
      × ((r c : ℕ) → r < h.n_row → c < h.n_col → m' (at h r c) ≡ hdpc_entry p r c)
  specexact_lem =
      let d = p.kprime + p.s in
      let (g, i_h, eg, ei, v) = halves_lem h p view valid rows cols in
      let (m0, e0, m1, e1, s, e2, f) = mt_lem mt p m (omega arith) valid refl refl bytes in
      let (m2, e3, f2) = clear_lem gamma s.1 (omega arith) f.bytes in
      let (t, e4, f4) = gamma_lem gamma (omega arith) d s.1 refl refl m2 f2 in
      let (m3, e5, f5) =
        mul_lem mt gamma g
          (record {
            inner = refl;
            rows = sym v.rows_g;
            cols = sym v.cols_g;
            apart_a = λ i e r c hi he hr hc q.
                apart_mt i e r c hi he (omega (arith, rows, v.rows_g))
                  (omega (arith, cols, v.cols_g, valid.total)) (q ∙ v.at_g r c);
            apart_b = λ i e r c hi he hr hc q.
                apart_gamma i e r c hi he (omega (arith, rows, v.rows_g))
                  (omega (arith, cols, v.cols_g, valid.total)) (q ∙ v.at_g r c);
          })
          v.view_g t.1 f4.bytes in
      let (m4, e6, f6) =
        identity_lem i_h m3 v.view_i (omega (arith, v.rows_i, v.cols_i)) f5.bytes in
      (
        m4,
        compose h g i_h p mt_mem gamma_mem m m0 m1 m2 m3 m4 s t rows cols mt_small fits e0 e1 e2 e3
            e4 eg e5 ei
            (subst (λ n. (clear i_h m3 >>= for_range n 0 (λ i. set_el i_h i i 1)) ≡ some m4)
              v.rows_i e6),
        assemble_lem h p view valid rows cols g i_h m3 m4 v
            (λ r c hr hc.
              f5.rows r c (omega (arith, v.rows_g)) hc
              ∙ dot_ext d _ _ _ _
                  (λ k l.
                    f4.off (at mt r k) (λ i j hi hj. apart r k i j hr l hi hj) ∙ f.rows r k hr l)
                  (λ k l. f4.rows k c l (omega (arith, v.cols_g)))
              ∙ product_lem p r c (omega (arith, v.cols_g)))
            f6,
      )

  -- For valid parameters of which GAMMA has fewer than 2^31 elements, so that the size that `malloc` is
  -- asked for does not overflow, a matrix of H rows and L columns, and addresses at which MT and GAMMA share
  -- no cell with it or with each other, neither routine fails an assert, and the two leave the same
  -- elements in the matrix: those of the RFC's definition.
  pub hdpc_generate_mat-specexact :
      (m1 : Mem) × (m2 : Mem) × (hdpc_generate_mat h p m ≡ some m1)
      × (hdpc_generate_mat_specexact h p mt_mem gamma_mem m ≡ some m2)
      × ((r c : ℕ)
          → r < h.n_row
          → c < h.n_col
          → (m1 (at h r c) ≡ m2 (at h r c)) × (m2 (at h r c) ≡ hdpc_entry p r c))
  hdpc_generate_mat-specexact =
      let (m1, e1, f1) = hdpc_generate_mat_lem h p m view valid rows cols bytes in
      let (m2, e2, same) = specexact_lem in
      (m1, m2, e1, e2, λ r c hr hc. (f1.rows r c hr hc ∙ sym (same r c hr hc), same r c hr hc))
