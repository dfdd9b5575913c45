-- ===== src/Hdpc/Rows.antt =====
-- The matrix that `hdpc_generate_mat_faster` of tvrq/hdpc.c writes.
use tv_rq.Prelude.{
  on_left, ℕ, zero, suc, ◌+◌, ◌-◌, ◌<◌, ◌≤◌, ◌≡◌, ◌≢◌, refl, ap, sym, subst, ◌∙◌, ◌||◌, some, arith,
  ◌==◌, ==_iff, bit_xor, ◌>>=◌,
}
use native.Mathlib.Decide.{ℕ_discrete}
use tv_rq.Memory.{Mem, for_range}
use tv_rq.Memory.Sweep.{IsBytes}
use tv_rq.Gf256.Poly.{◌⊗◌}
use tv_rq.Parameters.{Parameters}
use tv_rq.Parameters.Valid.{IsValid}
use tv_rq.M256v.{M256v, get_subview, set_el}
use tv_rq.M256v.Access.{at, IsView, at_injective}
use tv_rq.M256v.Fill.{Filled}
use tv_rq.M256v.Whole.{clear}
use tv_rq.Ldpc.Ones.{bit}
use tv_rq.Hdpc.{last_round, column_round, column_rounds, hdpc_generate_mat}
use tv_rq.Hdpc.Entries.{first_one, second_one, g_hdpc, hdpc_entry, g_hdpc_last, g_hdpc_next}
use tv_rq.Hdpc.Parts.{identity_lem, halves_lem, assemble_lem, Halves-off}
use tv_rq.Hdpc.Column.{column_round_lem, last_column_lem}

-- The columns from `j` on are as defined.
record From (g : M256v) (p : Parameters) (ms m : Mem) (j : ℕ) : Type 0 where
  pub bytes : IsBytes m
  pub cells : (r c : ℕ) → r < p.h → j ≤ c → c < g.n_col → m (at g r c) ≡ g_hdpc p r c
  pub off : (x : ℕ) → ((r c : ℕ) → r < p.h → c < g.n_col → x ≢ at g r c) → m x ≡ ms x

module _ (g : M256v) (p : Parameters) (ms : Mem) (view : IsView g) (valid : IsValid p)
    (rows : g.n_row ≡ p.h) (cols : g.n_col ≡ p.kprime + p.s) where
  column_step :
      (j : ℕ) (m : Mem)
      → j + 1 < g.n_col
      → From g p ms m (j + 1)
      → (m' : Mem) × (column_round g p j m ≡ some m') × From g p ms m' j
  column_step j m h f =
      let (m', e, w) = column_round_lem g p view rows j (omega arith) m valid h f.bytes in
      (
        m',
        e,
        record {
          bytes = w.bytes;
          cells = λ r c hr l u. elim (ℕ_discrete c j) [
            | yes same ↦
                ap (λ c. m' (at g r c)) same
                ∙ w.here r hr
                ∙ ap (λ v. bit_xor (bit ((r == second_one p j) || (r == first_one p j))) (2 ⊗ v))
                    (f.cells r (j + 1) hr (omega arith) h)
                ∙ sym (g_hdpc_next p r j (omega (arith, cols)))
                ∙ ap (g_hdpc p r) (sym same)
            | no ne ↦
                w.off (at g r c) (λ i l e. ne (at_injective g r c i j view u (omega arith) e).1)
                ∙ f.cells r c hr (omega arith) u
          ];
          off = λ x away. w.off x (λ i l. away i j l (omega arith)) ∙ f.off x away;
        },
      )

  columns_lem :
      (n : ℕ) (m : Mem)
      → n < g.n_col
      → From g p ms m n
      → (m' : Mem) × (column_rounds g p n m ≡ some m') × From g p ms m' 0
  unfolding column_rounds
  columns_lem zero m h f = (m, refl, f)
  columns_lem (suc j) m h f =
      let (m1, e1, f1) =
        column_step j m (omega arith) (subst (λ k. From g p ms m k) (omega arith) f) in
      let (m2, e2, f2) = columns_lem j m1 (omega arith) f1 in
      (m2, on_left e1 (column_rounds g p j) ∙ e2, f2)

  -- The left part of the rows.
  left_part :
      IsBytes ms
      → (s : ℕ × Mem) × (for_range p.h 0 (last_round g p) (1, ms) ≡ some s)
        × (m' : Mem) × (column_rounds g p (p.kprime + p.s - 1) s.1 ≡ some m')
        × From g p ms m' 0
  left_part bytes =
      let c = p.kprime + p.s - 1 in
      let col : c < g.n_col = omega (arith, cols, valid.s_min) in
      let (s, e, w) = last_column_lem g p view rows col ms bytes in
      let start : From g p ms s.1 c = record {
        bytes = w.bytes;
        cells = λ r k h l u.
            let same : k ≡ c = omega (arith, cols) in
            ap (λ k. s.1 (at g r k)) same
            ∙ w.here r h
            ∙ sym (g_hdpc_last p r c (omega (arith, valid.s_min)))
            ∙ ap (g_hdpc p r) (sym same);
        off = λ x away. w.off x (λ i l. away i c l col);
      } in
      let (m', e', f) = columns_lem c s.1 col start in (s, e, m', e', f)

parts_lem :
    (h g i_h : M256v) (p : Parameters) (m m1 m2 : Mem) (s : ℕ × Mem)
    → h.n_row ≡ p.h
    → h.n_col ≡ p.l
    → get_subview h 0 0 p.h (p.kprime + p.s) ≡ some g
    → get_subview h 0 (p.kprime + p.s) p.h p.h ≡ some i_h
    → for_range p.h 0 (last_round g p) (1, m) ≡ some s
    → column_rounds g p (p.kprime + p.s - 1) s.1 ≡ some m1
    → (clear i_h m1 >>= for_range p.h 0 (λ i. set_el i_h i i 1)) ≡ some m2
    → hdpc_generate_mat h p m ≡ some m2
unfolding hdpc_generate_mat
parts_lem h g i_h p m m1 m2 s rows cols eg ei e0 e1 e2 =
    rw ((==_iff h.n_row p.h).1 rows, (==_iff h.n_col p.l).1 cols, eg, e0) (rw (e1, ei) e2)

-- For valid parameters and a matrix of H rows and L columns, `hdpc_generate_mat_faster` fails no
-- assert, and leaves in each element that of the RFC's definition, the product of MT and GAMMA on
-- the left and an identity matrix on the right, and nothing changed behind the elements.
pub hdpc_generate_mat_lem :
    (h : M256v) (p : Parameters) (m : Mem)
    → IsView h
    → IsValid p
    → h.n_row ≡ p.h
    → h.n_col ≡ p.l
    → IsBytes m
    → (m' : Mem) × (hdpc_generate_mat h p m ≡ some m') × Filled h m m' h.n_row (hdpc_entry p)
hdpc_generate_mat_lem h p m view valid rows cols bytes =
    let (g, i_h, eg, ei, v) = halves_lem h p view valid rows cols in
    let (s, e0, m1, e1, f1) = left_part g p m v.view_g valid v.rows_g v.cols_g bytes in
    let (m2, e2, f2) = identity_lem i_h m1 v.view_i (omega (arith, v.rows_i, v.cols_i)) f1.bytes in
    (
      m2,
      parts_lem h g i_h p m m1 m2 s rows cols eg ei e0 e1 (
          subst (λ n. (clear i_h m1 >>= for_range n 0 (λ i. set_el i_h i i 1)) ≡ some m2) v.rows_i
            e2),
      record {
        bytes = f2.bytes;
        rows =
            assemble_lem h p view valid rows cols g i_h m1 m2 v
              (λ r c hr hc. f1.cells r c hr (omega arith) hc) f2;
        off = λ x away.
            let (off_g, off_i) = Halves-off h p view valid rows cols g i_h x v away in
            f2.off x off_i ∙ f1.off x off_g;
      },
    )
