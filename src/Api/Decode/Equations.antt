-- ===== src/Api/Decode/Equations.antt =====
-- The equations that `RqInterExecute` of api/tvrq_api.c solves, and their only solution.
use tv_rq.Prelude.{ℕ, ◌≤◌, ◌<◌, ◌≡◌, sym, ◌∙◌, arith}
use native.Mathlib.Decide.{dec_le}
use tv_rq.Memory.{Mem}
use tv_rq.Memory.Sweep.{IsBytes}
use tv_rq.Parameters.{Parameters}
use tv_rq.M256v.{M256v}
use tv_rq.M256v.Access.{at}
use tv_rq.Lu.Value.{IsByteVec, row_from, value}
use tv_rq.Lu.Combine.{el}
use tv_rq.Lu.Kernel.{value_ext}
use tv_rq.Lu.Solve.{unique_solution}
use tv_rq.RqMatrix.Rows.{rq_entry}
use tv_rq.Api.{WorkMem}
use tv_rq.Api.Compile.{RqInterProgram}
use tv_rq.Api.Compile.Program.{all_rows, Compiled}
use tv_rq.Api.Decode.Run.{right_side, no_symbol, symbol, received}

-- The symbols `x` satisfy the equations of the matrix for the memory `m`: those for the identifiers
-- with the symbols of `y`, and those of the padding and of the precode with zero.
pub record Explains (p : Parameters) (w : WorkMem) (y : M256v) (m : Mem) (x : ℕ → ℕ → ℕ)
    : Type 0 where
  pub bytes : (k c : ℕ) → x k c < 256
  pub symbols :
      (i c : ℕ)
      → i < w.n_esi
      → c < y.n_col
      → m (at y i c) ≡ row_from p.l (rq_entry p w.n_esi w.esis) (λ k. x k c) i 0
  pub zeros :
      (i c : ℕ)
      → w.n_esi ≤ i
      → i < all_rows p w.n_esi
      → c < y.n_col
      → row_from p.l (rq_entry p w.n_esi w.esis) (λ k. x k c) i 0 ≡ 0

module _ (p : Parameters) (w : WorkMem) (address : ℕ) (prog : RqInterProgram) (m0 m : Mem)
    (comp : Compiled p w address m0 prog m) (m1 : Mem)
    (kept : (r c : ℕ) → r < p.l → c < p.l → el prog.lu m1 r c ≡ el prog.lu m r c)
    (sym_size in_sym_mem : ℕ) (x : ℕ → ℕ → ℕ)
    (explains : Explains p w (received prog sym_size in_sym_mem) m1 x) where
  -- The right-hand side of each equation of the program is the row of the matrix times the symbols.
  side_lem :
      (r c : ℕ)
      → r < p.l
      → c < sym_size
      → row_from p.l (rq_entry p w.n_esi w.esis) (λ k. x k c) (prog.rowperm r) 0
        ≡ right_side prog (received prog sym_size in_sym_mem) m1 r c
  side_lem r c h l = elim (dec_le prog.n_esi (prog.rowperm r)) [
    | yes big ↦
        explains.zeros (prog.rowperm r) c (omega (arith, comp.ids))
          (comp.rows_perm.inside r (omega (arith, comp.enough))) l
        ∙ no_symbol prog (received prog sym_size in_sym_mem) m1 r c big
    | no small ↦
        sym (explains.symbols (prog.rowperm r) c (omega (arith, comp.ids)) l)
        ∙ symbol prog (received prog sym_size in_sym_mem) m1 r c (omega arith)
  ]

  -- A block that solves the program's equations is that of the symbols.
  pub solved_lem :
      (z : ℕ → ℕ) (c : ℕ)
      → c < sym_size
      → IsByteVec z
      → IsBytes m1
      → ((r : ℕ)
          → r < p.l
          → value p.l p.l (el prog.lu m1) z r
            ≡ right_side prog (received prog sym_size in_sym_mem) m1 r c)
      → (k : ℕ) → k < p.l
      → z k ≡ x k c
  solved_lem z c l bz b1 e k h =
      unique_solution p.l (el prog.lu m1) z (λ k. x k c) (λ r c. b1 _) bz (λ k. explains.bytes k c)
        (λ i hi zero_pivot. comp.pivots i hi (sym (kept i i hi hi) ∙ zero_pivot))
        (λ r hr.
          e r hr
          ∙ sym (side_lem r c hr l)
          ∙ sym (comp.values (λ k. x k c) r (λ k. explains.bytes k c) hr)
          ∙ value_ext p.l (el prog.lu m) (el prog.lu m1) (λ k. x k c) r hr
              (λ r c hr hc. sym (kept r c hr hc)))
        k h
