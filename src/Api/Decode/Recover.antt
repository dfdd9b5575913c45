-- ===== src/Api/Decode/Recover.antt =====
-- `RqInterCompile` and `RqInterExecute` of api/tvrq_api.c together: decoding.
use tv_rq.Prelude.{
  ℕ, ◌+◌, ◌*◌, ◌%◌, ◌^◌, ◌≤◌, ◌<◌, ◌≡◌, ◌≢◌, ◌⊎◌, inl, inr, refl, ap, sym, subst, ◌∙◌, Option, some,
  arith, bit_xor, ◌>>=◌,
}
use tv_rq.Prelude.Bits.{xor-zero, xor-lt, xor_cancel, xor_self}
use tv_rq.Memory.{Mem}
use tv_rq.Memory.Sweep.{IsBytes}
use tv_rq.Parameters.{Parameters}
use tv_rq.Parameters.Valid.{IsValid}
use tv_rq.M256v.{M256v}
use tv_rq.M256v.Access.{at}
use tv_rq.Lu.Value.{row_from, value}
use tv_rq.Lu.Combine.{Disjoint, el}
use tv_rq.Lu.Kernel.{row_from-xor}
use tv_rq.RqMatrix.Rows.{rq_entry}
use tv_rq.Api.{Status, success, err_insuff_ids, WorkMem}
use tv_rq.Api.Compile.{RqInterProgram, mem_needed, rq_inter_compile}
use tv_rq.Api.Compile.Program.{all_rows, whole, Compiled, Insufficient, rq_inter_compile_lem}
use tv_rq.Api.Decode.{rq_inter_execute}
use tv_rq.Api.Decode.Equations.{Explains, solved_lem}
use tv_rq.Api.Decode.Run.{right_side, received, rq_inter_execute_lem}

-- The two calls of a decoder, one after the other.
unfoldable pub decode :
    WorkMem → ℕ → ℕ → RqInterProgram → (ℕ → ℕ) → ℕ → ℕ → ℕ → ℕ → ℕ → Mem → Option (Status × Mem)
decode w address size program colperm sym_size in_sym_mem inter_sym_mem inter_sym_mem_size rowbuf
      m =
    rq_inter_compile w address size program colperm m >>= λ (status, (prog, m1)). elim status [
      | success ↦
          rq_inter_execute prog sym_size in_sym_mem inter_sym_mem inter_sym_mem_size rowbuf m1
      | other ↦ some (other, m1)
    ]

abbrev pub view_of : ℕ → ℕ → ℕ → M256v
view_of n_row n_col e = record { n_row = n_row; n_col = n_col; rstride = n_col; e = e }

module _ (p : Parameters) (w : WorkMem) (address size : ℕ) (program : RqInterProgram)
    (colperm : ℕ → ℕ) (sym_size in_sym_mem inter_sym_mem inter_sym_mem_size rowbuf : ℕ) (m : Mem)
    (known : w.params ≡ some p) (valid : IsValid p) (few : w.n_esi + p.kprime + p.s + p.h < 2 ^ 31)
    (enough : mem_needed (all_rows p w.n_esi) p.l ≤ size) (narrow : sym_size < 2 ^ 31)
    (fits : p.l * sym_size % 2 ^ 64 ≤ inter_sym_mem_size)
    (apart_y : Disjoint (view_of w.n_esi sym_size in_sym_mem) (view_of p.l sym_size inter_sym_mem))
    (apart_lu : Disjoint (whole p w.n_esi address) (view_of p.l sym_size inter_sym_mem))
    (apart_in : Disjoint (whole p w.n_esi address) (view_of w.n_esi sym_size in_sym_mem))
    (bytes : IsBytes m) (x : ℕ → ℕ → ℕ)
    (explains : Explains p w (view_of w.n_esi sym_size in_sym_mem) m x) where
  success_step :
      (prog : RqInterProgram) (m1 m2 : Mem)
      → rq_inter_compile w address size program colperm m ≡ some (success, (prog, m1))
      → rq_inter_execute prog sym_size in_sym_mem inter_sym_mem inter_sym_mem_size rowbuf m1
        ≡ some (success, m2)
      → decode w address size program colperm sym_size in_sym_mem inter_sym_mem inter_sym_mem_size
          rowbuf m
        ≡ some (success, m2)
  unfolding decode
  success_step prog m1 m2 e f = rw e f

  short_step :
      (prog : RqInterProgram) (m1 : Mem)
      → rq_inter_compile w address size program colperm m ≡ some (err_insuff_ids, (prog, m1))
      → decode w address size program colperm sym_size in_sym_mem inter_sym_mem inter_sym_mem_size
          rowbuf m
        ≡ some (err_insuff_ids, m1)
  unfolding decode
  short_step prog m1 e = rw e refl

  -- The symbols received are still there after the first call.
  Explains-after :
      (prog : RqInterProgram) (m1 : Mem)
      → Compiled p w address m prog m1
      → Explains p w (received prog sym_size in_sym_mem) m1 x
  Explains-after prog m1 comp = record {
    bytes = explains.bytes;
    symbols = λ i c h l.
        comp.off (at (view_of w.n_esi sym_size in_sym_mem) i c)
          (λ r k hr hk e. apart_in r k i c hr hk h l (sym e))
        ∙ explains.symbols i c h l;
    zeros = explains.zeros;
  }

  recovered :
      (prog : RqInterProgram) (m1 : Mem)
      → Compiled p w address m prog m1
      → (m2 : Mem) × (rq_inter_execute prog sym_size in_sym_mem inter_sym_mem inter_sym_mem_size
            rowbuf m1
          ≡ some (success, m2))
        × ((k c : ℕ)
            → k < p.l
            → c < sym_size
            → el (view_of p.l sym_size inter_sym_mem) m2 k c ≡ x k c)
  recovered prog m1 comp =
      let rows : prog.lu.n_row ≡ p.l = ap (λ mat. mat.n_row) comp.lu in
      let cols : prog.lu.n_col ≡ p.l = ap (λ mat. mat.n_col) comp.lu in
      let (m2, run, done) =
        rq_inter_execute_lem prog sym_size in_sym_mem inter_sym_mem inter_sym_mem_size rowbuf m1
          (rows ∙ sym cols) (omega (arith, cols, valid.total, valid.s_min))
          (λ i h. comp.pivots i (omega (arith, cols))) narrow
          (subst (λ n. n * sym_size % 2 ^ 64 ≤ inter_sym_mem_size) (sym cols) fits)
          (λ r c r' c' h l h' l'.
            apart_y r c r' c' (omega (arith, comp.ids)) l (omega (arith, cols)) l')
          (λ r c r' c' h l h' l' e.
            apart_lu r c r' c' (omega (arith, rows, comp.enough)) (omega (arith, cols))
              (omega (arith, cols)) l' (ap (λ mat. at mat r c) (sym comp.lu) ∙ e))
          comp.bytes in
      (
        m2,
        run,
        λ k c h l.
            solved_lem p w address prog m m1 comp m1 (λ r c hr hc. refl) sym_size in_sym_mem x
              (Explains-after prog m1 comp) (λ k. el (view_of p.l sym_size inter_sym_mem) m2 k c) c
              l (λ k. done.bytes _) comp.bytes
              (λ r hr.
                subst
                  (λ n.
                    value n n (el prog.lu m1) (λ k. el (view_of p.l sym_size inter_sym_mem) m2 k c)
                      r
                    ≡ right_side prog (received prog sym_size in_sym_mem) m1 r c)
                  cols (done.rows r c (omega (arith, cols)) l))
              k h,
      )

  -- Other intermediate symbols that explain the same symbols.
  ambiguous :
      Insufficient p w
      → (x' : ℕ → ℕ → ℕ) × Explains p w (view_of w.n_esi sym_size in_sym_mem) m x'
        × (k : ℕ) × (k < p.l)
        × ((c : ℕ) → x' k c ≢ x k c)
  ambiguous s =
      let both : (i c : ℕ)
          → i < all_rows p w.n_esi
          → row_from p.l (rq_entry p w.n_esi w.esis) (λ k. bit_xor (x k c) (s.vec k)) i 0
            ≡ row_from p.l (rq_entry p w.n_esi w.esis) (λ k. x k c) i 0 =
        λ i c h.
          row_from-xor p.l (rq_entry p w.n_esi w.esis) (λ k. x k c) s.vec i 0
            (λ k. explains.bytes k c) s.small
          ∙ ap (bit_xor (row_from p.l (rq_entry p w.n_esi w.esis) (λ k. x k c) i 0)) (s.kernel i h)
          ∙ xor-zero _ in
      (
        λ k c. bit_xor (x k c) (s.vec k),
        record {
          bytes = λ k c. xor-lt 8 (x k c) (s.vec k) (explains.bytes k c) (s.small k);
          symbols =
              λ i c h l. explains.symbols i c h l ∙ sym (both i c (omega (arith, valid.padded)));
          zeros = λ i c h u l. both i c u ∙ explains.zeros i c h u l;
        },
        s.index,
        s.inside,
        λ c e. s.nonzero (
            sym (xor_cancel (x s.index c) (s.vec s.index))
            ∙ ap (bit_xor (x s.index c)) e
            ∙ xor_self (x s.index c)),
      )

  -- Decoding, for valid parameters, fewer than 2^31 rows, a symbol size below 2^31, enough memory for the program and for the
  -- intermediate block, and symbols received, elements of the matrix and a block that share no byte
  -- with each other. If intermediate symbols explain the symbols received, the two calls fail no
  -- assert and have one of two results: they succeed, and the block holds exactly those intermediate
  -- symbols; or they report too few identifiers, and other intermediate symbols explain the symbols
  -- received as well.
  pub decode_lem :
      (m2 : Mem) × (((decode w address size program colperm sym_size in_sym_mem inter_sym_mem
              inter_sym_mem_size rowbuf m
            ≡ some (success, m2))
          × ((k c : ℕ)
              → k < p.l
              → c < sym_size
              → el (view_of p.l sym_size inter_sym_mem) m2 k c ≡ x k c))
        ⊎ ((decode w address size program colperm sym_size in_sym_mem inter_sym_mem
                inter_sym_mem_size rowbuf m
              ≡ some (err_insuff_ids, m2))
            × ((x' : ℕ → ℕ → ℕ) × Explains p w (view_of w.n_esi sym_size in_sym_mem) m x'
                × (k : ℕ) × (k < p.l)
                × ((c : ℕ) → x' k c ≢ x k c))))
  decode_lem =
      let (prog, m1, result) =
        rq_inter_compile_lem p w address size program colperm m known valid few enough bytes in
      elim result [
        | inl (e, comp) ↦
            let (m2, run, same) = recovered prog m1 comp in
            (m2, inl (success_step prog m1 m2 e run, same))
        | inr (e, short) ↦ (m1, inr (short_step prog m1 e, ambiguous short))
      ]
