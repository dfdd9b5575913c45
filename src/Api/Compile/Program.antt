-- ===== src/Api/Compile/Program.antt =====
-- The program that `RqInterCompile` of api/tvrq_api.c makes.
use tv_rq.Prelude.{
  on_left, ℕ, ◌+◌, ◌-◌, ◌*◌, ◌^◌, ◌≤◌, ◌<◌, ◌≡◌, ◌≢◌, ◌⊎◌, inl, inr, refl, ap, sym, subst, ◌∙◌,
  some, arith, ◌==◌, ==_self, lt→ltb, le→ltb, ◌>>◌, assert,
}
use native.Mathlib.Decide.{dec_lt}
use tv_rq.Memory.{Mem, for_range}
use tv_rq.Memory.Sweep.{IsBytes}
use tv_rq.Memory.Loop.{for_range_start}
use tv_rq.Parameters.{Parameters}
use tv_rq.Parameters.Valid.{IsValid}
use tv_rq.M256v.{M256v, m256v_make}
use tv_rq.M256v.Fill.{Filled}
use tv_rq.Lu.{LuState, lu_decomp_inplace}
use tv_rq.Lu.Value.{IsByteVec, row_from, row_from_ext, value}
use tv_rq.Lu.Combine.{el}
use tv_rq.Lu.Eliminate.{OffMatrix}
use tv_rq.Lu.Transpose.{IsPermutation}
use tv_rq.Lu.Rank.{Finished, lu_decomp_inplace_lem}
use tv_rq.Lu.Kernel.{value_vec_ext, kernel_lem}
use tv_rq.RqMatrix.{rq_matrix_generate}
use tv_rq.RqMatrix.Rows.{rq_entry, rq_matrix_generate_lem}
use tv_rq.Api.{success, err_insuff_ids, WorkMem}
use tv_rq.Api.Words.{int32_pos}
use tv_rq.Api.Inter.{sizeof_inter_program}
use tv_rq.Api.Compile.{RqInterProgram, inter_rows, mem_needed, compile_end, rq_inter_compile}

-- The number of rows of the matrix that a program decomposes, and where its elements are.
abbrev pub all_rows : Parameters → ℕ → ℕ
all_rows p n_esi = n_esi + p.kprime - p.k + p.s + p.h

abbrev pub storage_of : Parameters → ℕ → ℕ → ℕ
storage_of p n_esi address = address + sizeof_inter_program + 4 * all_rows p n_esi

abbrev pub whole : Parameters → ℕ → ℕ → M256v
whole p n_esi address = record {
  n_row = all_rows p n_esi;
  n_col = p.l;
  rstride = p.l;
  e = storage_of p n_esi address;
}

-- The program of a full rank: L and U of as many rows of the matrix as it has columns.
pub record Compiled (p : Parameters) (w : WorkMem) (address : ℕ) (m : Mem) (prog : RqInterProgram)
    (m' : Mem) : Type 0 where
  pub lu :
      prog.lu
      ≡ (record { n_row = p.l; n_col = p.l; rstride = p.l; e = storage_of p w.n_esi address })
  pub ids : prog.n_esi ≡ w.n_esi
  pub enough : p.l ≤ all_rows p w.n_esi
  pub bytes : IsBytes m'
  pub off : (a : ℕ) → OffMatrix (whole p w.n_esi address) a → m' a ≡ m a
  pub rows_perm : IsPermutation prog.rowperm (all_rows p w.n_esi)
  pub pivots : (i : ℕ) → i < p.l → el prog.lu m' i i ≢ 0
  pub values :
      (x : ℕ → ℕ) (r : ℕ)
      → IsByteVec x
      → r < p.l
      → value p.l p.l (el prog.lu m') x r
        ≡ row_from p.l (rq_entry p w.n_esi w.esis) x (prog.rowperm r) 0

-- Too few identifiers: the matrix takes a vector that is not zero to zero, so that no symbols
-- received determine the intermediate symbols.
pub record Insufficient (p : Parameters) (w : WorkMem) : Type 0 where
  pub vec : ℕ → ℕ
  pub small : IsByteVec vec
  pub index : ℕ
  pub inside : index < p.l
  pub nonzero : vec index ≢ 0
  pub kernel :
      (r : ℕ) → r < all_rows p w.n_esi → row_from p.l (rq_entry p w.n_esi w.esis) vec r 0 ≡ 0

module _ (p : Parameters) (w : WorkMem) (address size : ℕ) (program : RqInterProgram)
    (colperm : ℕ → ℕ) (m : Mem) (known : w.params ≡ some p) (valid : IsValid p)
    (few : w.n_esi + p.kprime + p.s + p.h < 2 ^ 31)
    (enough : mem_needed (all_rows p w.n_esi) p.l ≤ size) (bytes : IsBytes m) where
  abbrev mat : M256v
  mat = whole p w.n_esi address

  rows_step : inter_rows p w.n_esi ≡ some (all_rows p w.n_esi)
  unfolding inter_rows
  rows_step =
      rw
        (int32_pos (w.n_esi + p.kprime) (omega arith), int32_pos (all_rows p w.n_esi) (omega arith))
        refl

  start_step :
      (m1 : Mem) (rank : ℕ) (st : LuState)
      → rq_matrix_generate mat p w.n_esi w.esis m ≡ some m1
      → lu_decomp_inplace mat (record { mem = m1; rp = program.rowperm; cp = colperm })
        ≡ some (rank, st)
      → rq_inter_compile w address size program colperm m
        ≡ compile_end mat w.n_esi (storage_of p w.n_esi address) rank st
  unfolding rq_inter_compile m256v_make
  start_step m1 rank st e f =
      rw (known, rows_step, le→ltb size (mem_needed (all_rows p w.n_esi) p.l) enough)
        (on_left e _ ∙ on_left f _)

  short_step :
      (rank : ℕ) (st : LuState)
      → rank < p.l
      → compile_end mat w.n_esi (storage_of p w.n_esi address) rank st
        ≡ some (
          err_insuff_ids,
          (
            record {
              lu = mat;
              n_esi = w.n_esi;
              lu_storage = storage_of p w.n_esi address;
              rowperm = st.rp;
            },
            st.mem,
          ),
        )
  unfolding compile_end
  short_step rank st h = rw (lt→ltb rank p.l h) refl

  -- The loop of asserts after a decomposition of full rank.
  asserts_hold :
      (st : LuState)
      → ((k : ℕ) → k < p.l → st.cp k ≡ k)
      → for_range p.l 0 (λ i m. assert (st.cp i == i) >> some m) st.mem ≡ some st.mem
  asserts_hold st id =
      let (m2, e, same) =
        for_range_start (λ k m. m ≡ st.mem) (λ i m. assert (st.cp i == i) >> some m) p.l st.mem
          (λ k m h s. (m, rw (id k h, ==_self k) refl, s)) refl in
      e ∙ ap some same

  abbrev done : LuState → RqInterProgram
  done st = record {
    lu = record { n_row = p.l; n_col = p.l; rstride = p.l; e = storage_of p w.n_esi address };
    n_esi = w.n_esi;
    lu_storage = storage_of p w.n_esi address;
    rowperm = st.rp;
  }

  full_step :
      (st : LuState)
      → ((k : ℕ) → k < p.l → st.cp k ≡ k)
      → compile_end mat w.n_esi (storage_of p w.n_esi address) p.l st
        ≡ some (success, (done st, st.mem))
  unfolding compile_end
  full_step st id = rw (le→ltb p.l p.l (omega arith), asserts_hold st id, ==_self p.l) refl

  compiled :
      (m1 : Mem) (st : LuState)
      → Filled mat m m1 (all_rows p w.n_esi) (rq_entry p w.n_esi w.esis)
      → Finished mat m1 p.l st
      → ((k : ℕ) → k < p.l → st.cp k ≡ k)
      → Compiled p w address m (done st) st.mem
  compiled m1 st f fin id =
      let d = fin.decomposed in
      record {
        lu = refl;
        ids = refl;
        enough = fin.rows_bound;
        bytes = d.bytes;
        off = λ a away. d.off a away ∙ f.off a away;
        rows_perm = d.rows_perm;
        pivots = d.pivots;
        values = λ x r bx h.
            let in_rows : r < all_rows p w.n_esi = omega (arith, fin.rows_bound) in
            value_vec_ext p.l p.l (el mat st.mem) x (λ k. x (st.cp k)) r
              (λ k l. ap x (sym (id k l))) (omega arith)
            ∙ d.values x r bx in_rows
            ∙ row_from_ext p.l (el mat m1) (rq_entry p w.n_esi w.esis) x x (st.rp r) (st.rp r) 0
                (λ c l u. (f.rows (st.rp r) c (d.rows_perm.inside r in_rows) u, refl));
      }

  insufficient :
      (m1 : Mem) (rank : ℕ) (st : LuState)
      → Filled mat m m1 (all_rows p w.n_esi) (rq_entry p w.n_esi w.esis)
      → Finished mat m1 rank st
      → rank < p.l
      → Insufficient p w
  insufficient m1 rank st f fin low =
      let (z, bz, k, hk, ne, zero_rows) = kernel_lem mat m1 rank st fin low in
      record {
        vec = z;
        small = bz;
        index = k;
        inside = hk;
        nonzero = ne;
        kernel = λ r h.
            row_from_ext p.l (rq_entry p w.n_esi w.esis) (el mat m1) z z r r 0
              (λ c l u. (sym (f.rows r c h u), refl))
            ∙ zero_rows r h;
      }

  -- For valid parameters, fewer than 2^31 rows and enough memory, `RqInterCompile` fails no assert,
  -- so that a decomposition of full rank permutes no columns, and has one of two results. Either it
  -- succeeds: L times U is L rows of the matrix in the order of `rowperm`, and U has no zero on its
  -- diagonal. Or it reports too few identifiers, and the matrix takes a nonzero vector to zero.
  pub rq_inter_compile_lem :
      (prog : RqInterProgram) × (m' : Mem) × (((rq_inter_compile w address size program colperm m
            ≡ some (success, (prog, m')))
          × Compiled p w address m prog m')
        ⊎ ((rq_inter_compile w address size program colperm m ≡ some (err_insuff_ids, (prog, m')))
            × Insufficient p w))
  rq_inter_compile_lem =
      let (m1, e1, f) =
        rq_matrix_generate_lem mat p w.n_esi w.esis m (omega arith) valid
          (omega (arith, valid.padded)) refl bytes in
      let (rank, st, e2, fin) =
        lu_decomp_inplace_lem mat (record { mem = m1; rp = program.rowperm; cp = colperm })
          (omega arith) f.bytes in
      elim (dec_lt rank p.l) [
        | yes low ↦ (
          record {
            lu = mat;
            n_esi = w.n_esi;
            lu_storage = storage_of p w.n_esi address;
            rowperm = st.rp;
          },
          st.mem,
          inr (
            start_step m1 rank st e1 e2 ∙ short_step rank st low,
            insufficient m1 rank st f fin low,
          ),
        )
        | no full ↦
            let e : rank ≡ p.l = omega (arith, fin.cols_bound) in
            let fin' = subst (λ k. Finished mat m1 k st) e fin in
            let id : (k : ℕ) → k < p.l → st.cp k ≡ k = straight st m1 fin' in
            (
              done st,
              st.mem,
              inl (
                start_step m1 rank st e1 e2
                    ∙ ap (λ k. compile_end mat w.n_esi (storage_of p w.n_esi address) k st) e
                    ∙ full_step st id,
                compiled m1 st f fin' id,
              ),
            )
      ]
    where
      straight :
          (st : LuState) (m1 : Mem) → Finished mat m1 p.l st → (k : ℕ) → k < p.l → st.cp k ≡ k
      straight st m1 fin k h = elim fin.decomposed.straight [
        | inl id ↦ id k h
        | inr (q, low, high, zeros) ↦ absurd (omega arith)
      ]
