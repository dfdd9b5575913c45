-- ===== src/Api/Compile.antt =====
-- `RqInterCompile` of api/tvrq_api.c: the matrix for the identifiers that were added, decomposed.
pub mod Program
use tv_rq.Prelude.{
  ℕ, ◌+◌, ◌-◌, ◌*◌, ◌%◌, ◌^◌, Option, some, ltb, ◌==◌, if◌then◌else◌, assert, ◌>>=◌, ◌>>◌,
}
use tv_rq.Prelude.Int.{pos}
use tv_rq.Memory.{Mem, for_range}
use tv_rq.Parameters.{Parameters}
use tv_rq.M256v.{M256v, m256v_make}
use tv_rq.Lu.{LuState, lu_decomp_inplace}
use tv_rq.RqMatrix.{rq_matrix_generate}
use tv_rq.Api.{Status, success, err_enomem, err_insuff_ids, WorkMem}
use tv_rq.Api.Words.{int32}
use tv_rq.Api.Inter.{sizeof_inter_program}

-- `RqInterProgram`. The elements of `lu` are in the memory, from `lu_storage` on; `rowperm` is the
-- array at the end of the struct.
pub record RqInterProgram : Type 0 where
  pub lu : M256v
  pub n_esi : ℕ
  pub lu_storage : ℕ
  pub rowperm : ℕ → ℕ

-- The number of rows of the matrix, `none` on overflow; the sums between these two are no greater.
unfoldable pub inter_rows : Parameters → ℕ → Option ℕ
inter_rows p n_esi =
    int32 (pos (n_esi + p.kprime))
    >> (int32 (pos (n_esi + p.kprime - p.k + p.s + p.h))
        >> some (n_esi + p.kprime - p.k + p.s + p.h))

-- The bytes that a program of that many rows and columns takes.
unfoldable pub mem_needed : ℕ → ℕ → ℕ
mem_needed n_rows n_cols = (sizeof_inter_program + 4 * n_rows + n_rows * n_cols) % 2 ^ 64

-- The end of `RqInterCompile`, from the test of the rank on.
unfoldable pub compile_end : M256v → ℕ → ℕ → ℕ → LuState → Option (Status × (RqInterProgram × Mem))
compile_end lu n_esi storage rank st =
    if ltb rank lu.n_col
    then some (
      err_insuff_ids,
      (record { lu = lu; n_esi = n_esi; lu_storage = storage; rowperm = st.rp }, st.mem),
    )
    else (for_range lu.n_col 0 (λ i m. assert (st.cp i == i) >> some m) st.mem >>= λ m.
        assert (rank == lu.n_col)
        >> some (
          success,
          (
            record {
              lu = record { n_row = rank; n_col = lu.n_col; rstride = lu.rstride; e = lu.e };
              n_esi = n_esi;
              lu_storage = storage;
              rowperm = st.rp;
            },
            m,
          ),
        ))

-- `RqInterCompile`, with the program's address, its size, the program before, and what the array
-- `colperm` holds before. Work memory whose K is -1 has no behaviour here.
unfoldable pub rq_inter_compile :
    WorkMem → ℕ → ℕ → RqInterProgram → (ℕ → ℕ) → Mem → Option (Status × (RqInterProgram × Mem))
rq_inter_compile w address size program colperm m = w.params >>= λ p.
    inter_rows p w.n_esi >>= λ n_rows.
    if ltb size (mem_needed n_rows p.l)
    then some (err_enomem, (program, m))
    else let storage = address + sizeof_inter_program + 4 * n_rows in
      let lu = m256v_make n_rows p.l storage in
      (rq_matrix_generate lu p w.n_esi w.esis m >>= λ m1.
      lu_decomp_inplace lu (record { mem = m1; rp = program.rowperm; cp = colperm })
      >>= λ (rank, st). compile_end lu w.n_esi storage rank st)
