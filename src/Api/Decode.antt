-- ===== src/Api/Decode.antt =====
-- `RqInterExecute` of api/tvrq_api.c: the intermediate symbols from the symbols received.
pub mod Run
pub mod Equations
pub mod Recover
mod Examples
use tv_rq.Prelude.{ℕ, ◌*◌, ◌%◌, ◌^◌, Option, none, some, ltb, leb, if◌then◌else◌, ◌>>=◌}
use tv_rq.Memory.{Mem, for_range}
use tv_rq.M256v.{M256v, m256v_make, clear_row, copy_row}
use tv_rq.Lu.{lu_invmult_inplace}
use tv_rq.Api.{Status, success, err_enomem}
use tv_rq.Api.Words.{width}
use tv_rq.Api.Compile.{RqInterProgram}

-- One round of the loop that moves the data into `ib`.
unfoldable pub load_row : RqInterProgram → M256v → M256v → ℕ → Mem → Option Mem
load_row program y ib i m =
    let l = program.rowperm i in
    if leb program.n_esi l then clear_row ib i m else copy_row y l ib i m

-- `RqInterExecute`, with the addresses of the symbols and of the intermediate block, the block's size,
-- and the address of the buffer that `permute_rows` would use. A symbol size that is negative as an `int`
-- fails an assert in `m256v_LU_invmult_inplace`, whatever the loop before it does.
unfoldable pub rq_inter_execute : RqInterProgram → ℕ → ℕ → ℕ → ℕ → ℕ → Mem → Option (Status × Mem)
rq_inter_execute program sym_size in_sym_mem inter_sym_mem inter_sym_mem_size rowbuf m =
    if ltb inter_sym_mem_size (program.lu.n_col * sym_size % 2 ^ 64)
    then some (err_enomem, m)
    else (width sym_size >>= λ n_col.
        let ib = m256v_make program.lu.n_col n_col inter_sym_mem in
        let y = m256v_make program.n_esi n_col in_sym_mem in
        for_range program.lu.n_row 0 (load_row program y ib) m >>= λ m1.
        lu_invmult_inplace program.lu none none none ib rowbuf m1 >>= λ m2. some (success, m2))
