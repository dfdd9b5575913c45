-- ===== src/Api/Execute.antt =====
-- `RqOutExecute` of api/tvrq_api.c: output symbols from the intermediate symbols.
pub mod Sum
pub mod Symbol
pub mod Run
pub mod Compiled
mod Examples
use tv_rq.Prelude.{ℕ, ◌*◌, ◌%◌, ◌^◌, Option, none, some, ltb, if◌then◌else◌, ◌>>=◌}
use tv_rq.Memory.{Mem, for_range}
use tv_rq.Parameters.{Parameters}
use tv_rq.Tuple.{tuple_generate_from_esi}
use tv_rq.M256v.{M256v, m256v_make, copy_row, multadd_row}
use tv_rq.Lt.{walk}
use tv_rq.Api.{Status, success, err_enomem}
use tv_rq.Api.Words.{width}
use tv_rq.Api.Out.{RqOutProgram}

-- One round of the loop over the symbols: the `i`-th, into row `i` of `o`.
unfoldable pub out_symbol : M256v → M256v → Parameters → Mem → ℕ → Mem → Option Mem
out_symbol im o p esis i m = tuple_generate_from_esi (esis i) p >>= λ t.
    walk (λ c. multadd_row im c 1 o i) t p (λ c. copy_row im c o i) m

-- `RqOutExecute`, with the addresses of the intermediate and the output symbols and the memory. A
-- program whose K is -1 has no behaviour here. The first symbol fails an assert of `m256v_multadd_row`
-- when the symbol size is negative as an `int`; without symbols the call succeeds.
unfoldable pub rq_out_execute : RqOutProgram → ℕ → ℕ → ℕ → ℕ → Mem → Option (Status × Mem)
rq_out_execute program sym_size inter_sym_mem out_sym_mem out_sym_mem_size m =
    if ltb out_sym_mem_size (program.n_esi * sym_size % 2 ^ 64)
    then some (err_enomem, m)
    else program.params >>= λ p.
        for_range program.n_esi 0
          (λ i m. width sym_size >>= λ n_col.
            out_symbol (m256v_make p.l n_col inter_sym_mem)
              (m256v_make program.n_esi n_col out_sym_mem) p program.esis i m)
          m
        >>= λ m'. some (success, m')
