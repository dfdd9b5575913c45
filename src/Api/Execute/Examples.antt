-- ===== src/Api/Execute/Examples.antt =====
-- `RqOutExecute` of api/tvrq_api.c on a program for two symbols.
use tv_rq.Prelude.{ℕ, ◌+◌, ◌*◌, ◌<◌, ◌≤◌, ◌≡◌, none, some}
use tv_rq.Prelude.Int.{pos}
use tv_rq.Memory.{Mem}
use tv_rq.Parameters.Examples.{ten}
use tv_rq.Api.{WorkMem, success, err_enomem}
use tv_rq.Api.Out.{rq_out_compile}
use tv_rq.Api.Execute.{rq_out_execute}
use tv_rq.Api.Execute.Compiled.{rq_out_compile-rq_out_execute}

abbrev two_symbols : WorkMem
two_symbols = record { params = some ten; n_esi_max = pos 2; n_esi = 2; esis = λ i. i + 9 }

abbrev all_fives : Mem
all_fives x = 5

abbrev old_program : WorkMem
old_program = record { params = none; n_esi_max = pos 7; n_esi = 6; esis = λ i. 77 }

rq_out_compile-rq_out_execute_example :
    ((program' : WorkMem) × (rq_out_compile two_symbols 60 old_program ≡ some (success, program'))
      × (program'.params ≡ some ten)
      × (program'.n_esi ≡ 2)
      × (program'.n_esi_max ≡ pos 2)
      × ((i : ℕ) → i < 2 → program'.esis i ≡ i + 9)
      × ((i : ℕ) → 2 ≤ i → program'.esis i ≡ 77)
      × ((sym_size inter out size : ℕ) (m : Mem)
          → rq_out_execute program' sym_size inter out size m
            ≡ rq_out_execute two_symbols sym_size inter out size m))
    × ((size : ℕ)
        → 52 + 2 * 4 < size
        → rq_out_compile two_symbols size old_program ≡ some (err_enomem, old_program))
    × ((size : ℕ) → size < 52 + 2 * 4 → rq_out_compile two_symbols size old_program ≡ none)
rq_out_compile-rq_out_execute_example = rq_out_compile-rq_out_execute two_symbols old_program
