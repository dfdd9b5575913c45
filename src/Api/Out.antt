-- ===== src/Api/Out.antt =====
-- The calls of api/tvrq_api.c that prepare the output of symbols.
pub mod Append
pub mod Program
use tv_rq.Prelude.{ℕ, ◌+◌, ◌-◌, ◌*◌, ◌/◌, ◌%◌, ◌^◌, Option, none, some, ltb, if◌then◌else◌, ◌>>=◌}
use tv_rq.Prelude.Int.{ℤ, pos, ◌+ℤ◌, ◌-ℤ◌, ltb_ℤ}
use tv_rq.Parameters.{Parameters, found, unsupported, aborted, parameters_get}
use tv_rq.Api.{Status, success, err_enomem, err_edom, err_max_ids_reached, WorkMem, push_ids}
use tv_rq.Api.Words.{int32, to_int, to_size}

-- `sizeof` of `RqOutWorkMem` and `RqOutProgram`, which a static assert keeps equal.
abbrev pub sizeof_out_work_mem : ℕ
sizeof_out_work_mem = 52

-- `RqOutWorkMem`, and `RqOutProgram`, which is declared with the same layout.
abbrev pub RqOutWorkMem : Type 0
RqOutWorkMem = WorkMem

abbrev pub RqOutProgram : Type 0
RqOutProgram = WorkMem

-- `RqOutGetMemSizes`: the size written through each of the two pointers.
unfoldable pub rq_out_get_mem_sizes : ℤ → Status × ℕ
rq_out_get_mem_sizes n_out_sym_num =
    (success, (sizeof_out_work_mem + to_size n_out_sym_num * 4) % 2 ^ 64)

-- `RqOutInit`, with the work memory before and its size.
unfoldable pub rq_out_init : ℤ → RqOutWorkMem → ℕ → Option (Status × RqOutWorkMem)
rq_out_init n_k w size =
    if ltb size sizeof_out_work_mem then some (err_enomem, w) else elim (parameters_get n_k) [
      | found p ↦ some (
        success,
        record {
          params = some p;
          n_esi_max = to_int ((size - sizeof_out_work_mem) / 4);
          n_esi = 0;
          esis = w.esis;
        },
      )
      | unsupported ↦ some (
        err_edom,
        record { params = none; n_esi_max = w.n_esi_max; n_esi = w.n_esi; esis = w.esis },
      )
      | aborted ↦ none
    ]

-- `RqOutAddIds`.
unfoldable pub rq_out_add_ids : RqOutWorkMem → ℤ → ℤ → Option (Status × RqOutWorkMem)
rq_out_add_ids w beg add = int32 (pos w.n_esi +ℤ add) >>= λ total.
    if ltb_ℤ w.n_esi_max total
    then push_ids beg (w.n_esi_max -ℤ pos w.n_esi) err_max_ids_reached w
    else push_ids beg add success w

-- `memcpy` of the `n` first bytes of the work memory, which are at least those of the header, into the
-- memory of a program of `size` bytes: `none` where it writes behind these. Each identifier is four
-- bytes; those that are not copied stay as they were.
unfoldable pub copy_program : RqOutWorkMem → ℕ → ℕ → RqOutProgram → Option RqOutProgram
copy_program w n size program =
    if ltb size n
    then none
    else some record {
      params = w.params;
      n_esi_max = w.n_esi_max;
      n_esi = w.n_esi;
      esis = λ i. if ltb i ((n - sizeof_out_work_mem) / 4) then w.esis i else program.esis i;
    }

-- `RqOutCompile`, with the program's memory before and its size.
unfoldable pub rq_out_compile : RqOutWorkMem → ℕ → RqOutProgram → Option (Status × RqOutProgram)
rq_out_compile w size program =
    let sz = sizeof_out_work_mem + w.n_esi * 4 in
    if ltb sz size
    then some (err_enomem, program)
    else copy_program w sz size program >>= λ program. some (success, program)
