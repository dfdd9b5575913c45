-- ===== src/Api/Inter.antt =====
-- The calls of api/tvrq_api.c that prepare the intermediate block.
pub mod Sizes
pub mod Append
pub mod Init
use tv_rq.Prelude.{
  ℕ, ◌+◌, ◌-◌, ◌*◌, ◌/◌, ◌%◌, ◌^◌, Bool, Option, none, some, ltb, ◌==◌, if◌then◌else◌, ◌>>=◌, ◌>>◌,
  assert,
}
use tv_rq.Prelude.Int.{ℤ, pos, ◌+ℤ◌, ◌-ℤ◌, ltb_ℤ, eqb_ℤ}
use tv_rq.Parameters.{Parameters, found, unsupported, aborted, parameters_get}
use tv_rq.Api.{Status, success, err_enomem, err_edom, err_max_ids_reached, WorkMem, push_ids}
use tv_rq.Api.Words.{int32, to_int, to_size, scale}

-- `sizeof` of the two structs: eleven `int`s of parameters and two more, and a matrix view of 24
-- bytes, a pointer and an `int`, padded to a multiple of 8.
abbrev pub sizeof_inter_work_mem : ℕ
sizeof_inter_work_mem = 52

abbrev pub sizeof_inter_program : ℕ
sizeof_inter_program = 40

-- What is written through the pointers of `RqInterGetMemSizes`, `none` where nothing is.
pub record MemSizes : Type 0 where
  pub work : Option ℕ
  pub prog : Option ℕ
  pub sym_num : Option ℕ

-- The program's size, where it is asked for.
unfoldable pub program_size : Parameters → ℤ → Bool → Option (Option ℕ)
program_size p rows Bool.false = some none
program_size p rows Bool.true = int32 (scale rows p.l) >>= λ cells.
    some (some ((sizeof_inter_program + 4 * to_size rows + to_size cells) % 2 ^ 64))

-- The rest of `RqInterGetMemSizes` for the parameters found.
unfoldable pub inter_sizes : Parameters → ℤ → Bool → Bool → Bool → Option (Status × MemSizes)
inter_sizes p n_max_extra work prog sym_num = int32 (n_max_extra +ℤ pos p.kprime) >>= λ isi.
    int32 (isi +ℤ pos (p.s + p.h)) >>= λ rows. program_size p rows prog >>= λ program. some (
      success,
      record {
        work = if work then some ((sizeof_inter_work_mem + to_size isi * 4) % 2 ^ 64) else none;
        prog = program;
        sym_num = if sym_num then some p.l else none;
      },
    )

-- `RqInterGetMemSizes`; the three tests say which of the pointers are not NULL.
unfoldable pub rq_inter_get_mem_sizes : ℤ → ℤ → Bool → Bool → Bool → Option (Status × MemSizes)
rq_inter_get_mem_sizes n_max_k n_max_extra work prog sym_num = elim (parameters_get n_max_k) [
  | found p ↦ inter_sizes p n_max_extra work prog sym_num
  | unsupported ↦ some (err_edom, record { work = none; prog = none; sym_num = none })
  | aborted ↦ none
]

-- The rest of `RqInterInit` for the parameters found.
unfoldable pub inter_init_with : Parameters → ℤ → ℤ → WorkMem → ℕ → Option (Status × WorkMem)
inter_init_with p n_k n_max_extra w size =
    let n_esi_max = to_int ((size - sizeof_inter_work_mem) / 4) in
    assert (eqb_ℤ (pos p.k) n_k)
    >> (int32 (n_k +ℤ n_max_extra) >>= λ needed.
        if ltb_ℤ n_esi_max needed
        then some (
          err_enomem,
          record { params = some p; n_esi_max = n_esi_max; n_esi = w.n_esi; esis = w.esis },
        )
        else some
            (success, record { params = some p; n_esi_max = n_esi_max; n_esi = 0; esis = w.esis }))

-- `RqInterInit`, with the work memory before and its size.
unfoldable pub rq_inter_init : ℤ → ℤ → WorkMem → ℕ → Option (Status × WorkMem)
rq_inter_init n_k n_max_extra w size =
    if ltb size sizeof_inter_work_mem then some (err_enomem, w) else elim (parameters_get n_k) [
      | found p ↦ inter_init_with p n_k n_max_extra w size
      | unsupported ↦ some (
        err_edom,
        record { params = none; n_esi_max = w.n_esi_max; n_esi = w.n_esi; esis = w.esis },
      )
      | aborted ↦ none
    ]

-- `RqInterAddIds`.
unfoldable pub rq_inter_add_ids : WorkMem → ℤ → ℤ → Option (Status × WorkMem)
rq_inter_add_ids w beg add = int32 (pos w.n_esi +ℤ add) >>= λ total.
    if ltb_ℤ w.n_esi_max total
    then push_ids beg (w.n_esi_max -ℤ pos w.n_esi) err_max_ids_reached w
    else push_ids beg add success w
