-- ===== src/Api/Examples.antt =====
-- Runs of the calls of api/tvrq_api.c, and their theorems at concrete memories.
use tv_rq.Prelude.{
  Bool, ℕ, ◌+◌, ◌-◌, ◌*◌, ◌/◌, ◌^◌, ◌≤◌, ◌<◌, ◌≡◌, refl, some, none, arith, min, leb, if◌then◌else◌,
}
use tv_rq.Prelude.Int.{pos}
use tv_rq.Parameters.{Parameters, found, parameters_get, first_set, complete}
use tv_rq.Parameters.Sets.{base_param_sets}
use tv_rq.Parameters.Primes.{nextprime}
use tv_rq.Parameters.Valid.{IsValid}
use tv_rq.Api.{WorkMem, success, err_enomem, err_max_ids_reached}
use tv_rq.Api.Ids.{Holds, Appended}
use tv_rq.Api.Inter.{
  MemSizes, inter_sizes, program_size, rq_inter_get_mem_sizes, rq_inter_init, rq_inter_add_ids,
}
use tv_rq.Api.Inter.Sizes.{rq_inter_get_mem_sizes_lem}
use tv_rq.Api.Inter.Init.{rq_inter_init_lem, rq_inter_init-sizes}
use tv_rq.Api.Inter.Append.{rq_inter_add_ids_lem}
use tv_rq.Api.Out.{rq_out_get_mem_sizes, rq_out_init, rq_out_add_ids}
use tv_rq.Api.Out.Append.{rq_out_add_ids_lem}
use tv_rq.Api.Out.Program.{rq_out_init-sizes}

-- Room for three identifiers, with one of them in use.
abbrev one_of_three : WorkMem
one_of_three = record { params = none; n_esi_max = pos 3; n_esi = 1; esis = λ j. 7 }

one_of_three-Holds : Holds one_of_three 3
one_of_three-Holds = record { room = refl; inside = omega arith; max_int = omega arith }

-- The greatest K: the matrix has more than 2^31 elements.
get_mem_sizes_overflow :
    rq_inter_get_mem_sizes (pos 56403) (pos 0) Bool.true Bool.true Bool.true ≡ none
unfolding rq_inter_get_mem_sizes parameters_get first_set complete base_param_sets nextprime
    inter_sizes program_size
get_mem_sizes_overflow = refl

rq_inter_get_mem_sizes_lem_example :
    (p : Parameters) × (parameters_get (pos 100) ≡ found p)
    × IsValid p
    × ((5 + p.kprime + (p.s + p.h)) * p.l < 2 ^ 31
        → rq_inter_get_mem_sizes (pos 100) (pos 5) Bool.true Bool.true Bool.true
          ≡ some (
            success,
            record {
              work = some (52 + 4 * (5 + p.kprime));
              prog =
                  some (40 + 4 * (5 + p.kprime + (p.s + p.h)) + (5 + p.kprime + (p.s + p.h)) * p.l);
              sym_num = some p.l;
            },
          ))
    × (2 ^ 31 ≤ (5 + p.kprime + (p.s + p.h)) * p.l
        → rq_inter_get_mem_sizes (pos 100) (pos 5) Bool.true Bool.true Bool.true ≡ none)
rq_inter_get_mem_sizes_lem_example =
    rq_inter_get_mem_sizes_lem 100 5 (omega arith) (omega arith) (omega arith)

rq_inter_init_lem_example :
    (p : Parameters) × (parameters_get (pos 10) ≡ found p)
    × (52 + 4 * (10 + 2) ≤ 100
        → (w' : WorkMem) × (rq_inter_init (pos 10) (pos 2) one_of_three 100 ≡ some (success, w'))
          × (w'.params ≡ some p)
          × (w'.n_esi ≡ 0)
          × Holds w' ((100 - 52) / 4))
    × (100 < 52 + 4 * (10 + 2)
        → (w' : WorkMem) × (rq_inter_init (pos 10) (pos 2) one_of_three 100
            ≡ some (err_enomem, w')))
rq_inter_init_lem_example =
    rq_inter_init_lem 10 2 100 one_of_three (omega arith) (omega arith) (omega arith) (omega arith)

rq_inter_init-sizes_example :
    (p : Parameters) × (parameters_get (pos 20) ≡ found p)
    × (sizes : MemSizes) × (rq_inter_get_mem_sizes (pos 20) (pos 2) Bool.true Bool.false Bool.true
        ≡ some (success, sizes))
    × (size : ℕ) × (sizes.work ≡ some size)
    × (w' : WorkMem) × (rq_inter_init (pos 11) (pos 2) one_of_three size ≡ some (success, w'))
    × (w'.n_esi ≡ 0)
    × Holds w' (2 + p.kprime)
rq_inter_init-sizes_example =
    rq_inter_init-sizes 20 11 2 one_of_three (omega arith) (omega arith) (omega arith) (omega arith)

rq_inter_add_ids_lem_example :
    (w' : WorkMem) × (rq_inter_add_ids one_of_three (pos 40) (pos 5)
      ≡ some (if leb (1 + 5) 3 then success else err_max_ids_reached, w'))
    × Appended one_of_three w' 40 (min 5 (3 - 1))
    × Holds w' 3
rq_inter_add_ids_lem_example =
    rq_inter_add_ids_lem one_of_three 3 40 (pos 5) one_of_three-Holds (omega arith) (omega arith)
      (omega arith)

rq_out_add_ids_lem_example :
    (w' : WorkMem) × (rq_out_add_ids one_of_three (pos 40) (pos 2)
      ≡ some (if leb (1 + 2) 3 then success else err_max_ids_reached, w'))
    × Appended one_of_three w' 40 (min 2 (3 - 1))
    × Holds w' 3
rq_out_add_ids_lem_example =
    rq_out_add_ids_lem one_of_three 3 40 (pos 2) one_of_three-Holds (omega arith) (omega arith)
      (omega arith)

rq_out_init-sizes_example :
    (p : Parameters) × (parameters_get (pos 10) ≡ found p)
    × (size : ℕ) × (rq_out_get_mem_sizes (pos 5) ≡ (success, size))
    × (w' : WorkMem) × (rq_out_init (pos 10) one_of_three size ≡ some (success, w'))
    × (w'.params ≡ some p)
    × (w'.n_esi ≡ 0)
    × Holds w' 5
rq_out_init-sizes_example =
    rq_out_init-sizes 10 5 one_of_three (omega arith) (omega arith) (omega arith)
