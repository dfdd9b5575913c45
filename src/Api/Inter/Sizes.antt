-- ===== src/Api/Inter/Sizes.antt =====
-- The memory sizes that `RqInterGetMemSizes` of api/tvrq_api.c asks for.
use tv_rq.Prelude.{
  ℕ, ◌+◌, ◌*◌, ◌%◌, ◌^◌, ◌≤◌, ◌<◌, ◌≡◌, refl, ap, ◌∙◌, some, none, arith, ◌>>=◌, Option, true,
  false, Bool, le→ltb,
}
use tv_rq.Prelude.Int.{ℤ, pos}
use tv_rq.Parameters.{Parameters, found, parameters_get}
use tv_rq.Parameters.Valid.{IsValid}
use tv_rq.Parameters.Get.{parameters_get-found}
use tv_rq.Api.{Status, success}
use tv_rq.Api.Words.{int32_sum, int32_pos}
use tv_rq.Api.Inter.{MemSizes, program_size, inter_sizes, rq_inter_get_mem_sizes}

get_step :
    (k : ℤ) (p : Parameters) (extra : ℤ) (work prog sym_num : Bool)
    → parameters_get k ≡ found p
    → rq_inter_get_mem_sizes k extra work prog sym_num ≡ inter_sizes p extra work prog sym_num
unfolding rq_inter_get_mem_sizes
get_step k p extra work prog sym_num e = rw (e, rq_inter_get_mem_sizes) refl

work_bytes : (x : ℕ) → x < 2 ^ 31 → (52 + x % 2 ^ 64 * 4) % 2 ^ 64 ≡ 52 + 4 * x
work_bytes x h = omega arith

program_bytes :
    (x y : ℕ)
    → x < 2 ^ 31
    → y < 2 ^ 31
    → (40 + 4 * (x % 2 ^ 64) + y % 2 ^ 64) % 2 ^ 64 ≡ 40 + 4 * x + y
program_bytes x y h l = omega arith

-- The sizes for the parameters, with the program's.
unfoldable pub some_sizes : Parameters → ℕ → Option ℕ → MemSizes
some_sizes p extra prog = record {
  work = some (52 + 4 * (extra + p.kprime));
  prog = prog;
  sym_num = some p.l;
}

inter_sizes_lem :
    (p : Parameters) (extra : ℕ) (prog : Bool)
    → extra + p.kprime + (p.s + p.h) < 2 ^ 31
    → inter_sizes p (pos extra) true prog true ≡ (
        program_size p (pos (extra + p.kprime + (p.s + p.h))) prog >>= λ size.
        some (success, some_sizes p extra size))
unfolding inter_sizes some_sizes
inter_sizes_lem p extra prog h =
    rw
      (
        int32_sum extra p.kprime (omega arith),
        int32_sum (extra + p.kprime) (p.s + p.h) h,
        work_bytes (extra + p.kprime) (omega arith),
      )
      refl

program_size_fits :
    (p : Parameters) (rows : ℕ)
    → rows < 2 ^ 31
    → rows * p.l < 2 ^ 31
    → program_size p (pos rows) true ≡ some (some (40 + 4 * rows + rows * p.l))
unfolding program_size
program_size_fits p rows r h =
    rw (int32_pos (rows * p.l) h, program_bytes rows (rows * p.l) r h) refl

program_size_over :
    (p : Parameters) (rows : ℕ) → 2 ^ 31 ≤ rows * p.l → program_size p (pos rows) true ≡ none
unfolding program_size
program_size_over p rows h = rw (le→ltb (rows * p.l) (2 ^ 31) h) refl

-- For K from 1 to 56403 and at most 2^30 more symbols `RqInterGetMemSizes` asks for 52 bytes and 4
-- for each of the K' + nMaxExtra identifiers, for L intermediate symbols, and for a program of 40
-- bytes, 4 for each row of the matrix and one for each of its elements. If the matrix has 2^31
-- elements or more, their number overflows an `int`, and the result is undefined.
pub rq_inter_get_mem_sizes_lem :
    (k extra : ℕ)
    → 1 ≤ k
    → k ≤ 56403
    → extra ≤ 2 ^ 30
    → (p : Parameters) × (parameters_get (pos k) ≡ found p)
      × IsValid p
      × ((extra + p.kprime + (p.s + p.h)) * p.l < 2 ^ 31
          → rq_inter_get_mem_sizes (pos k) (pos extra) true true true
            ≡ some (
              success,
              record {
                work = some (52 + 4 * (extra + p.kprime));
                prog = some (
                    40
                    + 4 * (extra + p.kprime + (p.s + p.h))
                    + (extra + p.kprime + (p.s + p.h)) * p.l);
                sym_num = some p.l;
              },
            ))
      × (2 ^ 31 ≤ (extra + p.kprime + (p.s + p.h)) * p.l
          → rq_inter_get_mem_sizes (pos k) (pos extra) true true true ≡ none)
unfolding some_sizes
rq_inter_get_mem_sizes_lem k extra low high few =
    let (p, got, valid, _, _, _) = parameters_get-found k low high in
    let rows = extra + p.kprime + (p.s + p.h) in
    let fits : rows < 2 ^ 31 = omega (arith, valid.kprime_max, valid.s_max, valid.h_max) in
    let step =
      get_step (pos k) p (pos extra) true true true got ∙ inter_sizes_lem p extra true fits in
    let rest : Option (Option ℕ) → Option (Status × MemSizes) =
      λ o. o >>= λ size. some (success, some_sizes p extra size) in
    (
      p,
      got,
      valid,
      λ h. step ∙ ap rest (program_size_fits p rows fits h),
      λ h. step ∙ ap rest (program_size_over p rows h),
    )

-- Without the program's size there is no overflow.
pub work_size_lem :
    (k extra : ℕ) (p : Parameters)
    → IsValid p
    → parameters_get (pos k) ≡ found p
    → extra ≤ 2 ^ 30
    → rq_inter_get_mem_sizes (pos k) (pos extra) true false true
      ≡ some (success, some_sizes p extra none)
unfolding program_size
work_size_lem k extra p valid got few =
    get_step (pos k) p (pos extra) true false true got
    ∙ inter_sizes_lem p extra false (omega (arith, valid.kprime_max, valid.s_max, valid.h_max))
