-- ===== src/Api/Out/Program.antt =====
-- The memory of the output calls of api/tvrq_api.c.
use tv_rq.Prelude.{
  ℕ, ◌+◌, ◌-◌, ◌*◌, ◌/◌, ◌%◌, ◌^◌, ◌≤◌, ◌<◌, ◌≡◌, refl, ap, ◌∙◌, some, arith, le→ltb,
}
use tv_rq.Prelude.Int.{ℤ, pos}
use tv_rq.Parameters.{Parameters, found, parameters_get}
use tv_rq.Parameters.Get.{parameters_get-found}
use tv_rq.Api.{success, WorkMem}
use tv_rq.Api.Words.{to_int, to_int_small}
use tv_rq.Api.Ids.{Holds}
use tv_rq.Api.Out.{rq_out_get_mem_sizes, rq_out_init}

out_init_step :
    (k : ℤ) (p : Parameters) (w : WorkMem) (size : ℕ)
    → parameters_get k ≡ found p
    → 52 ≤ size
    → rq_out_init k w size
      ≡ some (
        success,
        record { params = some p; n_esi_max = to_int ((size - 52) / 4); n_esi = 0; esis = w.esis },
      )
unfolding rq_out_init
out_init_step k p w size e big = rw (le→ltb size 52 big, e, rq_out_init) refl

-- Memory of the size that `RqOutGetMemSizes` asks for, for less than 2^31 symbols, is enough for
-- `RqOutInit` with K from 1 to 56403, and has room for exactly these symbols.
pub rq_out_init-sizes :
    (k n : ℕ) (w : WorkMem)
    → 1 ≤ k
    → k ≤ 56403
    → n < 2 ^ 31
    → (p : Parameters) × (parameters_get (pos k) ≡ found p)
      × (size : ℕ) × (rq_out_get_mem_sizes (pos n) ≡ (success, size))
      × (w' : WorkMem) × (rq_out_init (pos k) w size ≡ some (success, w'))
      × (w'.params ≡ some p)
      × (w'.n_esi ≡ 0)
      × Holds w' n
unfolding rq_out_get_mem_sizes
rq_out_init-sizes k n w low high few =
    let (p, got, _, _, _, _) = parameters_get-found k low high in
    let size = (52 + n % 2 ^ 64 * 4) % 2 ^ 64 in
    let room : (size - 52) / 4 ≡ n = omega arith in
    (
      p,
      got,
      size,
      refl,
      _,
      out_init_step (pos k) p w size got (omega arith),
      refl,
      refl,
      record { room = ap to_int room ∙ to_int_small n few; inside = omega arith; max_int = few },
    )
