-- ===== src/Api/Inter/Init.antt =====
-- `RqInterInit` of api/tvrq_api.c: when it succeeds, and with how much room.
use tv_rq.Prelude.{
  ℕ, ◌+◌, ◌-◌, ◌*◌, ◌/◌, ◌^◌, ◌≤◌, ◌<◌, ◌≡◌, refl, subst, ap, ◌∙◌, some, none, arith, leb, true,
  false, le→ltb, lt→ltb, ==_self, Bool-cases, inl, inr,
}
use tv_rq.Prelude.Int.{ℤ, pos}
use tv_rq.Parameters.{Parameters, found, parameters_get}
use tv_rq.Parameters.Get.{parameters_get-found}
use tv_rq.Api.{success, err_enomem, WorkMem}
use tv_rq.Api.Words.{int32_sum, to_int, to_int_small}
use tv_rq.Api.Ids.{Holds, over_lem, fits_lem}
use tv_rq.Api.Inter.{MemSizes, inter_init_with, rq_inter_init, rq_inter_get_mem_sizes}
use tv_rq.Api.Inter.Sizes.{some_sizes, work_size_lem}

init_step :
    (k extra : ℤ) (p : Parameters) (w : WorkMem) (size : ℕ)
    → parameters_get k ≡ found p
    → 52 ≤ size
    → rq_inter_init k extra w size ≡ inter_init_with p k extra w size
unfolding rq_inter_init
init_step k extra p w size e big = rw (le→ltb size 52 big, e, rq_inter_init) refl

-- The work memory that is left behind.
left_by : Parameters → ℕ → ℕ → WorkMem → WorkMem
left_by p room n w = record { params = some p; n_esi_max = pos room; n_esi = n; esis = w.esis }

init_with_fits :
    (p : Parameters) (k extra room : ℕ) (w : WorkMem) (size : ℕ)
    → p.k ≡ k
    → (size - 52) / 4 ≡ room
    → room < 2 ^ 31
    → k + extra ≤ room
    → inter_init_with p (pos k) (pos extra) w size ≡ some (success, left_by p room 0 w)
unfolding inter_init_with left_by
init_with_fits p k extra room w size same quot small fits =
    let converted = ap to_int quot ∙ to_int_small room small in
    rw
      (
        converted,
        same,
        ==_self (k + 0),
        int32_sum k extra (omega arith),
        fits_lem room (k + extra) fits,
      )
      refl

init_with_over :
    (p : Parameters) (k extra room : ℕ) (w : WorkMem) (size : ℕ)
    → p.k ≡ k
    → (size - 52) / 4 ≡ room
    → room < 2 ^ 31
    → k + extra < 2 ^ 31
    → room < k + extra
    → inter_init_with p (pos k) (pos extra) w size ≡ some (err_enomem, left_by p room w.n_esi w)
unfolding inter_init_with left_by
init_with_over p k extra room w size same quot small sum over =
    let converted = ap to_int quot ∙ to_int_small room small in
    rw (converted, same, ==_self (k + 0), int32_sum k extra sum, over_lem room (k + extra) over)
      refl

init_short :
    (k extra : ℤ) (w : WorkMem) (size : ℕ)
    → size < 52
    → rq_inter_init k extra w size ≡ some (err_enomem, w)
unfolding rq_inter_init
init_short k extra w size h = rw (lt→ltb size 52 h) refl

-- For K from 1 to 56403, at most 2^30 more symbols and less than 2^33 bytes, `RqInterInit` succeeds
-- just when the bytes hold the header and K + nMaxExtra identifiers, and fails with RQ_ERR_ENOMEM
-- otherwise; no assert fails. On success the work memory has the parameters for K, no identifiers,
-- and room for as many as there are bytes for.
pub rq_inter_init_lem :
    (k extra size : ℕ) (w : WorkMem)
    → 1 ≤ k
    → k ≤ 56403
    → extra ≤ 2 ^ 30
    → size < 2 ^ 33
    → (p : Parameters) × (parameters_get (pos k) ≡ found p)
      × (52 + 4 * (k + extra) ≤ size
          → (w' : WorkMem) × (rq_inter_init (pos k) (pos extra) w size ≡ some (success, w'))
            × (w'.params ≡ some p)
            × (w'.n_esi ≡ 0)
            × Holds w' ((size - 52) / 4))
      × (size < 52 + 4 * (k + extra)
          → (w' : WorkMem) × (rq_inter_init (pos k) (pos extra) w size ≡ some (err_enomem, w')))
unfolding left_by
rq_inter_init_lem k extra size w low high few large =
    let (p, got, valid, same, _, _) = parameters_get-found k low high in
    (
      p,
      got,
      λ fits.
          let room : (size - 52) / 4 < 2 ^ 31 = omega arith in
          (
            left_by p ((size - 52) / 4) 0 w,
            init_step (pos k) (pos extra) p w size got (omega arith)
                ∙ init_with_fits p k extra ((size - 52) / 4) w size same refl room (omega arith),
            refl,
            refl,
            record { room = refl; inside = omega arith; max_int = room },
          ),
      λ over. elim (Bool-cases (leb 52 size)) [
        | inl header ↦ (
          left_by p ((size - 52) / 4) w.n_esi w,
          init_step (pos k) (pos extra) p w size got (ground arith)
              ∙ init_with_over p k extra ((size - 52) / 4) w size same refl (omega arith)
                  (omega arith) (omega arith),
        )
        | inr short ↦ (w, init_short (pos k) (pos extra) w size (ground arith))
      ],
    )

-- Memory of the size that `RqInterGetMemSizes` asks for, for at most `max_k` symbols, is enough for
-- `RqInterInit` with any number of symbols from 1 to `max_k`, and leaves room for the K' of `max_k`
-- and the nMaxExtra more.
pub rq_inter_init-sizes :
    (max_k k extra : ℕ) (w : WorkMem)
    → 1 ≤ k
    → k ≤ max_k
    → max_k ≤ 56403
    → extra ≤ 2 ^ 30
    → (p : Parameters) × (parameters_get (pos max_k) ≡ found p)
      × (sizes : MemSizes) × (rq_inter_get_mem_sizes (pos max_k) (pos extra) true false true
          ≡ some (success, sizes))
      × (size : ℕ) × (sizes.work ≡ some size)
      × (w' : WorkMem) × (rq_inter_init (pos k) (pos extra) w size ≡ some (success, w'))
      × (w'.n_esi ≡ 0)
      × Holds w' (extra + p.kprime)
unfolding some_sizes
rq_inter_init-sizes max_k k extra w low below high few =
    let (p, got, valid, same, _, _) = parameters_get-found max_k (omega arith) high in
    let (q, _, init, _) =
      rq_inter_init_lem k extra (52 + 4 * (extra + p.kprime)) w low (omega arith) few
        (omega (arith, valid.kprime_max)) in
    let (w', run, _, empty, holds) = init (omega (arith, valid.padded, same)) in
    (
      p,
      got,
      some_sizes p extra none,
      work_size_lem max_k extra p valid got few,
      52 + 4 * (extra + p.kprime),
      refl,
      w',
      run,
      empty,
      subst (Holds w') (omega arith) holds,
    )
