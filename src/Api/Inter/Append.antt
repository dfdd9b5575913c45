-- ===== src/Api/Inter/Append.antt =====
-- What `RqInterAddIds` of api/tvrq_api.c appends.
use tv_rq.Prelude.{ℕ, ◌+◌, ◌-◌, ◌^◌, ◌≤◌, ◌<◌, ◌≡◌, some, min, leb, if◌then◌else◌}
use tv_rq.Prelude.Int.{ℤ, pos, pos_part, neg_part}
use tv_rq.Api.{WorkMem, success, err_max_ids_reached}
use tv_rq.Api.Ids.{Holds, Appended, add_within_lem}
use tv_rq.Api.Inter.{rq_inter_add_ids}

-- On a work memory with room for `max` identifiers, `RqInterAddIds` appends those from `beg` on, as
-- many as are asked for or as fit; it returns RQ_ERR_MAX_IDS_REACHED just when not all fit, and
-- writes nowhere else. A negative number appends nothing. The identifiers are below 2^31 and the
-- counts are `int`s.
pub rq_inter_add_ids_lem :
    (w : WorkMem) (max beg : ℕ) (add : ℤ)
    → Holds w max
    → w.n_esi + pos_part add < 2 ^ 31
    → neg_part add ≤ 2 ^ 31
    → beg + pos_part add ≤ 2 ^ 31
    → (w' : WorkMem) × (rq_inter_add_ids w (pos beg) add
        ≡ some (if leb (w.n_esi + pos_part add) max then success else err_max_ids_reached, w'))
      × Appended w w' beg (min (pos_part add) (max - w.n_esi))
      × Holds w' max
unfolding rq_inter_add_ids
rq_inter_add_ids_lem w max beg add holds sum low ids =
    add_within_lem w max beg add holds sum low ids
