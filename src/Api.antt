-- ===== src/Api.antt =====
-- api/rq_api.h and api/tvrq_api.c: the states that the API's callers keep and the calls on them.
pub mod Words
pub mod Ids
pub mod Inter
pub mod Out
pub mod Execute
pub mod Compile
pub mod Decode
pub mod Examples
use tv_rq.Prelude.{ℕ, suc, ◌+◌, Option, some, ◌>>=◌}
use tv_rq.Prelude.Int.{ℤ, pos, ◌+ℤ◌, pos_part}
use tv_rq.Parameters.{Parameters}
use tv_rq.Memory.{Mem, write, for_range}
use Words.{int32, to_uint32}

-- The return codes, 0 and the RQ_ERR constants.
pub data Status : Type 0 where
  success : Status
  err_enomem : Status
  err_edom : Status
  err_max_ids_reached : Status
  err_insuff_ids : Status

-- `RqInterWorkMem`. Its params are `none` when their K is -1, and `esis` is the array at its end,
-- which may go on behind the memory that the caller gave.
pub record WorkMem : Type 0 where
  pub params : Option Parameters
  pub n_esi_max : ℤ
  pub n_esi : ℕ
  pub esis : Mem

-- The round `i` of the loops of `RqInterAddIds` and `RqOutAddIds`.
unfoldable pub push_id : ℤ → ℕ → WorkMem → Option WorkMem
push_id beg i w = int32 (beg +ℤ pos i) >>= λ id. some record {
  params = w.params;
  n_esi_max = w.n_esi_max;
  n_esi = suc w.n_esi;
  esis = write w.esis w.n_esi (to_uint32 id);
}

unfoldable pub push_ids : ℤ → ℤ → Status → WorkMem → Option (Status × WorkMem)
push_ids beg add ret w = for_range (pos_part add) 0 (push_id beg) w >>= λ w'. some (ret, w')
