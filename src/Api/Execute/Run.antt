-- ===== src/Api/Execute/Run.antt =====
-- What `RqOutExecute` of api/tvrq_api.c writes.
use tv_rq.Prelude.{ℕ, ◌+◌, ◌*◌, ◌≤◌, ◌⊎◌}
use tv_rq.Memory.{Mem}
use tv_rq.Memory.Sweep.{IsBytes}
use tv_rq.Parameters.{Parameters}
use tv_rq.Parameters.Valid.{IsValid}
use tv_rq.M256v.{M256v}
use tv_rq.M256v.Access.{at}
use tv_rq.Lt.Tuples.{esi_positions}
use tv_rq.Api.Execute.Sum.{sum}

-- Two blocks of memory that do not overlap.
abbrev pub BlocksApart : ℕ → ℕ → ℕ → ℕ → Type 0
BlocksApart a n b k = (a + n ≤ b) ⊎ (b + k ≤ a)

module _ (p : Parameters) (n_esi sym_size inter out : ℕ) (esis : Mem) (valid : IsValid p) (m : Mem)
    (bytes : IsBytes m) (blocks : BlocksApart inter (p.l * sym_size) out (n_esi * sym_size)) where
  abbrev im : M256v
  im = record { n_row = p.l; n_col = sym_size; rstride = sym_size; e = inter }

  abbrev o : M256v
  o = record { n_row = n_esi; n_col = sym_size; rstride = sym_size; e = out }

  value : ℕ → ℕ → ℕ
  value i c = sum (λ q. m (at im q c)) (esi_positions (esis i) p)
