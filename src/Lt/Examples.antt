-- ===== src/Lt/Examples.antt =====
-- The positions of a tuple, and the theorems on tvrq/lt.c for ten symbols.
use tv_rq.Prelude.{ℕ, ◌<◌, ◌≡◌, refl, some, arith}
use tv_rq.Memory.{Mem}
use tv_rq.Parameters.Examples.{ten, ten-IsValid}
use tv_rq.M256v.{M256v}
use tv_rq.Lt.{skip_pi}
use tv_rq.Lt.Skip.{skip_pi_lem}

skip_ten : skip_pi 11 ten 3 10 ≡ some 2
unfolding skip_pi
skip_ten = refl

skip_pi_lem_example : (b : ℕ) × (skip_pi 11 ten 3 10 ≡ some b) × (b < 10)
skip_pi_lem_example = skip_pi_lem 3 10 ten-IsValid (omega arith) (omega arith) (omega arith)

-- Two rows of 27 bytes.
abbrev two_rows : M256v
two_rows = record { n_row = 2; n_col = 27; rstride = 27; e = 0 }

abbrev sevens : Mem
sevens x = 7
