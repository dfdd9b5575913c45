-- ===== src/RqMatrix/Examples.antt =====
-- The matrix for ten symbols and twelve identifiers.
use tv_rq.Prelude.{ℕ, ◌+◌, ◌≡◌, refl, some, arith}
use tv_rq.Memory.{Mem}
use tv_rq.Memory.Sweep.{IsBytes}
use tv_rq.Parameters.Examples.{ten, ten-IsValid}
use tv_rq.M256v.{M256v}
use tv_rq.M256v.Fill.{Filled}
use tv_rq.RqMatrix.{rq_matrix_generate}
use tv_rq.RqMatrix.Rows.{rq_entry, rq_matrix_generate_lem}

abbrev rows_29 : M256v
rows_29 = record { n_row = 29; n_col = 27; rstride = 27; e = 100 }

abbrev from_three : ℕ → ℕ
from_three i = 3 + i

abbrev fives : Mem
fives x = 5

fives-IsBytes : IsBytes fives
fives-IsBytes x = omega arith

rq_matrix_generate_lem_example :
    (m' : Mem) × (rq_matrix_generate rows_29 ten 12 from_three fives ≡ some m')
    × Filled rows_29 fives m' 29 (rq_entry ten 12 from_three)
rq_matrix_generate_lem_example =
    rq_matrix_generate_lem rows_29 ten 12 from_three fives (omega arith) ten-IsValid refl refl
      fives-IsBytes
