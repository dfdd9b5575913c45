-- ===== src/Ldpc/Examples.antt =====
-- The LDPC rows for ten symbols.
use tv_rq.Prelude.{◌≡◌, refl, Bool, some, arith}
use tv_rq.Memory.{Mem}
use tv_rq.Memory.Sweep.{IsBytes}
use tv_rq.Parameters.Examples.{ten, ten-IsValid}
use tv_rq.M256v.{M256v}
use tv_rq.Ldpc.{ldpc_generate_mat}
use tv_rq.Ldpc.Ones.{IsOnes, some_round}
use tv_rq.Ldpc.Rows.{ldpc_one, left_ones, right_ones, ldpc_generate_mat_lem}

abbrev seven_rows : M256v
seven_rows = record { n_row = 7; n_col = 27; rstride = 27; e = 50 }

abbrev nines : Mem
nines x = 9

nines-IsBytes : IsBytes nines
nines-IsBytes x = omega arith

-- Column 8 of the left part has its ones in rows 1, 3 and 5.
one_in_row_5 : ldpc_one ten 5 8 ≡ Bool.true
unfolding ldpc_one left_ones right_ones some_round
one_in_row_5 = refl

none_in_row_4 : ldpc_one ten 4 8 ≡ Bool.false
unfolding ldpc_one left_ones right_ones some_round
none_in_row_4 = refl

ldpc_generate_mat_lem_example :
    (m' : Mem) × (ldpc_generate_mat seven_rows ten nines ≡ some m')
    × IsOnes seven_rows nines m' (ldpc_one ten)
ldpc_generate_mat_lem_example =
    ldpc_generate_mat_lem seven_rows ten nines (omega arith) ten-IsValid refl refl nines-IsBytes
