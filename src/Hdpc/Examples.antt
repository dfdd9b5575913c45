-- ===== src/Hdpc/Examples.antt =====
-- The HDPC rows for ten symbols.
use tv_rq.Prelude.{ℕ, ◌<◌, ◌≡◌, refl, some, arith}
use tv_rq.Memory.{Mem}
use tv_rq.Memory.Sweep.{IsBytes}
use tv_rq.Parameters.Examples.{ten, ten-IsValid}
use tv_rq.M256v.{M256v}
use tv_rq.M256v.Fill.{Filled}
use tv_rq.Hdpc.{hdpc_generate_mat, hdpc_generate_mat_specexact}
use tv_rq.Hdpc.Exact.{hdpc_generate_mat-specexact}
use tv_rq.M256v.Access.{at}
use tv_rq.Hdpc.Entries.{hdpc_entry}
use tv_rq.Hdpc.Rows.{hdpc_generate_mat_lem}

abbrev ten_rows : M256v
ten_rows = record { n_row = 10; n_col = 27; rstride = 30; e = 5 }

abbrev sixes : Mem
sixes x = 6

sixes-IsBytes : IsBytes sixes
sixes-IsBytes x = omega arith

hdpc_generate_mat_lem_example :
    (m' : Mem) × (hdpc_generate_mat ten_rows ten sixes ≡ some m')
    × Filled ten_rows sixes m' 10 (hdpc_entry ten)
hdpc_generate_mat_lem_example =
    hdpc_generate_mat_lem ten_rows ten sixes (omega arith) ten-IsValid refl refl sixes-IsBytes

hdpc_generate_mat-specexact_example :
    (m1 : Mem) × (m2 : Mem) × (hdpc_generate_mat ten_rows ten sixes ≡ some m1)
    × (hdpc_generate_mat_specexact ten_rows ten 1000 2000 sixes ≡ some m2)
    × ((r c : ℕ)
        → r < 10
        → c < 27
        → (m1 (at ten_rows r c) ≡ m2 (at ten_rows r c))
          × (m2 (at ten_rows r c) ≡ hdpc_entry ten r c))
hdpc_generate_mat-specexact_example =
    hdpc_generate_mat-specexact ten_rows ten 1000 2000 sixes (omega arith) ten-IsValid refl refl
      (omega arith) sixes-IsBytes (λ r c r' c' h l h' l' e. omega arith)
      (λ r c r' c' h l h' l' e. omega arith) (λ r c r' c' h l h' l' e. omega arith)
