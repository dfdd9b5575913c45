-- ===== src/M256v/Whole/Examples.antt =====
-- The operations of algebra/mv_generic.h on small matrices.
use tv_rq.Prelude.{ℕ, ◌+◌, ◌%◌, ◌<◌, ◌≡◌, ◌↔◌, refl, Bool, true, some, arith, bit_xor}
use tv_rq.Memory.{Mem}
use tv_rq.Memory.Sweep.{IsBytes}
use tv_rq.M256v.{M256v}
use tv_rq.M256v.Access.{at}
use tv_rq.M256v.Fill.{Filled}
use tv_rq.M256v.Whole.{copy, add, add_inplace, mul, iszero}
use tv_rq.M256v.Whole.Entries.{Beside, copy_lem, add_inplace_lem, add_lem}
use tv_rq.M256v.Whole.Product.{Factors, dot, mul_lem}
use tv_rq.M256v.Whole.Zero.{iszero_lem}
use tv_rq.M256v.Whole.Rectangle.{rectangle, copy_submat_lem}
use tv_rq.M256v.Whole.{copy_submat}

abbrev left : M256v
left = record { n_row = 2; n_col = 3; rstride = 4; e = 100 }

abbrev right : M256v
right = record { n_row = 2; n_col = 3; rstride = 4; e = 200 }

abbrev target : M256v
target = record { n_row = 2; n_col = 3; rstride = 4; e = 300 }

abbrev tall : M256v
tall = record { n_row = 3; n_col = 2; rstride = 2; e = 400 }

abbrev square : M256v
square = record { n_row = 2; n_col = 2; rstride = 2; e = 500 }

abbrev bytes_of : Mem
bytes_of a = a % 256

bytes_of-IsBytes : IsBytes bytes_of
bytes_of-IsBytes a = omega arith

left-Beside : Beside left target
left-Beside = record { rows = refl; cols = refl; apart = λ i j h l c k lc lk e. omega arith }

right-Beside : Beside right target
right-Beside = record { rows = refl; cols = refl; apart = λ i j h l c k lc lk e. omega arith }

copy_lem_example :
    (m' : Mem) × (copy left target bytes_of ≡ some m')
    × Filled target bytes_of m' 2 (λ r c. bytes_of (at left r c))
copy_lem_example = copy_lem left target bytes_of (omega arith) bytes_of-IsBytes left-Beside

add_inplace_lem_example :
    (m' : Mem) × (add_inplace left target bytes_of ≡ some m')
    × Filled target bytes_of m' 2
        (λ r c. bit_xor (bytes_of (at target r c)) (bytes_of (at left r c)))
add_inplace_lem_example =
    add_inplace_lem left target bytes_of (omega arith) bytes_of-IsBytes left-Beside

add_lem_example :
    (m' : Mem) × (add left right target bytes_of ≡ some m')
    × Filled target bytes_of m' 2
        (λ r c. bit_xor (bytes_of (at left r c)) (bytes_of (at right r c)))
add_lem_example =
    add_lem left right target bytes_of (omega arith) bytes_of-IsBytes left-Beside right-Beside

factors : Factors left tall square
factors = record {
  inner = refl;
  rows = refl;
  cols = refl;
  apart_a = λ i e r c hi he hr hc eq. omega arith;
  apart_b = λ e j r c he hj hr hc eq. omega arith;
}

mul_lem_example :
    (m' : Mem) × (mul left tall square bytes_of ≡ some m')
    × Filled square bytes_of m' 2
        (λ r c. dot 3 (λ e. bytes_of (at left r e)) (λ e. bytes_of (at tall e c)))
mul_lem_example = mul_lem left tall square factors (omega arith) bytes_of bytes_of-IsBytes

iszero_lem_example :
    (b : Bool) × (iszero left bytes_of ≡ some b)
    × ((b ≡ true) ↔ ((i c : ℕ) → i < 2 → c < 3 → bytes_of (at left i c) ≡ 0))
iszero_lem_example = iszero_lem left bytes_of

copy_submat_lem_example :
    (m' : Mem) × (copy_submat left 0 1 2 2 tall 1 0 bytes_of ≡ some m')
    × Filled (rectangle tall 1 0 2 2) bytes_of m' 2 (λ r c. bytes_of (at left (r + 0) (c + 1)))
copy_submat_lem_example =
    copy_submat_lem left 0 1 2 2 tall 1 0 (omega arith) (omega arith) (omega arith) (omega arith)
      (omega arith) (λ r c r' c' h l h' l' e. omega arith) bytes_of bytes_of-IsBytes
