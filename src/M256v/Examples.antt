-- ===== src/M256v/Examples.antt =====
-- The operations of algebra/m256v.c on a matrix of two rows and three columns.
use tv_rq.Prelude.{
  ℕ, ◌+◌, ◌-◌, ◌%◌, ◌<◌, ◌≡◌, ◌↔◌, refl, some, none, ◌>>=◌, Bool, true, bit_xor, arith,
}
use tv_rq.Memory.{Mem, write, for_range}
use tv_rq.Memory.Sweep.{IsBytes}
use tv_rq.Gf256.{gf256_log, gf256_exp, oct_exp, oct_log}
use tv_rq.Gf256.Poly.{◌⊗◌}
use tv_rq.M256v.{
  M256v, get_el_offs, get_subview, get_el, set_el, clear_row, mult_row, multadd_row_from, copy_row,
  row_iszero, swap_rows, swap_cols, mult_col_from, copy_col, scaled,
}
use tv_rq.M256v.Access.{at, IsView, at_injective, get_subview_lem}
use tv_rq.M256v.Rows.{Written, clear_row_lem, mult_row_lem, copy_row_lem, multadd_row_from_lem}
use tv_rq.M256v.Zero.{row_iszero_lem}
use tv_rq.M256v.Swap.{Swapped}
use tv_rq.M256v.Cols.{swap_rows_lem, swap_cols_lem, mult_col_from_lem, copy_col_lem}

abbrev small : M256v
small = record { n_row = 2; n_col = 3; rstride = 4; e = 100 }

abbrev counting : Mem
counting a = a % 256

counting-IsBytes : IsBytes counting
counting-IsBytes a = omega arith

mult_runs : (mult_row small 0 2 counting >>= λ m. get_el small 0 2 m) ≡ some 204
unfolding mult_row get_el get_el_offs set_el for_range write scaled gf256_log gf256_exp oct_exp
    oct_log
mult_runs = refl

out_of_range : get_el small 2 0 counting ≡ none
unfolding get_el get_el_offs
out_of_range = refl

at_injective_example : (◌≡◌ {A = ℕ} 1 1) × (◌≡◌ {A = ℕ} 2 2)
at_injective_example = at_injective small 1 2 1 2 (omega arith) (omega arith) (omega arith) refl

get_subview_lem_example :
    (sub : M256v) × (get_subview small 1 1 1 2 ≡ some sub)
    × IsView sub
    × (sub.n_row ≡ 1)
    × (sub.n_col ≡ 2)
    × ((r c : ℕ) → at sub r c ≡ at small (1 + r) (1 + c))
get_subview_lem_example =
    get_subview_lem small 1 1 1 2 (omega arith) (omega arith) (omega arith) (omega arith)

clear_row_lem_example :
    (m' : Mem) × (clear_row small 1 counting ≡ some m')
    × Written counting m' 3 (at small 1) (λ c. 0)
clear_row_lem_example = clear_row_lem small 1 counting (omega arith) (omega arith) counting-IsBytes

mult_row_lem_example :
    (m' : Mem) × (mult_row small 1 29 counting ≡ some m')
    × Written counting m' 3 (at small 1) (λ c. counting (at small 1 c) ⊗ 29)
mult_row_lem_example =
    mult_row_lem small 1 counting (omega arith) (omega arith) counting-IsBytes 29 (omega arith)

rows_apart : (j k : ℕ) → j < 3 → k < 3 → ¬ (at small 0 k ≡ at small 1 j)
rows_apart j k h l e = omega arith

copy_row_lem_example :
    (m' : Mem) × (copy_row small 0 small 1 counting ≡ some m')
    × Written counting m' 3 (at small 1) (λ c. counting (at small 0 c))
copy_row_lem_example =
    copy_row_lem small 0 small 1 counting refl (omega arith) (omega arith) counting-IsBytes
      rows_apart

multadd_row_from_lem_example :
    (m' : Mem) × (multadd_row_from small 0 1 29 small 1 counting ≡ some m')
    × Written counting m'
        (3 - 1)
        (λ k. at small 1 (1 + k))
        (λ k. bit_xor (counting (at small 1 (1 + k))) (29 ⊗ counting (at small 0 (1 + k))))
multadd_row_from_lem_example =
    multadd_row_from_lem small 0 small 1 counting refl (omega arith) (omega arith) counting-IsBytes
      rows_apart 1 29 (omega arith) (omega arith)

row_iszero_lem_example :
    (b : Bool) × (row_iszero small 1 counting ≡ some b)
    × ((b ≡ true) ↔ ((c : ℕ) → c < 3 → counting (at small 1 c) ≡ 0))
row_iszero_lem_example = row_iszero_lem small 1 counting (omega arith)

swap_rows_lem_example :
    (m' : Mem) × (swap_rows small 0 1 counting ≡ some m')
    × Swapped (at small 0) (at small 1) 3 counting 3 m'
swap_rows_lem_example =
    swap_rows_lem small counting (omega arith) counting-IsBytes 0 1 (omega arith) (omega arith)
      (omega arith)

swap_cols_lem_example :
    (m' : Mem) × (swap_cols small 0 2 counting ≡ some m')
    × Swapped (λ r. at small r 0) (λ r. at small r 2) 2 counting 2 m'
swap_cols_lem_example =
    swap_cols_lem small counting (omega arith) counting-IsBytes 0 2 (omega arith) (omega arith)
      (omega arith) (omega arith)

mult_col_from_lem_example :
    (m' : Mem) × (mult_col_from small 1 1 29 counting ≡ some m')
    × Written counting m'
        (2 - 1)
        (λ k. at small (1 + k) 1)
        (λ k. counting (at small (1 + k) 1) ⊗ 29)
mult_col_from_lem_example =
    mult_col_from_lem small counting (omega arith) counting-IsBytes 1 1 29 (omega arith)
      (omega arith)

cols_apart : (j k : ℕ) → j < 2 → k < 2 → ¬ (at small k 0 ≡ at small j 2)
cols_apart j k h l e = omega arith

copy_col_lem_example :
    (m' : Mem) × (copy_col small 0 small 2 counting ≡ some m')
    × Written counting m' 2 (λ r. at small r 2) (λ r. counting (at small r 0))
copy_col_lem_example =
    copy_col_lem small 0 small 2 counting (omega arith) counting-IsBytes refl (omega arith)
      (omega arith) cols_apart
