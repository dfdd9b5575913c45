-- ===== src/Lu/Product.antt =====
-- The products with L and U in algebra/mv_generic.h, which undo the solves. `none` is a failed assert.
pub mod Rows
pub mod Undo
use tv_rq.Prelude.{
  ℕ, zero, suc, ◌+◌, ◌-◌, Option, some, min, ltb, leb, if◌then◌else◌, assert, ◌>>=◌, ◌>>◌,
}
use tv_rq.Memory.{Mem, for_range}
use tv_rq.M256v.{M256v, get_subview, get_el, mult_row, clear_row}
use tv_rq.Lu.{add_multiple, permute_rows_if}

-- The inner loops of `L_mult_inplace`, from column `n - 1` down to 0.
unfoldable pub add_down : M256v → ℕ → M256v → ℕ → Mem → Option Mem
add_down lu i x zero m = some m
add_down lu i x (suc j) m = add_multiple lu i x i (λ j. j) j m >>= add_down lu i x j

-- One round of the loop of `L_mult_inplace`.
unfoldable pub l_mult_row : M256v → M256v → ℕ → Mem → Option Mem
l_mult_row lu x i m =
    if leb lu.n_col i then (clear_row x i m >>= add_down lu i x lu.n_col) else add_down lu i x i m

-- That loop, from row `n - 1` down to 0.
unfoldable pub l_mult_rounds : M256v → M256v → ℕ → Mem → Option Mem
l_mult_rounds lu x zero m = some m
l_mult_rounds lu x (suc i) m = l_mult_row lu x i m >>= l_mult_rounds lu x i

unfoldable pub l_mult_inplace : M256v → M256v → Mem → Option Mem
l_mult_inplace lu x m = l_mult_rounds lu x lu.n_row m

-- One round of the loop of `U_mult_inplace`.
unfoldable pub u_mult_row : M256v → M256v → ℕ → Mem → Option Mem
u_mult_row lu x i m = get_el lu i i m >>= λ u.
    mult_row x i u m >>= for_range (lu.n_col - (i + 1)) (i + 1) (add_multiple lu i x i (λ j. j))

unfoldable pub u_mult_inplace : M256v → M256v → Mem → Option Mem
u_mult_inplace lu x m = for_range (min lu.n_col lu.n_row) 0 (u_mult_row lu x) m

unfoldable pub lu_mult_inplace :
    M256v → Option (ℕ → ℕ) → Option (ℕ → ℕ) → M256v → ℕ → Mem → Option Mem
lu_mult_inplace lu inv_rowperm colperm x_inout rowbuf m =
    assert (leb lu.n_col x_inout.n_row)
    >> (assert (leb lu.n_row x_inout.n_row)
        >> (get_subview x_inout 0 0 lu.n_col x_inout.n_col >>= λ x.
            get_subview x_inout 0 0 lu.n_row x_inout.n_col >>= λ y.
            permute_rows_if colperm x rowbuf m >>= λ m1. u_mult_inplace lu x_inout m1 >>= λ m2.
            l_mult_inplace lu x_inout m2 >>= permute_rows_if inv_rowperm y rowbuf))
