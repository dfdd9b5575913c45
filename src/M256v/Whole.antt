-- ===== src/M256v/Whole.antt =====
-- The operations of algebra/mv_generic.h on whole matrices, for views over GF(256).
pub mod Entries
pub mod Product
pub mod Zero
pub mod Rectangle
mod Examples
use tv_rq.Prelude.{
  ℕ, zero, suc, ◌+◌, Bool, true, false, Option, none, some, ◌==◌, leb, assert, ◌>>=◌, ◌>>◌,
}
use tv_rq.Memory.{Mem, for_range}
use tv_rq.Gf256.{gf256_add, gf256_mul}
use tv_rq.M256v.{M256v, get_el, set_el, clear_row, copy_row, multadd_row, row_iszero}

-- `MV_GEN_N(_iszero)`, from row `r` on with `n` rows left.
unfoldable pub zero_from : ℕ → ℕ → M256v → Mem → Option Bool
zero_from zero r mat m = some true
zero_from (suc n) r mat m =
    row_iszero mat r m >>= λ z. elim z [ true ↦ zero_from n (r + 1) mat m | false ↦ some false ]

unfoldable pub iszero : M256v → Mem → Option Bool
iszero mat m = zero_from mat.n_row 0 mat m

unfoldable pub clear : M256v → Mem → Option Mem
clear mat m = for_range mat.n_row 0 (λ i m. clear_row mat i m) m

unfoldable pub copy : M256v → M256v → Mem → Option Mem
copy a b m =
    assert (a.n_row == b.n_row)
    >> (assert (a.n_col == b.n_col) >> for_range a.n_row 0 (λ i m. copy_row a i b i m) m)

-- One element of the rectangle.
unfoldable pub copy_el : M256v → ℕ → ℕ → M256v → ℕ → ℕ → ℕ → ℕ → Mem → Option Mem
copy_el a a_row a_col t t_row t_col r c m =
    get_el a (r + a_row) (c + a_col) m >>= λ v. set_el t (r + t_row) (c + t_col) v m

unfoldable pub copy_submat : M256v → ℕ → ℕ → ℕ → ℕ → M256v → ℕ → ℕ → Mem → Option Mem
copy_submat a a_row a_col n_row n_col t t_row t_col m =
    assert (leb (a_row + n_row) a.n_row)
    >> (assert (leb (a_col + n_col) a.n_col)
        >> (assert (leb (t_row + n_row) t.n_row)
            >> (assert (leb (t_col + n_col) t.n_col)
                >> for_range n_row 0
                    (λ r m. for_range n_col 0 (copy_el a a_row a_col t t_row t_col r) m) m)))

unfoldable pub add : M256v → M256v → M256v → Mem → Option Mem
add a b out m =
    assert (a.n_row == b.n_row)
    >> (assert (a.n_col == b.n_col)
        >> (assert (a.n_row == out.n_row)
            >> (assert (a.n_col == out.n_col)
                >> for_range a.n_row 0 (λ i m. copy_row a i out i m >>= multadd_row b i 1 out i)
                    m)))

unfoldable pub add_inplace : M256v → M256v → Mem → Option Mem
add_inplace a b m =
    assert (a.n_row == b.n_row)
    >> (assert (a.n_col == b.n_col) >> for_range b.n_row 0 (λ r m. multadd_row a r 1 b r m) m)

-- The loop over `e` of the product, from `x`.
unfoldable pub mul_step : M256v → M256v → ℕ → ℕ → Mem → ℕ → ℕ → Option ℕ
mul_step a b i j m e x =
    get_el a i e m >>= λ v. get_el b e j m >>= λ w. gf256_mul v w >>= λ y. some (gf256_add x y)

-- The element in row `i` and column `j`.
unfoldable pub mul_el : M256v → M256v → M256v → ℕ → ℕ → Mem → Option Mem
mul_el a b out i j m = for_range a.n_col 0 (mul_step a b i j m) 0 >>= λ x. set_el out i j x m

unfoldable pub mul : M256v → M256v → M256v → Mem → Option Mem
mul a b out m =
    assert (a.n_col == b.n_row)
    >> (assert (a.n_row == out.n_row)
        >> (assert (b.n_col == out.n_col)
            >> for_range out.n_row 0 (λ i m. for_range out.n_col 0 (mul_el a b out i) m) m))
