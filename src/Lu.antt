-- ===== src/Lu.antt =====
-- algebra/mv_generic.h for m256v: the LU decomposition, its use to solve a system, and permutations
-- of rows. `none` is a failed assert, and in `cycle` a loop that has not ended.
pub mod Sum
pub mod Value
pub mod Combine
pub mod Lower
pub mod Upper
pub mod Eliminate
pub mod Transpose
pub mod Pivot
pub mod Columns
pub mod Decomp
pub mod Rank
pub mod Solve
pub mod Kernel
pub mod Product
mod Examples
use tv_rq.Prelude.{
  ℕ, zero, suc, ◌+◌, ◌-◌, Bool, true, false, Option, none, some, ltb, leb, ◌==◌, not, min,
  if◌then◌else◌, assert, ◌>>=◌, ◌>>◌,
}
use tv_rq.Memory.{Mem, for_range}
use tv_rq.Gf256.{gf256_mul, gf256_inv}
use tv_rq.M256v.{
  M256v, m256v_make, get_subview, get_el, swap_rows, swap_cols, mult_row, mult_col_from,
  multadd_row, multadd_row_from, copy_row, clear_row,
}

-- The memory and the arrays `rp` and `cp` of the decomposition.
pub record LuState : Type 0 where
  pub mem : Mem
  pub rp : ℕ → ℕ
  pub cp : ℕ → ℕ

-- `SwapInt(f[i], f[j])`.
unfoldable pub swap_int : ℕ → ℕ → (ℕ → ℕ) → ℕ → ℕ
swap_int i j f x = if x == i then f j else if x == j then f i else f x

-- `f[i] = i` for the first `n` indices.
unfoldable pub init_perm : ℕ → (ℕ → ℕ) → ℕ → ℕ
init_perm n f i = if ltb i n then i else f i

-- The loop over `prow`, from `r` on with `n` rows left: the row of the first nonzero element.
unfoldable pub find_row : ℕ → ℕ → ℕ → M256v → Mem → Option (Option ℕ)
find_row zero r c mat m = some none
find_row (suc n) r c mat m = get_el mat r c m >>= λ v. elim (v == 0) [
  | true ↦ find_row n (r + 1) c mat m
  | false ↦ some (some r)
]

-- The loop over `pcol`, from `c` on with `n` columns left: the pivot's row and column.
unfoldable pub find_pivot : ℕ → ℕ → ℕ → M256v → Mem → Option (Option (ℕ × ℕ))
find_pivot zero c i mat m = assert (c == mat.n_col) >> some none
find_pivot (suc n) c i mat m = find_row (mat.n_row - i) i c mat m >>= λ found. elim found [
  | none ↦ find_pivot n (c + 1) i mat m
  | some r ↦ some (some (r, c))
]

-- The pivot is moved into place.
unfoldable pub move_pivot : M256v → ℕ → ℕ → ℕ → LuState → Option LuState
move_pivot mat i prow pcol st =
    (if prow == i then some st.mem else swap_rows mat i prow st.mem) >>= λ m.
    (if pcol == i then some m else swap_cols mat pcol i m) >>= λ m'. some (record {
      mem = m';
      rp = if prow == i then st.rp else swap_int i prow st.rp;
      cp = if pcol == i then st.cp else swap_int i pcol st.cp;
    })

-- One round of the loop over `j`: row `j` of the part that is not decomposed yet.
unfoldable pub update_row : M256v → ℕ → ℕ → Mem → Option Mem
update_row mat i j m = get_el mat j i m >>= λ lji. multadd_row_from mat i (i + 1) lji mat j m

-- Column `i` of L is computed, and the rest of the matrix updated.
unfoldable pub eliminate : M256v → ℕ → Mem → Option Mem
eliminate mat i m = get_el mat i i m >>= λ u. gf256_inv u >>= λ uii_inv.
    mult_col_from mat i (i + 1) uii_inv m
    >>= for_range (mat.n_row - (i + 1)) (i + 1) (update_row mat i)

-- The loop over `i`, with `n` rounds left. The result is the rank.
unfoldable pub lu_rounds : ℕ → ℕ → M256v → LuState → Option (ℕ × LuState)
lu_rounds zero i mat st = some (i, st)
lu_rounds (suc n) i mat st = find_pivot (mat.n_col - i) i i mat st.mem >>= λ found. elim found [
  | none ↦ some (i, st)
  | some (prow, pcol) ↦ move_pivot mat i prow pcol st >>= λ st1. eliminate mat i st1.mem >>= λ m.
      lu_rounds n (i + 1) mat (record { mem = m; rp = st1.rp; cp = st1.cp })
]

unfoldable pub lu_decomp_inplace : M256v → LuState → Option (ℕ × LuState)
lu_decomp_inplace mat st =
    lu_rounds (min mat.n_col mat.n_row) 0 mat
      (record { mem = st.mem; rp = init_perm mat.n_row st.rp; cp = init_perm mat.n_col st.cp })

-- The element of LU in row `i` and column `j`, times row `src` of `x`, is added to row `dst`.
unfoldable pub add_multiple : M256v → ℕ → M256v → ℕ → (ℕ → ℕ) → ℕ → Mem → Option Mem
add_multiple lu i x dst src j m = get_el lu i j m >>= λ a. multadd_row x (src j) a x dst m

-- `placements[i]`, or `i` where the pointer is NULL.
unfoldable pub place : Option (ℕ → ℕ) → ℕ → ℕ
place none i = i
place (some placements) i = placements i

unfoldable pub l_invmult_inplace_p : M256v → ℕ → M256v → Option (ℕ → ℕ) → Mem → Option Mem
l_invmult_inplace_p lu rank x placements =
    for_range rank 0
      (λ i. for_range i 0 (add_multiple lu i x (place placements i) (place placements)))

-- One round of the loop of `U^(-1)`.
unfoldable pub u_invmult_row : M256v → M256v → (ℕ → ℕ) → ℕ → Mem → Option Mem
u_invmult_row lu x pl i m =
    for_range (lu.n_col - (i + 1)) (i + 1) (add_multiple lu i x (pl i) pl) m >>= λ m.
    get_el lu i i m >>= λ u. gf256_inv u >>= λ v. mult_row x (pl i) v m

-- The loop of `U^(-1)`, downwards, with `n` rounds left.
unfoldable pub u_invmult_rounds : ℕ → M256v → M256v → (ℕ → ℕ) → Mem → Option Mem
u_invmult_rounds zero lu x pl m = some m
u_invmult_rounds (suc n) lu x pl m = u_invmult_row lu x pl n m >>= u_invmult_rounds n lu x pl

unfoldable pub u_invmult_inplace_p : M256v → ℕ → M256v → Option (ℕ → ℕ) → Mem → Option Mem
u_invmult_inplace_p lu rank x placements = u_invmult_rounds rank lu x (place placements)

unfoldable pub l_invmult_inplace : M256v → ℕ → M256v → Mem → Option Mem
l_invmult_inplace lu rank x = l_invmult_inplace_p lu rank x none

unfoldable pub u_invmult_inplace : M256v → ℕ → M256v → Mem → Option Mem
u_invmult_inplace lu rank x = u_invmult_inplace_p lu rank x none

-- The inner loop of `permute_rows`, with at most `n` rounds: the state has `visited` and the memory,
-- and the result the row that the buffer's row goes to.
unfoldable pub cycle :
    ℕ → M256v → (ℕ → ℕ) → ℕ → ℕ → ℕ → (ℕ → Bool) × Mem → Option (ℕ × ((ℕ → Bool) × Mem))
cycle zero mat rowperm i e e_next s = if e_next == i then some (e, s) else none
cycle (suc n) mat rowperm i e e_next (visited, m) =
    let rest =
      assert (not (visited e_next))
      >> (copy_row mat e_next mat e m >>= λ m'.
          cycle n mat rowperm i e_next (rowperm e_next)
            (λ k. if k == e_next then true else visited k, m')) in
    if e_next == i then some (e, (visited, m)) else rest

-- One round of the loop of `permute_rows`, with the buffer's address.
unfoldable pub permute_round :
    M256v → (ℕ → ℕ) → M256v → ℕ → (ℕ → Bool) × Mem → Option ((ℕ → Bool) × Mem)
permute_round mat rowperm rowbuf i (visited, m) =
    if visited i
    then some (visited, m)
    else if rowperm i == i
    then some (λ k. if k == i then true else visited k, m)
    else (copy_row mat i rowbuf 0 m >>= λ m1.
        cycle mat.n_row mat rowperm i i (rowperm i) (visited, m1) >>= λ (e, s).
        copy_row rowbuf 0 mat e s.1 >>= λ m2. some (λ k. if k == i then true else s.0 k, m2))

unfoldable pub permute_rows : M256v → (ℕ → ℕ) → ℕ → Mem → Option Mem
permute_rows mat rowperm rowbuf m =
    for_range mat.n_row 0 (permute_round mat rowperm (m256v_make 1 mat.n_col rowbuf))
      (λ k. false, m)
    >>= λ s. some s.1

-- A permutation that may be left out.
unfoldable pub permute_rows_if : Option (ℕ → ℕ) → M256v → ℕ → Mem → Option Mem
permute_rows_if none mat rowbuf m = some m
permute_rows_if (some perm) mat rowbuf m = permute_rows mat perm rowbuf m

-- The rank that stands for -1, here `none`.
unfoldable pub rank_of : M256v → Option ℕ → ℕ
rank_of lu none = if ltb lu.n_col lu.n_row then lu.n_col else lu.n_row
rank_of lu (some rank) = rank

unfoldable pub lu_invmult_inplace :
    M256v → Option ℕ → Option (ℕ → ℕ) → Option (ℕ → ℕ) → M256v → ℕ → Mem → Option Mem
lu_invmult_inplace lu rank rowperm inv_colperm x_inout rowbuf m =
    assert (leb lu.n_col x_inout.n_row)
    >> (assert (leb lu.n_row x_inout.n_row)
        >> (get_subview x_inout 0 0 lu.n_col x_inout.n_col >>= λ x.
            get_subview x_inout 0 0 lu.n_row x_inout.n_col >>= λ y.
            permute_rows_if rowperm y rowbuf m >>= λ m1.
            l_invmult_inplace lu (rank_of lu rank) y m1 >>= λ m2.
            u_invmult_inplace lu (rank_of lu rank) x m2 >>= permute_rows_if inv_colperm x rowbuf))
