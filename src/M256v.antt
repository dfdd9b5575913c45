-- ===== src/M256v.antt =====
-- algebra/m256v.c and m256v.h: views of a matrix over GF(256), into bytes that other views may
-- share. `none` is a failed assert; `int` sizes and indices are not negative.
pub mod Access
mod Cells
pub mod Rows
pub mod Swap
pub mod Zero
pub mod Cols
pub mod Fill
pub mod Add
pub mod Whole
mod Examples
use tv_rq.Prelude.{
  ℕ, zero, suc, ◌+◌, ◌-◌, ◌*◌, ◌%◌, Bool, true, false, Option, none, some, bit_xor, ltb, leb, ◌==◌,
  if◌then◌else◌, assert, ◌>>=◌, ◌>>◌,
}
use tv_rq.Prelude.Int.{ℤ, pos, ◌+ℤ◌, pos_part}
use tv_rq.Memory.{Mem, write, for_range}
use tv_rq.Gf256.{gf256_log, gf256_exp}

-- `m256v`; `e` is the address of the first element.
pub record M256v : Type 0 where
  pub n_row : ℕ
  pub n_col : ℕ
  pub rstride : ℕ
  pub e : ℕ

unfoldable pub m256v_make : ℕ → ℕ → ℕ → M256v
m256v_make n_row n_col memory = record { n_row = n_row; n_col = n_col; rstride = n_col; e = memory }

-- The column may be one beyond the last.
unfoldable pub get_el_offs : M256v → ℕ → ℕ → Option ℕ
get_el_offs mat r c =
    assert (ltb r mat.n_row) >> (assert (leb c mat.n_col) >> some (r * mat.rstride + c))

unfoldable pub get_subview : M256v → ℕ → ℕ → ℕ → ℕ → Option M256v
get_subview mat row_offs col_offs n_row n_col =
    assert (leb (row_offs + n_row) mat.n_row)
    >> (assert (leb (col_offs + n_col) mat.n_col)
        >> (get_el_offs mat row_offs col_offs >>= λ o.
            some (record { n_row = n_row; n_col = n_col; rstride = mat.rstride; e = mat.e + o })))

unfoldable pub get_el : M256v → ℕ → ℕ → Mem → Option ℕ
get_el mat r c m = get_el_offs mat r c >>= λ o. some (m (mat.e + o))

unfoldable pub set_el : M256v → ℕ → ℕ → ℕ → Mem → Option Mem
set_el mat r c v m = get_el_offs mat r c >>= λ o. some (write m (mat.e + o) v)

-- One round of the two swaps: the bytes at two addresses change places.
unfoldable pub swap_bytes : ℕ → ℕ → Mem → Mem
swap_bytes a b m = let sw = m a in write (write m a (m b)) b sw

unfoldable pub swap_rows : M256v → ℕ → ℕ → Mem → Option Mem
swap_rows mat r1 r2 m =
    if r1 == r2
    then some m
    else (get_el_offs mat r1 0 >>= λ o1. get_el_offs mat r2 0 >>= λ o2.
        for_range mat.n_col 0 (λ i m. some (swap_bytes (mat.e + o1 + i) (mat.e + o2 + i) m)) m)

unfoldable pub clear_row : M256v → ℕ → Mem → Option Mem
clear_row mat r m = for_range mat.n_col 0 (λ i m. set_el mat r i 0 m) m

-- The logarithm of a nonzero byte, which the source keeps in a `uint8_t` or an `int`.
unfoldable pub scaled : ℤ → ℕ → Option ℕ
scaled log_alpha v = gf256_exp (gf256_log v +ℤ log_alpha)

unfoldable pub mult_row : M256v → ℕ → ℕ → Mem → Option Mem
mult_row mat r alpha m =
    if alpha == 0
    then clear_row mat r m
    else let log_alpha = pos (pos_part (gf256_log alpha) % 256) in
      for_range mat.n_col 0
        (λ j m. get_el mat r j m >>= λ v.
          if v == 0 then some m else (scaled log_alpha v >>= λ x. set_el mat r j x m))
        m

-- One round of the two loops of `multadd_row_from`: the byte at `s`, scaled, is added to that at `t`.
unfoldable pub add_byte : ℕ → ℕ → Mem → Option Mem
add_byte s t m = some (write m t (bit_xor (m t) (m s)))

unfoldable pub multadd_byte : ℤ → ℕ → ℕ → Mem → Option Mem
multadd_byte log_alpha s t m =
    let ve = m s in
    if ve == 0
    then some m
    else (gf256_exp (log_alpha +ℤ gf256_log ve) >>= λ x. some (write m t (bit_xor (m t) x)))

-- `while (s < end)`, with `end - s` rounds.
unfoldable pub multadd_row_from : M256v → ℕ → ℕ → ℕ → M256v → ℕ → Mem → Option Mem
multadd_row_from m1 r1 offs alpha mt rt m =
    assert (m1.n_col == mt.n_col)
    >> (if alpha == 0
        then some m
        else (get_el_offs m1 r1 offs >>= λ s. get_el_offs mt rt offs >>= λ t.
            get_el_offs m1 r1 m1.n_col >>= λ end.
            for_range (end - s) 0
              (λ i.
                if alpha == 1
                then add_byte (m1.e + s + i) (mt.e + t + i)
                else multadd_byte (gf256_log alpha) (m1.e + s + i) (mt.e + t + i))
              m))

unfoldable pub multadd_row : M256v → ℕ → ℕ → M256v → ℕ → Mem → Option Mem
multadd_row m1 r1 alpha mt rt m = multadd_row_from m1 r1 0 alpha mt rt m

unfoldable pub copy_row : M256v → ℕ → M256v → ℕ → Mem → Option Mem
copy_row m1 r1 mt rt m =
    assert (m1.n_col == mt.n_col)
    >> for_range mt.n_col 0 (λ i m. get_el m1 r1 i m >>= λ v. set_el mt rt i v m) m

-- The loop of `row_iszero` from column `c` on, with `n` columns left.
unfoldable pub row_zero_from : ℕ → ℕ → M256v → ℕ → Mem → Option Bool
row_zero_from zero c mat r m = some true
row_zero_from (suc n) c mat r m = get_el mat r c m >>= λ v. elim (v == 0) [
  | true ↦ row_zero_from n (c + 1) mat r m
  | false ↦ some false
]

unfoldable pub row_iszero : M256v → ℕ → Mem → Option Bool
row_iszero mat r m = row_zero_from mat.n_col 0 mat r m

unfoldable pub swap_cols : M256v → ℕ → ℕ → Mem → Option Mem
swap_cols mat c1 c2 m =
    if c1 == c2
    then some m
    else (get_el_offs mat 0 c1 >>= λ o1. get_el_offs mat 0 c2 >>= λ o2.
        for_range mat.n_row 0
          (λ i m. some (swap_bytes (mat.e + o1 + i * mat.rstride) (mat.e + o2 + i * mat.rstride) m))
          m)

unfoldable pub mult_col_from : M256v → ℕ → ℕ → ℕ → Mem → Option Mem
mult_col_from mat c offs alpha m =
    if alpha == 0
    then for_range (mat.n_row - offs) offs (λ j m. set_el mat j c 0 m) m
    else (for_range (mat.n_row - offs) offs
        (λ j m. get_el mat j c m >>= λ v.
          if v == 0 then some m else (scaled (gf256_log alpha) v >>= λ x. set_el mat j c x m))
        m)

unfoldable pub copy_col : M256v → ℕ → M256v → ℕ → Mem → Option Mem
copy_col m1 c1 mt ct m =
    assert (m1.n_row == mt.n_row)
    >> for_range mt.n_row 0 (λ i m. get_el m1 i c1 m >>= λ v. set_el mt i ct v m) m
