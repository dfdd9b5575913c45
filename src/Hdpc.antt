-- ===== src/Hdpc.antt =====
-- tvrq/hdpc.c: the HDPC rows of the matrix, by two routines. `hdpc_generate_mat` of tvrq/hdpc.h stands
-- for the faster one, and has its name here. `none` is a failed assert.
pub mod Entries
pub mod Column
pub mod Parts
pub mod Rows
pub mod Factors
pub mod Mt
pub mod Exact
mod Examples
use tv_rq.Prelude.{
  ℕ, zero, suc, ◌+◌, ◌-◌, ◌*◌, ◌%◌, ◌^◌, Option, some, ◌==◌, assert, bit_xor, ◌>>=◌, ◌>>◌,
}
use tv_rq.Prelude.Int.{pos}
use tv_rq.Api.Words.{int32}
use tv_rq.Memory.{Mem, for_range}
use tv_rq.Gf256.{gf256_add, gf256_mul}
use tv_rq.Parameters.{Parameters}
use tv_rq.Rand.{rand}
use tv_rq.M256v.{M256v, m256v_make, get_subview, get_el, set_el}
use tv_rq.M256v.Whole.{clear, mul}

-- The two rows that get a one in column `j`, in the faster routine.
unfoldable pub flip_a : Parameters → ℕ → ℕ
flip_a p j = rand (j + 1) 6 p.h

unfoldable pub flip_b : Parameters → ℕ → ℕ
flip_b p j = ((flip_a p j + rand (j + 1) 7 (p.h - 1)) % 2 ^ 32 + 1) % 2 ^ 32 % p.h

-- One round of the loop over the last column, with `val` beside the memory.
unfoldable pub last_round : M256v → Parameters → ℕ → ℕ × Mem → Option (ℕ × Mem)
last_round g p j s =
    set_el g j (p.kprime + p.s - 1) s.0 s.1 >>= λ m. gf256_mul s.0 2 >>= λ v. some (v, m)

-- The loop that copies a column, multiplied by alpha, to the one before it.
unfoldable pub copy_round : M256v → ℕ → ℕ → Mem → Option Mem
copy_round g j i m = get_el g i (j + 1) m >>= λ v. gf256_mul 2 v >>= λ x. set_el g i j x m

unfoldable pub flip : M256v → ℕ → ℕ → Mem → Option Mem
flip g a j m = get_el g a j m >>= λ v. set_el g a j (gf256_add 1 v) m

-- One round of the loop over the columns before the last.
unfoldable pub column_round : M256v → Parameters → ℕ → Mem → Option Mem
column_round g p j m =
    for_range p.h 0 (copy_round g j) m >>= λ m. flip g (flip_a p j) j m >>= flip g (flip_b p j) j

-- That loop, from column `n - 1` down to 0.
unfoldable pub column_rounds : M256v → Parameters → ℕ → Mem → Option Mem
column_rounds g p zero m = some m
column_rounds g p (suc j) m = column_round g p j m >>= column_rounds g p j

unfoldable pub hdpc_generate_mat : M256v → Parameters → Mem → Option Mem
hdpc_generate_mat h p m =
    assert (h.n_row == p.h)
    >> (assert (h.n_col == p.l)
        >> (get_subview h 0 0 p.h (p.kprime + p.s) >>= λ g.
            for_range p.h 0 (last_round g p) (1, m) >>= λ s.
            column_rounds g p (p.kprime + p.s - 1) s.1 >>= λ m.
            get_subview h 0 (p.kprime + p.s) p.h p.h >>= λ i_h.
            clear i_h m >>= for_range p.h 0 (λ i. set_el i_h i i 1)))

-- The two rows that get a one in column `j`, in `hdpc_generate_mat_specexact`.
unfoldable pub mt_a : Parameters → ℕ → ℕ
mt_a p j = rand (j + 1) 6 p.h

unfoldable pub mt_b : Parameters → ℕ → ℕ
mt_b p j = ((mt_a p j + rand (j + 1) 7 (p.h - 1)) % 2 ^ 32 + 1) % 2 ^ 32 % p.h

-- One round of the loop over the columns of MT before the last.
unfoldable pub mt_round : M256v → Parameters → ℕ → Mem → Option Mem
mt_round mt p j m = set_el mt (mt_a p j) j 1 m >>= set_el mt (mt_b p j) j 1

-- One round of the loop over the diagonals of GAMMA, with `val` beside the memory.
unfoldable pub gamma_round : M256v → ℕ → ℕ → ℕ × Mem → Option (ℕ × Mem)
gamma_round gamma d i s = for_range (d - i) i (λ j. set_el gamma j (j - i) s.0) s.1 >>= λ m.
    gf256_mul s.0 2 >>= λ v. some (v, m)

-- `hdpc_generate_mat_specexact`, with the addresses that `malloc` gives for MT and GAMMA. The sizes
-- that it is asked for are products of `int`s.
unfoldable pub hdpc_generate_mat_specexact : M256v → Parameters → ℕ → ℕ → Mem → Option Mem
hdpc_generate_mat_specexact h p mt_mem gamma_mem m =
    let d = p.kprime + p.s in
    let mt = m256v_make p.h d mt_mem in
    let gamma = m256v_make d d gamma_mem in
    assert (h.n_row == p.h)
    >> (assert (h.n_col == p.l)
        >> (int32 (pos (p.h * d)) >>= λ _. clear mt m >>= λ m.
            for_range (d - 1) 0 (mt_round mt p) m >>= λ m.
            for_range p.h 0 (last_round mt p) (1, m) >>= λ s. int32 (pos (d * d)) >>= λ _.
            clear gamma s.1 >>= λ m. for_range d 0 (gamma_round gamma d) (1, m) >>= λ s.
            get_subview h 0 0 p.h d >>= λ g. mul mt gamma g s.1 >>= λ m.
            get_subview h 0 d p.h p.h >>= λ i_h.
            clear i_h m >>= for_range p.h 0 (λ i. set_el i_h i i 1)))
