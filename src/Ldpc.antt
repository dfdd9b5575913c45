-- ===== src/Ldpc.antt =====
-- tvrq/ldpc.c: the LDPC rows of the matrix. `none` is a failed assert.
pub mod Ones
pub mod Rows
mod Examples
use tv_rq.Prelude.{ℕ, ◌+◌, ◌/◌, ◌%◌, Option, ◌==◌, assert, ◌>>=◌, ◌>>◌}
use tv_rq.Memory.{Mem, for_range}
use tv_rq.Parameters.{Parameters}
use tv_rq.M256v.{M256v, set_el}
use tv_rq.M256v.Whole.{clear}

-- One round of the loop over the columns of the left part.
unfoldable pub left_round : M256v → Parameters → ℕ → Mem → Option Mem
left_round l p i m =
    let a = 1 + i / p.s in
    let b = i % p.s in
    let b1 = (b + a) % p.s in
    let b2 = (b1 + a) % p.s in set_el l b i 1 m >>= λ m. set_el l b1 i 1 m >>= set_el l b2 i 1

-- One round of the loop over the diagonal.
unfoldable pub diagonal_round : M256v → Parameters → ℕ → Mem → Option Mem
diagonal_round l p i m = set_el l i (i + p.b) 1 m

-- One round of the loop over the two diagonals of the right part.
unfoldable pub right_round : M256v → Parameters → ℕ → Mem → Option Mem
right_round l p i m =
    let a = i % p.p in let b = (i + 1) % p.p in set_el l i (p.w + a) 1 m >>= set_el l i (p.w + b) 1

unfoldable pub ldpc_generate_mat : M256v → Parameters → Mem → Option Mem
ldpc_generate_mat l p m =
    assert (l.n_row == p.s)
    >> (assert (l.n_col == p.l)
        >> (clear l m >>= λ m. for_range p.b 0 (left_round l p) m >>= λ m.
            for_range p.s 0 (diagonal_round l p) m >>= for_range p.s 0 (right_round l p)))
