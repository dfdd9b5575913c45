-- ===== src/RqMatrix.antt =====
-- tvrq/rq_matrix.c: the matrix of the equations that symbols with given identifiers and the
-- precode put on the intermediate symbols. `none` is a failed assert.
pub mod Rows
mod Examples
use tv_rq.Prelude.{
  ℕ, ◌+◌, ◌-◌, ◌%◌, ◌^◌, Option, none, some, ltb, leb, ◌==◌, if◌then◌else◌, assert, ◌>>=◌, ◌>>◌,
}
use tv_rq.Memory.{Mem}
use tv_rq.Parameters.{Parameters}
use tv_rq.M256v.{M256v, get_subview}
use tv_rq.Lt.{lt_generate_mat}
use tv_rq.Ldpc.{ldpc_generate_mat}
use tv_rq.Hdpc.{hdpc_generate_mat}

-- The number of rows and that of columns.
unfoldable pub rq_matrix_get_dim : Parameters → ℕ → ℕ × ℕ
rq_matrix_get_dim p n_esis = (n_esis + (p.kprime - p.k) + p.s + p.h, p.l)

-- `ISIs`, after the two loops that write it; `esis` and `ISIs` are arrays of `uint32_t`.
unfoldable pub isis_of : Parameters → ℕ → (ℕ → ℕ) → ℕ → ℕ
isis_of p n_esis esis i =
    let n_pad = p.kprime - p.k in
    if ltb i n_esis
    then (esis i + (if leb p.k (esis i) then n_pad else 0)) % 2 ^ 32
    else p.k + (i - n_esis)

-- `rq_matrix_generate`. Without identifiers and padding the array `ISIs` has no element; C leaves the
-- declaration of such an array undefined, and here it is the empty one that compilers make of it.
unfoldable pub rq_matrix_generate : M256v → Parameters → ℕ → (ℕ → ℕ) → Mem → Option Mem
rq_matrix_generate mat p n_esis esis m =
    let dim = rq_matrix_get_dim p n_esis in
    let n_isis = n_esis + (p.kprime - p.k) in
    assert (dim.0 == mat.n_row)
    >> (assert (dim.1 == mat.n_col)
        >> (get_subview mat 0 0 n_isis p.l >>= λ lt.
            lt_generate_mat lt p n_isis (isis_of p n_esis esis) m >>= λ m.
            get_subview mat n_isis 0 p.s p.l >>= λ ldpc. ldpc_generate_mat ldpc p m >>= λ m.
            get_subview mat (n_isis + p.s) 0 p.h p.l >>= λ hdpc.
            hdpc_generate_mat hdpc p m >>= λ m. assert (n_isis + p.s + p.h == dim.0) >> some m))
