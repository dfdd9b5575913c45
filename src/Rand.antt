-- ===== src/Rand.antt =====
-- rfc6330_alg/rand.c: the random number generator of RFC 6330, section 5.3.5.1.
mod V0
mod V1
mod V2
mod V3
pub mod Bounds
use tv_rq.Prelude.{ℕ, ◌+◌, ◌/◌, ◌%◌, ◌^◌, bit_xor, get_or}
use V0.{v0}
use V1.{v1}
use V2.{v2}
use V3.{v3}

-- `Rand(y, i, m)` for a `uint32_t` y; the `int`s i and m are not negative in any call. The sums
-- wrap at 2^32, of which `& 0xff` keeps the lowest byte; each index is below the tables' 256.
unfoldable pub rand : ℕ → ℕ → ℕ → ℕ
unfolding v0 v1 v2 v3
rand y i m =
    let x0 = (y + i) % 2 ^ 32 % 256 in
    let x1 = (y / 2 ^ 8 + i) % 2 ^ 32 % 256 in
    let x2 = (y / 2 ^ 16 + i) % 2 ^ 32 % 256 in
    let x3 = (y / 2 ^ 24 + i) % 2 ^ 32 % 256 in
    bit_xor (bit_xor (bit_xor (get_or v0 x0 0) (get_or v1 x1 0)) (get_or v2 x2 0)) (get_or v3 x3 0)
    % m
