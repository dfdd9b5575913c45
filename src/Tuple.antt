-- ===== src/Tuple.antt =====
-- rfc6330_alg/tuple.c: the tuple generator of RFC 6330, section 5.3.5.4. An internal symbol
-- identifier is a `uint32_t`, a number below 2^32; `none` is a failed assert.
pub mod Bounds
mod Examples
use tv_rq.Prelude.{
  ℕ, ◌+◌, ◌-◌, ◌*◌, ◌%◌, ◌^◌, ◌&&◌, bit_or, List, [], ◌∷◌, Option, none, some, leb, ltb,
  if◌then◌else◌, assert, ◌>>=◌, ◌>>◌,
}
use tv_rq.Parameters.{Parameters}
use tv_rq.Rand.{rand}

-- `f`, the thresholds of the degree distribution, less the leading 0.
unfoldable pub thresholds : List ℕ
thresholds =
    5243 ∷ 529531 ∷ 704294 ∷ 791675 ∷ 844104 ∷ 879057 ∷ 904023 ∷ 922747 ∷ 937311 ∷ 948962 ∷ 958494
    ∷ 966438 ∷ 973160 ∷ 978921 ∷ 983914 ∷ 988283 ∷ 992138 ∷ 995565 ∷ 998631 ∷ 1001391 ∷ 1003887
    ∷ 1006157 ∷ 1008229 ∷ 1010129 ∷ 1011876 ∷ 1013490 ∷ 1014983 ∷ 1016370 ∷ 1017662 ∷ 1048576 ∷ []

-- The loop of `Deg` from degree `d` on: `lo` is f[d - 1] and the list holds f[d], f[d + 1], ….
unfoldable pub deg_from : ℕ → ℕ → List ℕ → ℕ → ℕ → Option ℕ
deg_from d lo [] v w = none
deg_from d lo (hi ∷ rest) v w =
    if leb lo v && ltb v hi
    then some (if leb d (w - 2) then d else (w - 2))
    else deg_from (d + 1) hi rest v w

unfoldable pub deg : ℕ → ℕ → Option ℕ
deg v w = assert (ltb v (2 ^ 20)) >> deg_from 1 0 thresholds v w

pub record Tuple : Type 0 where
  pub d : ℕ
  pub a : ℕ
  pub b : ℕ
  pub d1 : ℕ
  pub a1 : ℕ
  pub b1 : ℕ

-- `y`, the seed of the first three random numbers.
unfoldable pub seed : ℕ → ℕ → ℕ
seed x j = let a = bit_or (53591 + j * 997) 1 in let b = 10267 * (j + 1) in (b + x * a) % 2 ^ 32

unfoldable pub tuple_generate_from_isi : ℕ → Parameters → Option Tuple
tuple_generate_from_isi x p =
    let y = seed x p.j in
    deg (rand y 0 (2 ^ 20)) p.w >>= λ d. some (record {
      d = d;
      a = 1 + rand y 1 (p.w - 1);
      b = rand y 2 p.w;
      d1 = if ltb d 4 then 2 + rand x 3 2 else 2;
      a1 = 1 + rand x 4 (p.p1 - 1);
      b1 = rand x 5 p.p1;
    })

-- The internal identifier of an encoding symbol: padding symbols stand from K to K' - 1.
unfoldable pub isi_of_esi : ℕ → Parameters → ℕ
isi_of_esi x p = if leb p.k x then (x + (p.kprime - p.k)) % 2 ^ 32 else x

unfoldable pub tuple_generate_from_esi : ℕ → Parameters → Option Tuple
tuple_generate_from_esi x p = tuple_generate_from_isi (isi_of_esi x p) p
