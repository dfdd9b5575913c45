-- ===== src/Parameters/Examples.antt =====
-- Runs of `parameters_get`, and its theorems at concrete numbers of symbols.
use tv_rq.Prelude.{ℕ, ◌<◌, ◌≤◌, ◌≡◌, refl, some, Bool, All, arith}
use mathlib.Core.List.{Mem}
use tv_rq.Prelude.Int.{pos, negsuc}
use tv_rq.Prelude.Primes.{IsPrime, is_prime, is_prime_sound}
use tv_rq.Parameters.{Parameters, found, unsupported, parameters_get, first_set, complete}
use tv_rq.Parameters.Row.{row}
use tv_rq.Parameters.Sets.{base_param_sets}
use tv_rq.Parameters.Primes.{nextprime}
use tv_rq.Parameters.Valid.{IsValid}
use tv_rq.Parameters.NextPrime.{nextprime_lem}
use tv_rq.Parameters.Get.{parameters_get-found, parameters_get-unsupported}
use native.Mathlib.Decide.{dec_lt}

abbrev pub ten : Parameters
ten = record {
  k = 10;
  kprime = 10;
  j = 254;
  l = 27;
  s = 7;
  h = 10;
  b = 10;
  w = 17;
  p = 10;
  p1 = 11;
  u = 0;
}

get_ten : parameters_get (pos 10) ≡ found ten
unfolding parameters_get first_set complete base_param_sets nextprime
get_ten = refl

prime_7 : is_prime 7 ≡ Bool.true
unfolding is_prime
prime_7 = refl

prime_11 : is_prime 11 ≡ Bool.true
unfolding is_prime
prime_11 = refl

prime_17 : is_prime 17 ≡ Bool.true
unfolding is_prime
prime_17 = refl

eleven_least : (q : ℕ) → IsPrime q → 10 ≤ q → 11 ≤ q
eleven_least q prime h = elim (dec_lt 10 q) [
  | yes p ↦ p
  | no p ↦ absurd (prime.1 2 (omega arith) (omega arith) (omega arith))
]

pub ten-IsValid : IsValid ten
ten-IsValid = record {
  k_pos = omega arith;
  padded = omega arith;
  kprime_max = omega arith;
  j_max = omega arith;
  total = refl;
  split = refl;
  lt_part = refl;
  pi_part = refl;
  b_pos = omega arith;
  s_min = omega arith;
  s_max = omega arith;
  h_min = omega arith;
  h_max = omega arith;
  w_min = omega arith;
  w_max = omega arith;
  s_prime = is_prime_sound 7 prime_7;
  w_prime = is_prime_sound 17 prime_17;
  p1_above = omega arith;
  p1_near = omega arith;
  p1_prime = is_prime_sound 11 prime_11;
  p1_least = eleven_least;
}

parameters_get-found_example :
    (p : Parameters) × (parameters_get (pos 1000) ≡ found p)
    × IsValid p
    × (p.k ≡ 1000)
    × All (λ t. 1000 ≤ t.kprime → p.kprime ≤ t.kprime) base_param_sets
    × Mem (row p.kprime p.j p.s p.h p.w) base_param_sets
parameters_get-found_example = parameters_get-found 1000 (omega arith) (omega arith)

parameters_get-unsupported_example :
    (parameters_get (negsuc 56404) ≡ unsupported)
    × (parameters_get (pos 0) ≡ unsupported)
    × (56403 < 56404 → parameters_get (pos 56404) ≡ unsupported)
parameters_get-unsupported_example = parameters_get-unsupported 56404

nextprime_lem_example :
    (p : ℕ) × (nextprime 90 ≡ some p)
    × (90 ≤ p)
    × IsPrime p
    × ((q : ℕ) → IsPrime q → 90 ≤ q → p ≤ q)
nextprime_lem_example = nextprime_lem 90 (omega arith)
