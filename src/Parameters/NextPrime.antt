-- ===== src/Parameters/NextPrime.antt =====
-- `nextprime` of rfc6330_alg/parameters.c finds the least prime not below its argument.
use tv_rq.Prelude.{
  subst, ◌||◌, ℕ, zero, suc, ◌+◌, ◌-◌, ◌≤◌, ◌<◌, ◌%◌, ◌≡◌, refl, Bool, true, false, ◌&&◌, inl, inr,
  some, List, [], ◌∷◌, leb, ltb, ◌==◌, arith, Bool-cases, all_below, all_below_sound, if◌then◌else◌,
  leb→le,
}
use tv_rq.Prelude.Primes.{IsPrime, is_prime, is_prime_sound}
use tv_rq.Parameters.Primes.{small_primes, next_in, nextprime}
use native.Mathlib.Decide.{dec_lt}

-- The least divisor of `n` from `d` on, if the fuel reaches it.
find_divisor : ℕ → ℕ → ℕ → ℕ
find_divisor zero d n = d
find_divisor (suc fuel) d n = elim (n % d == 0) [ true ↦ d | false ↦ find_divisor fuel (suc d) n ]

-- `n` has a proper divisor or is below 2.
composite : ℕ → Bool
composite n =
    let d = find_divisor 50 2 n in if ltb n 2 then true else leb 2 d && (ltb d n && n % d == 0)

composite_sound : (n : ℕ) → composite n ≡ true → ¬ (IsPrime n)
unfolding composite
composite_sound n h p = ground (arith, p.1 (find_divisor 50 2 n))

-- The list holds the primes from `lo` on, with no prime left out.
all_primes : ℕ → List ℕ → Bool
all_primes lo [] = true
all_primes lo (p ∷ ps) =
    leb lo p
    && (is_prime p && (all_below (p - lo) (λ i. composite (lo + i)) && all_primes (suc p) ps))

all_primes_table : all_primes 0 small_primes ≡ true
unfolding all_primes all_below composite find_divisor is_prime small_primes
all_primes_table = refl

record Head (lo r : ℕ) (rs : List ℕ) : Type 0 where
  above : lo ≤ r
  prime : is_prime r ≡ true
  gap : all_below (r - lo) (λ i. composite (lo + i)) ≡ true
  rest : all_primes (suc r) rs ≡ true

all_primes-Head : (lo r : ℕ) (rs : List ℕ) → all_primes lo (r ∷ rs) ≡ true → Head lo r rs
unfolding all_primes
all_primes-Head lo r rs h = ground arith

-- No prime stands in a gap of the list.
gap_empty : (lo r : ℕ) (rs : List ℕ) → Head lo r rs → (q : ℕ) → IsPrime q → lo ≤ q → r ≤ q
gap_empty lo r rs h q prime low = elim (dec_lt q r) [
  | yes below ↦ absurd (
      composite_sound q
        (subst (λ t. composite t ≡ true) {x = lo + (q - lo)} (omega arith)
          (all_below_sound (r - lo) (λ i. composite (lo + i)) (q - lo) h.gap (omega arith)))
        prime)
  | no above ↦ omega arith
]

found : (r : ℕ) (rs : List ℕ) (val p : ℕ) → leb val r ≡ true → next_in (r ∷ rs) val ≡ some p → r ≡ p
unfolding next_in
found r rs val p t e = ground arith

passed :
    (r : ℕ) (rs : List ℕ) (val p : ℕ)
    → leb val r ≡ false
    → next_in (r ∷ rs) val ≡ some p
    → next_in rs val ≡ some p
unfolding next_in
passed r rs val p t e = ground arith

leb-false : (a b : ℕ) → leb a b ≡ false → b < a
leb-false a b h = ground arith

-- What `next_in` finds in such a list.
next_in_least :
    (lo : ℕ) (ps : List ℕ) (val p : ℕ)
    → all_primes lo ps ≡ true
    → next_in ps val ≡ some p
    → (val ≤ p) × IsPrime p × ((q : ℕ) → IsPrime q → lo ≤ q → val ≤ q → p ≤ q)
next_in_least lo [] val p h e = unfold next_in in cc
next_in_least lo (r ∷ rs) val p h e = elim (Bool-cases (leb val r)) [
  | inl t ↦
      let same : r ≡ p = found r rs val p t e in
      rw (← same) (
        leb→le val r t,
        is_prime_sound r head.prime,
        λ q prime low _. gap_empty lo r rs head q prime low,
      )
  | inr t ↦
      let (up, prime, least) = next_in_least (suc r) rs val p head.rest (passed r rs val p t e) in
      (up, prime, λ q q_prime low above. least q q_prime (omega (arith, leb-false val r t)) above)
]
  where
    head : Head lo r rs
    head = all_primes-Head lo r rs h

-- Some entry is not below `val`.
ends_above : List ℕ → ℕ → Bool
ends_above [] val = false
ends_above (r ∷ rs) val = leb val r || ends_above rs val

next_in_total :
    (ps : List ℕ) (val : ℕ) → ends_above ps val ≡ true → (p : ℕ) × (next_in ps val ≡ some p)
unfolding next_in ends_above
next_in_total [] val h = cc
next_in_total (r ∷ rs) val h = elim (Bool-cases (leb val r)) [
  | inl t ↦ (r, rw t)
  | inr t ↦ let (p, e) = next_in_total rs val (ground arith) in (p, rw t e)
]

ends_above_mono :
    (ps : List ℕ) (val top : ℕ) → val ≤ top → ends_above ps top ≡ true → ends_above ps val ≡ true
unfolding ends_above
ends_above_mono [] val top h e = cc
ends_above_mono (r ∷ rs) val top h e = ground (arith, ends_above_mono rs val top h)

small_primes-end : ends_above small_primes 1999 ≡ true
unfolding ends_above small_primes
small_primes-end = refl

-- For every argument up to 1999 the search succeeds, with the least prime not below it.
pub nextprime_lem :
    (val : ℕ)
    → val ≤ 1999
    → (p : ℕ) × (nextprime val ≡ some p)
      × (val ≤ p)
      × IsPrime p
      × ((q : ℕ) → IsPrime q → val ≤ q → p ≤ q)
unfolding nextprime
nextprime_lem val h =
    let (p, e) =
      next_in_total small_primes val (ends_above_mono small_primes val 1999 h small_primes-end) in
    let (up, prime, least) = next_in_least 0 small_primes val p all_primes_table e in
    (p, e, up, prime, λ q q_prime above. least q q_prime (omega arith) above)
