-- ===== src/Prelude/Primes.antt =====
-- Prime numbers, tested by trial division.
use Prim.Native.Nat.{ℕ, zero, suc, ◌*◌, ◌/◌, ◌%◌, ◌≤◌, ◌<◌}
use mathlib.Core.Path.{◌≡◌}
use mathlib.Core.Logic.{◌≢◌, inl, inr}
use mathlib.Core.Bool.{Bool, true, false, not, ◌&&◌}
use native.Mathlib.Decide.{dec_lt}
use native.Mathlib.Nat.{mul-mod_right, div-add-mod}
use native.Mathlib.Omega.{arith}
use tv_rq.Prelude.Tests.{ltb, leb, ◌==◌, ltb→lt, Bool-cases}

abbrev pub IsPrime : ℕ → Type 0
IsPrime n = (2 ≤ n) × ((d : ℕ) → 2 ≤ d → d < n → n % d ≢ 0)

-- No number from `d` up to the root of `n` divides `n`.
trial : ℕ → ℕ → ℕ → Bool
trial zero d n = false
trial (suc fuel) d n = elim (ltb n (d * d)) [
  | true ↦ true
  | false ↦ not (n % d == 0) && trial fuel (suc d) n
]

unfoldable pub is_prime : ℕ → Bool
unfolding trial
is_prime n = leb 2 n && trial n 2 n

-- With no divisor below the root there is none above.
cofactor :
    (n d c q : ℕ)
    → n < d * d
    → d ≤ c
    → 2 ≤ c
    → c < n
    → n ≡ q * c
    → (2 ≤ q) × (q < d) × (q < n) × (n % q ≡ 0)
cofactor n d c q root above two below e = (big, small, grind arith, rw e (mul-mod_right q c))
  where
    big : 2 ≤ q
    big = elim (dec_lt q 2) [ yes p ↦ absurd (grind arith) | no p ↦ omega arith ]

    small : q < d
    small = elim (dec_lt q d) [ yes p ↦ p | no p ↦ absurd (grind arith) ]

root_enough :
    (d n : ℕ)
    → 2 ≤ n
    → n < d * d
    → ((e : ℕ) → 2 ≤ e → e < d → n % e ≢ 0)
    → (c : ℕ) → 2 ≤ c
    → c < n
    → n % c ≢ 0
root_enough d n two root below c h k e = elim (dec_lt c d) [
  | yes p ↦ below c h p e
  | no p ↦
      let w = cofactor n d c (n / c) root (omega arith) h k (omega (arith, div-add-mod n c)) in
      below (n / c) w.0 w.1 w.3
]

-- One more candidate tried.
tried :
    (d n : ℕ)
    → ((e : ℕ) → 2 ≤ e → e < d → n % e ≢ 0)
    → (n % d == 0) ≡ false
    → (e : ℕ) → 2 ≤ e
    → e < suc d
    → n % e ≢ 0
tried d n below t e h k = elim (dec_lt e d) [
  | yes p ↦ below e h p
  | no p ↦ let same : e ≡ d = omega arith in rw same (λ z. ground arith)
]

trial_step :
    (fuel d n : ℕ)
    → trial (suc fuel) d n ≡ true
    → ltb n (d * d) ≡ false
    → ((n % d == 0) ≡ false) × (trial fuel (suc d) n ≡ true)
unfolding trial
trial_step fuel d n h t = ground arith

trial_sound :
    (fuel d n : ℕ)
    → 2 ≤ n
    → ((e : ℕ) → 2 ≤ e → e < d → n % e ≢ 0)
    → trial fuel d n ≡ true
    → IsPrime n
trial_sound zero d n two below h = unfold trial in cc
trial_sound (suc fuel) d n two below h = elim (Bool-cases (ltb n (d * d))) [
  | inl t ↦ (two, root_enough d n two (ltb→lt n (d * d) t) below)
  | inr t ↦
      let step = trial_step fuel d n h t in
      trial_sound fuel (suc d) n two (tried d n below step.0) step.1
]

pub is_prime_sound : (n : ℕ) → is_prime n ≡ true → IsPrime n
unfolding is_prime
is_prime_sound n h =
    trial_sound n 2 n (ground arith) (λ e two below. absurd (omega arith)) (ground arith)
