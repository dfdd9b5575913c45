-- ===== src/Lt/Skip.antt =====
-- The loop of tvrq/lt.c that skips positions beyond the PI symbols, round by round.
use tv_rq.Prelude.{
  ℕ, zero, suc, ◌+◌, ◌-◌, ◌*◌, ◌%◌, ◌≤◌, ◌<◌, ◌≡◌, refl, ap, ◌∙◌, some, arith, le→leb,
}
use native.Mathlib.Decide.{dec_lt}
use native.Mathlib.Nat.{mod-eq_of_lt, mod-eq-sub-mod}
use tv_rq.Parameters.{Parameters}
use tv_rq.Parameters.Valid.{IsValid}
use tv_rq.Lt.{skip_pi}

module _ (p : Parameters) (a1 : ℕ) where
  skip_here : (n b1 : ℕ) → b1 < p.p → skip_pi n p a1 b1 ≡ some b1
  unfolding skip_pi
  skip_here zero b1 h = ground arith
  skip_here (suc n) b1 h = ground arith

  skip_on : (n b1 : ℕ) → p.p ≤ b1 → skip_pi (suc n) p a1 b1 ≡ skip_pi n p a1 ((b1 + a1) % p.p1)
  unfolding skip_pi
  skip_on n b1 h = rw (le→leb p.p b1 h) refl

  -- The step wraps round at P1 at most once.
  step_low : (b1 : ℕ) → b1 + a1 < p.p1 → (b1 + a1) % p.p1 ≡ b1 + a1
  step_low b1 h = mod-eq_of_lt h

  step_wrap : (b1 : ℕ) → p.p1 ≤ b1 + a1 → b1 + a1 < 2 * p.p1 → (b1 + a1) % p.p1 ≡ b1 + a1 - p.p1
  step_wrap b1 h l = mod-eq-sub-mod h ∙ mod-eq_of_lt (omega arith)

  -- With a step of at most P the values rise until one wraps round, to one below P.
  skip_rising :
      (n b1 : ℕ)
      → 1 ≤ a1
      → a1 ≤ p.p
      → b1 < p.p1
      → p.p1 ≤ b1 + n
      → (b : ℕ) × (skip_pi n p a1 b1 ≡ some b) × (b < p.p)
  skip_rising zero b1 pos low below fuel = absurd (omega arith)
  skip_rising (suc n) b1 pos low below fuel = elim (dec_lt b1 p.p) [
    | yes h ↦ (b1, skip_here (suc n) b1 h, h)
    | no h ↦ elim (dec_lt (b1 + a1) p.p1) [
      | yes l ↦
          let (b, e, small) = skip_rising n (b1 + a1) pos low l (omega arith) in
          (b, skip_on n b1 (omega arith) ∙ ap (skip_pi n p a1) (step_low b1 l) ∙ e, small)
      | no l ↦ (
        b1 + a1 - p.p1,
        skip_on n b1 (omega arith)
            ∙ ap (skip_pi n p a1) (step_wrap b1 (omega arith) (omega arith))
            ∙ skip_here n (b1 + a1 - p.p1) (omega arith),
        omega arith,
      )
    ]
  ]

  -- With a greater step they fall by P1 - a1.
  skip_falling :
      (n b1 : ℕ)
      → p.p < a1
      → a1 < p.p1
      → p.p1 ≤ 2 * p.p
      → b1 < p.p1
      → b1 < p.p + n
      → (b : ℕ) × (skip_pi n p a1 b1 ≡ some b) × (b < p.p)
  skip_falling zero b1 great in_range near below fuel =
      (b1, skip_here zero b1 (omega arith), omega arith)
  skip_falling (suc n) b1 great in_range near below fuel = elim (dec_lt b1 p.p) [
    | yes h ↦ (b1, skip_here (suc n) b1 h, h)
    | no h ↦
        let (b, e, small) =
          skip_falling n (b1 + a1 - p.p1) great in_range near (omega arith) (omega arith) in
        (
          b,
          skip_on n b1 (omega arith)
              ∙ ap (skip_pi n p a1) (step_wrap b1 (omega arith) (omega arith))
              ∙ e,
          small,
        )
  ]

-- For valid parameters the loop of `lt_generate_mat` and `RqOutExecute` that skips the values from P
-- to P1 - 1 ends within P1 rounds, at a value below P.
pub skip_pi_lem :
    {p : Parameters} (a1 b1 : ℕ)
    → IsValid p
    → 1 ≤ a1
    → a1 < p.p1
    → b1 < p.p1
    → (b : ℕ) × (skip_pi p.p1 p a1 b1 ≡ some b) × (b < p.p)
skip_pi_lem {p} a1 b1 valid pos in_range below = elim (dec_lt p.p a1) [
  | yes great ↦ skip_falling p a1 p.p1 b1 great in_range valid.p1_near below (omega arith)
  | no low ↦ skip_rising p a1 p.p1 b1 pos (omega arith) below (omega arith)
]
