-- ===== src/Gf256/Field.antt =====
-- The table arithmetic of algebra/gf256.c is that of the field GF(256).
use tv_rq.Prelude.{
  ◌%◌, ==_zero, ℕ, zero, suc, ◌+◌, ◌-◌, ◌<◌, ◌≡◌, refl, sym, ap, ◌∙◌, arith, some, ◌>>=◌, bit_xor,
}
use native.Mathlib.Nat.{mod-eq_of_lt}
use tv_rq.Prelude.Int.{pos_part, pos, ◌-ℤ◌, ◌+ℤ◌}
use tv_rq.Prelude.Bits.{xor-lt}
use tv_rq.Gf256.{gf256_add, gf256_log, gf256_exp, gf256_mul, gf256_inv}
use tv_rq.Gf256.Poly.{
  ◌⊗◌, times_x, times_x_pow, times_x-⊗, times_x_pow-lt, ⊗-lt, one-⊗, zero-⊗, ⊗-zero, ⊗-xor,
}
use tv_rq.Gf256.Tables.{
  exp_at, log_at, gf256_log_lem, gf256_exp_lem, exp_at_zero, exp_at_255, exp_at-suc, exp_at-log_at,
  log_at-lt, log_at-exp_at, exp_at-lt, exp_at-pos,
}

-- From the entry at `e`, `i` places on is the product with x^i.
exp_at-add : (i e : ℕ) → i + e < 510 → exp_at (i + e) ≡ times_x_pow i (exp_at e)
unfolding times_x_pow
exp_at-add zero e h = ap exp_at {x = 0 + e} (omega arith)
exp_at-add (suc i) e h =
    ap exp_at {x = suc i + e} {y = i + e + 1} (omega arith)
    ∙ exp_at-suc (i + e) (omega arith)
    ∙ ap times_x (exp_at-add i e (omega arith))

exp_at-⊗ : (i b : ℕ) → i < 255 → b < 256 → exp_at i ⊗ b ≡ times_x_pow i b
unfolding times_x_pow
exp_at-⊗ zero b h k = rw exp_at_zero (one-⊗ b)
exp_at-⊗ (suc i) b h k =
    ap (λ t. t ⊗ b) (ap exp_at {x = suc i} {y = i + 1} (omega arith) ∙ exp_at-suc i (omega arith))
    ∙ times_x-⊗ (exp_at i) b (exp_at-lt i (omega arith)) k
    ∙ ap times_x (exp_at-⊗ i b (omega arith) k)

-- A nonzero factor is a power of x.
pow-⊗ : (a b : ℕ) → 0 < a → a < 256 → b < 256 → a ⊗ b ≡ times_x_pow (log_at a) b
pow-⊗ a b p h k =
    ap (λ t. t ⊗ b) (sym (exp_at-log_at a p h)) ∙ exp_at-⊗ (log_at a) b (log_at-lt a p h) k

exp_sum : (a b : ℕ) → 0 < a → a < 256 → 0 < b → b < 256 → exp_at (log_at a + log_at b) ≡ a ⊗ b
exp_sum a b p h q k =
    exp_at-add (log_at a) (log_at b) (omega (arith, log_at-lt a p h, log_at-lt b q k))
    ∙ ap (times_x_pow (log_at a)) (exp_at-log_at b q k)
    ∙ sym (pow-⊗ a b p h k)

-- The table at the sum of two logarithms holds the product.
pub gf256_exp-add :
    (a b : ℕ)
    → 0 < a
    → a < 256
    → 0 < b
    → b < 256
    → gf256_exp (gf256_log a +ℤ gf256_log b) ≡ some (a ⊗ b)
gf256_exp-add a b p h q k =
    rw (gf256_log_lem a p, gf256_log_lem b q, in_order)
      (gf256_exp_lem (log_at a + log_at b) (omega (arith, log_at-lt a p h, log_at-lt b q k))
        ∙ ap some (exp_sum a b p h q k))
  where
    in_order : (pos (log_at a) +ℤ pos (log_at b)) ≡ pos (log_at a + log_at b)
    in_order = ground arith

-- On bytes the product by tables never fails its assert, and is the product of the polynomials.
pub gf256_mul-eq-⊗ : (a b : ℕ) → a < 256 → b < 256 → gf256_mul a b ≡ some (a ⊗ b)
unfolding gf256_mul
gf256_mul-eq-⊗ zero b h k = ap some (sym (zero-⊗ b))
gf256_mul-eq-⊗ (suc a) zero h k =
    rw (==_zero (suc a) (omega arith)) (ap some (sym (⊗-zero (suc a))))
gf256_mul-eq-⊗ (suc a) (suc b) h k =
    rw (==_zero (suc a) (omega arith), ==_zero (suc b) (omega arith))
      (gf256_exp-add (suc a) (suc b) (omega arith) h (omega arith) k)

-- The logarithm of a nonzero byte fits a `uint8_t`.
pub gf256_log_byte : (a : ℕ) → 0 < a → a < 256 → pos (pos_part (gf256_log a) % 256) ≡ gf256_log a
gf256_log_byte a p h =
    rw (gf256_log_lem a p) (ap pos (mod-eq_of_lt (omega (arith, log_at-lt a p h))))

pub ⊗_comm : (a b : ℕ) → a < 256 → b < 256 → a ⊗ b ≡ b ⊗ a
⊗_comm zero b h k = zero-⊗ b ∙ sym (⊗-zero b)
⊗_comm (suc a) zero h k = ⊗-zero (suc a) ∙ sym (zero-⊗ (suc a))
⊗_comm (suc a) (suc b) h k =
    sym (exp_sum (suc a) (suc b) (omega arith) h (omega arith) k)
    ∙ ap exp_at (omega arith)
    ∙ exp_sum (suc b) (suc a) (omega arith) k (omega arith) h

pow-⊗_assoc : (i b c : ℕ) → b < 256 → c < 256 → times_x_pow i b ⊗ c ≡ times_x_pow i (b ⊗ c)
unfolding times_x_pow
pow-⊗_assoc zero b c h k = refl
pow-⊗_assoc (suc i) b c h k =
    times_x-⊗ (times_x_pow i b) c (times_x_pow-lt i b h) k ∙ ap times_x (pow-⊗_assoc i b c h k)

pub ⊗_assoc : (a b c : ℕ) → a < 256 → b < 256 → c < 256 → a ⊗ b ⊗ c ≡ a ⊗ (b ⊗ c)
⊗_assoc zero b c h k l = rw (zero-⊗ b, zero-⊗ c, zero-⊗ (b ⊗ c))
⊗_assoc (suc a) b c h k l =
    ap (λ t. t ⊗ c) (pow-⊗ (suc a) b (omega arith) h k)
    ∙ pow-⊗_assoc (log_at (suc a)) b c k l
    ∙ sym (pow-⊗ (suc a) (b ⊗ c) (omega arith) h (⊗-lt b c l))

-- The byte whose product with `v` is 1.
inverse : ℕ → ℕ
inverse v = exp_at (255 - log_at v)

inverse-lt : (v : ℕ) → inverse v < 256
unfolding inverse
inverse-lt v = exp_at-lt (255 - log_at v) (omega arith)

⊗-inverse : (v : ℕ) → 0 < v → v < 256 → v ⊗ inverse v ≡ 1
unfolding inverse
⊗-inverse v p h =
    pow-⊗ v (inverse v) p h (inverse-lt v)
    ∙ sym (exp_at-add (log_at v) (255 - log_at v) (omega (arith, log_at-lt v p h)))
    ∙ ap exp_at {y = 255} (omega (arith, log_at-lt v p h))
    ∙ exp_at_255

gf256_inv_lem : (v : ℕ) → 0 < v → v < 256 → gf256_inv v ≡ some (inverse v)
unfolding gf256_inv inverse
gf256_inv_lem (suc v) p h =
    rw (==_zero (suc v) p, gf256_log_lem (suc v) p, in_order)
      (gf256_exp_lem (255 - log_at (suc v)) (omega arith))
  where
    in_order : (pos 255 -ℤ pos (log_at (suc v))) ≡ pos (255 - log_at (suc v))
    in_order = ground (arith, log_at-lt (suc v) p h)
gf256_inv_lem zero p h = absurd (omega arith)

-- On the nonzero bytes the table of logarithms and that of powers are inverse, and the powers of x
-- below the 255th are all different.
pub gf256_exp-log :
    (v e : ℕ)
    → 0 < v
    → v < 256
    → e < 255
    → (gf256_exp (gf256_log v) ≡ some v)
      × ((gf256_exp (pos e) >>= λ w. some (gf256_log w)) ≡ some (pos e))
gf256_exp-log v e p h k = (
  rw (gf256_log_lem v p)
      (gf256_exp_lem (log_at v) (omega (arith, log_at-lt v p h)) ∙ ap some (exp_at-log_at v p h)),
  rw (gf256_exp_lem e (omega arith), gf256_log_lem (exp_at e) (exp_at-pos e k), log_at-exp_at e k),
)

-- Every nonzero byte has an inverse, which the code finds without a failed assert.
pub gf256_mul-inv :
    (v : ℕ)
    → 0 < v
    → v < 256
    → (w : ℕ) × (gf256_inv v ≡ some w) × (w < 256) × (gf256_mul v w ≡ some 1)
gf256_mul-inv v p h = (
  inverse v,
  gf256_inv_lem v p h,
  inverse-lt v,
  gf256_mul-eq-⊗ v (inverse v) h (inverse-lt v) ∙ ap some (⊗-inverse v p h),
)

-- On bytes the product by tables commutes, associates and distributes over the sum.
pub gf256_mul_laws :
    (a b c : ℕ)
    → a < 256
    → b < 256
    → c < 256
    → (gf256_mul a b ≡ gf256_mul b a)
      × ((gf256_mul a b >>= λ p. gf256_mul p c) ≡ (gf256_mul b c >>= λ q. gf256_mul a q))
      × (gf256_mul a (gf256_add b c)
          ≡ (gf256_mul a b >>= λ p. gf256_mul a c >>= λ q. some (gf256_add p q)))
gf256_mul_laws a b c h k l = (
  gf256_mul-eq-⊗ a b h k ∙ ap some (⊗_comm a b h k) ∙ sym (gf256_mul-eq-⊗ b a k h),
  rw (
    gf256_mul-eq-⊗ a b h k,
    gf256_mul-eq-⊗ b c k l,
    gf256_mul-eq-⊗ (a ⊗ b) c (⊗-lt a b k) l,
    gf256_mul-eq-⊗ a (b ⊗ c) h (⊗-lt b c l),
    ⊗_assoc a b c h k l,
  ),
  rw (
    gf256_mul-eq-⊗ a b h k,
    gf256_mul-eq-⊗ a c h l,
    gf256_mul-eq-⊗ a (bit_xor b c) h (xor-lt 8 b c k l),
    ⊗-xor a b c k l,
  ),
)
