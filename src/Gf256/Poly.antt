-- ===== src/Gf256/Poly.antt =====
-- GF(256) as it is defined: polynomials over GF(2) modulo x^8 + x^4 + x^3 + x^2 + 1 (0x11d), a
-- byte's k-th digit being the coefficient of x^k. Independent of the tables of algebra/gf256.c.
use native.Mathlib.Nat.{pow-succ', div-div-eq-div-mul}
use tv_rq.Prelude.{
  ℕ, zero, suc, ◌+◌, ◌*◌, ◌/◌, ◌%◌, ◌<◌, ◌≡◌, refl, sym, ◌∙◌, ap, ◌⊎◌, bit_xor, arith, Bool, ◌^◌,
  ◌==◌, ==_iff, all_below, all_below_sound, ltb, ltb→lt,
}
use tv_rq.Prelude.Bits.{
  zero-xor, xor-zero, xor_self, xor_comm, xor_assoc, xor_interchange, xor-half, xor-parity,
  xor-double, xor-shift, xor-lt,
}

-- The reducing polynomial if the digit is 1.
abbrev reduce : ℕ → ℕ
reduce q = q * 0x11d

-- The product with x.
unfoldable pub times_x : ℕ → ℕ
times_x b = bit_xor (2 * b) (reduce (b / 128))

-- The product of the digit `q` and the polynomial `b`.
abbrev pub scale : ℕ → ℕ → ℕ
scale zero b = 0
scale (suc q) b = b

-- The product of `b` with the `n` lowest coefficients of `a`.
unfoldable pub poly_mul : ℕ → ℕ → ℕ → ℕ
poly_mul zero a b = 0
poly_mul (suc n) a b = bit_xor (scale (a % 2) b) (poly_mul n (a / 2) (times_x b))

infixl 70 ◌⊗◌
unfoldable pub ◌⊗◌ : ℕ → ℕ → ℕ
unfolding poly_mul
a ⊗ b = poly_mul 8 a b

digit_cases : (q : ℕ) → q < 2 → (q ≡ 0) ⊎ (q ≡ 1)
digit_cases q h = omega arith

scale-xor : (q a b : ℕ) → scale q (bit_xor a b) ≡ bit_xor (scale q a) (scale q b)
scale-xor zero a b = sym (zero-xor 0)
scale-xor (suc q) a b = refl

xor-scale : (p q b : ℕ) → p < 2 → q < 2 → scale ((p + q) % 2) b ≡ bit_xor (scale p b) (scale q b)
xor-scale zero zero b h k = sym (zero-xor 0)
xor-scale zero (suc zero) b h k = sym (zero-xor b)
xor-scale (suc zero) zero b h k = sym (xor-zero b)
xor-scale (suc zero) (suc zero) b h k = sym (xor_self b)
xor-scale zero (suc (suc q)) b h k = absurd (omega arith)
xor-scale (suc zero) (suc (suc q)) b h k = absurd (omega arith)
xor-scale (suc (suc p)) q b h k = absurd (omega arith)

reduce-xor : (p q : ℕ) → p < 2 → q < 2 → reduce (bit_xor p q) ≡ bit_xor (reduce p) (reduce q)
reduce-xor zero zero h k = refl
reduce-xor zero (suc zero) h k = refl
reduce-xor (suc zero) zero h k = refl
reduce-xor (suc zero) (suc zero) h k = refl
reduce-xor zero (suc (suc q)) h k = absurd (omega arith)
reduce-xor (suc zero) (suc (suc q)) h k = absurd (omega arith)
reduce-xor (suc (suc p)) q h k = absurd (omega arith)

-- Multiplication by x is linear.
pub times_x-xor :
    (a b : ℕ) → a < 256 → b < 256 → times_x (bit_xor a b) ≡ bit_xor (times_x a) (times_x b)
unfolding times_x
times_x-xor a b h k =
    rw
      (
        xor-shift 7 a b,
        reduce-xor (a / 128) (b / 128) (omega arith) (omega arith),
        ← xor-double a b,
      )
      (xor_interchange (2 * a) (2 * b) (reduce (a / 128)) (reduce (b / 128)))

times_x_table : all_below 256 (λ b. ltb (times_x b) 256) ≡ Bool.true
unfolding times_x all_below
times_x_table = refl

pub times_x-lt : (b : ℕ) → b < 256 → times_x b < 256
times_x-lt b h = ltb→lt _ _ (all_below_sound 256 (λ b. ltb (times_x b) 256) b times_x_table h)

module _ (n : ℕ) where
  poly_mul-xor_step :
      (a b c : ℕ)
      → poly_mul n (a / 2) (bit_xor (times_x b) (times_x c))
        ≡ bit_xor (poly_mul n (a / 2) (times_x b)) (poly_mul n (a / 2) (times_x c))
      → times_x (bit_xor b c) ≡ bit_xor (times_x b) (times_x c)
      → poly_mul (suc n) a (bit_xor b c) ≡ bit_xor (poly_mul (suc n) a b) (poly_mul (suc n) a c)
  unfolding poly_mul
  poly_mul-xor_step a b c ih linear =
      rw (linear, ih, scale-xor (a % 2) b c) (xor_interchange _ _ _ _)

-- The product is linear in its second factor.
poly_mul-xor_right :
    (n a b c : ℕ)
    → b < 256
    → c < 256
    → poly_mul n a (bit_xor b c) ≡ bit_xor (poly_mul n a b) (poly_mul n a c)
poly_mul-xor_right zero a b c h k = unfold poly_mul in sym (zero-xor 0)
poly_mul-xor_right (suc n) a b c h k =
    poly_mul-xor_step n a b c
      (poly_mul-xor_right n (a / 2) (times_x b) (times_x c) (times_x-lt b h) (times_x-lt c k))
      (times_x-xor b c h k)

-- And in its first.
poly_mul-xor_left :
    (n a b c : ℕ) → poly_mul n (bit_xor a b) c ≡ bit_xor (poly_mul n a c) (poly_mul n b c)
unfolding poly_mul
poly_mul-xor_left zero a b c = sym (zero-xor 0)
poly_mul-xor_left (suc n) a b c =
    rw
      (
        xor-half a b,
        poly_mul-xor_left n (a / 2) (b / 2) (times_x c),
        digit,
        xor-scale (a % 2) (b % 2) c (omega arith) (omega arith),
      )
      (xor_interchange _ _ _ _)
  where
    digit : bit_xor a b % 2 ≡ (a % 2 + b % 2) % 2
    digit = omega (arith, xor-parity a b)

scale-lt : (q b : ℕ) → b < 256 → scale q b < 256
scale-lt zero b h = omega arith
scale-lt (suc q) b h = h

times_x-scale : (q b : ℕ) → times_x (scale q b) ≡ scale q (times_x b)
times_x-scale zero b = unfold times_x in refl
times_x-scale (suc q) b = refl

poly_mul-lt : (n a b : ℕ) → b < 256 → poly_mul n a b < 256
unfolding poly_mul
poly_mul-lt zero a b h = omega arith
poly_mul-lt (suc n) a b h =
    xor-lt 8 _ _ (scale-lt (a % 2) b h) (poly_mul-lt n (a / 2) (times_x b) (times_x-lt b h))

-- Multiplying the first factor by x, below degree n, multiplies the product by x.
poly_mul-times_x : (n a b : ℕ) → b < 256 → times_x (poly_mul n a b) ≡ poly_mul n a (times_x b)
unfolding poly_mul
poly_mul-times_x zero a b h = unfold times_x in refl
poly_mul-times_x (suc n) a b h =
    times_x-xor (scale (a % 2) b) (poly_mul n (a / 2) (times_x b)) (scale-lt (a % 2) b h)
      (poly_mul-lt n (a / 2) (times_x b) (times_x-lt b h))
    ∙ rw (times_x-scale (a % 2) b, poly_mul-times_x n (a / 2) (times_x b) (times_x-lt b h))

-- The product with x^n.
unfoldable pub times_x_pow : ℕ → ℕ → ℕ
times_x_pow zero b = b
times_x_pow (suc n) b = times_x (times_x_pow n b)

times_x_pow-times_x : (n b : ℕ) → times_x_pow n (times_x b) ≡ times_x (times_x_pow n b)
unfolding times_x_pow
times_x_pow-times_x zero b = refl
times_x_pow-times_x (suc n) b = ap times_x (times_x_pow-times_x n b)

pub times_x_pow-lt : (n b : ℕ) → b < 256 → times_x_pow n b < 256
unfolding times_x_pow
times_x_pow-lt zero b h = h
times_x_pow-lt (suc n) b h = times_x-lt _ (times_x_pow-lt n b h)

-- The digit of the highest power, taken off a product.
poly_mul_top :
    (n a b : ℕ)
    → poly_mul (suc n) a b ≡ bit_xor (poly_mul n a b) (scale (a / 2 ^ n % 2) (times_x_pow n b))
unfolding poly_mul times_x_pow
poly_mul_top zero a b = rw one (xor_comm (scale (a % 2) b) 0)
  where
    one : a / 2 ^ 0 ≡ a
    one = omega arith
poly_mul_top (suc n) a b =
    ap (bit_xor (scale (a % 2) b)) (poly_mul_top n (a / 2) (times_x b))
    ∙ rw (times_x_pow-times_x n b, ← halves) (sym (xor_assoc _ _ _))
  where
    halves : a / 2 ^ suc n ≡ a / 2 / 2 ^ n
    halves = rw (div-div-eq-div-mul a 2 (2 ^ n), pow-succ' 2 n)

poly_mul_zero : (n b : ℕ) → poly_mul n 0 b ≡ 0
unfolding poly_mul
poly_mul_zero zero b = refl
poly_mul_zero (suc n) b = zero-xor _ ∙ poly_mul_zero n (times_x b)

reduce_table : all_below 256 (λ b. poly_mul 8 0x11d b == times_x (times_x_pow 7 b)) ≡ Bool.true
unfolding all_below poly_mul times_x times_x_pow
reduce_table = refl

-- Modulo the polynomial x^8 is the polynomial's rest.
poly_mul-reduce :
    (q b : ℕ) → q < 2 → b < 256 → poly_mul 8 (reduce q) b ≡ times_x (scale q (times_x_pow 7 b))
poly_mul-reduce zero b h k = unfold poly_mul times_x in refl
poly_mul-reduce (suc zero) b h k =
    (==_iff _ _).0
      (all_below_sound 256 (λ b. poly_mul 8 0x11d b == times_x (times_x_pow 7 b)) b reduce_table k)
poly_mul-reduce (suc (suc q)) b h k = absurd (omega arith)

poly_mul-double : (n a b : ℕ) → poly_mul (suc n) (2 * a) b ≡ poly_mul n a (times_x b)
unfolding poly_mul
poly_mul-double n a b = rw (even, half) (zero-xor _)
  where
    even : 2 * a % 2 ≡ 0
    even = omega arith

    half : 2 * a / 2 ≡ a
    half = omega arith

-- Multiplying the first factor by x multiplies the product by x.
pub times_x-⊗ : (a b : ℕ) → a < 256 → b < 256 → times_x a ⊗ b ≡ times_x (a ⊗ b)
unfolding ◌⊗◌
times_x-⊗ a b h k =
    ap (λ t. poly_mul 8 t b) unfold_x
    ∙ poly_mul-xor_left 8 (2 * a) (reduce (a / 128)) b
    ∙ rw
        (
          poly_mul-double 7 a b,
          poly_mul-reduce (a / 128) b (omega arith) k,
          ← poly_mul-times_x 7 a b k,
          ← times_x-xor (poly_mul 7 a b) (scale (a / 128) (times_x_pow 7 b)) (poly_mul-lt 7 a b k)
              (scale-lt (a / 128) _ (times_x_pow-lt 7 b k)),
        )
        (ap times_x (sym (poly_mul_top 7 a b ∙ rw digit)))
  where
    unfold_x : times_x a ≡ bit_xor (2 * a) (reduce (a / 128))
    unfold_x = unfold times_x in refl

    digit : a / 2 ^ 7 % 2 ≡ a / 128
    digit = omega arith

pub ⊗-lt : (a b : ℕ) → b < 256 → a ⊗ b < 256
unfolding ◌⊗◌
⊗-lt a b h = poly_mul-lt 8 a b h

pub zero-⊗ : (b : ℕ) → 0 ⊗ b ≡ 0
unfolding ◌⊗◌
zero-⊗ b = poly_mul_zero 8 b

poly_mul-zero : (n a : ℕ) → poly_mul n a 0 ≡ 0
unfolding poly_mul times_x
poly_mul-zero zero a = refl
poly_mul-zero (suc n) a =
    rw (scale_zero (a % 2)) (zero-xor (poly_mul n (a / 2) 0) ∙ poly_mul-zero n (a / 2))
  where
    scale_zero : (q : ℕ) → scale q 0 ≡ 0
    scale_zero zero = refl
    scale_zero (suc q) = refl

pub ⊗-zero : (a : ℕ) → a ⊗ 0 ≡ 0
unfolding ◌⊗◌
⊗-zero a = poly_mul-zero 8 a

pub one-⊗ : (b : ℕ) → 1 ⊗ b ≡ b
unfolding ◌⊗◌ poly_mul
one-⊗ b = rw (poly_mul_zero 7 (times_x b)) (xor-zero b)

-- The product distributes over the sum.
pub ⊗-xor : (a b c : ℕ) → b < 256 → c < 256 → a ⊗ bit_xor b c ≡ bit_xor (a ⊗ b) (a ⊗ c)
unfolding ◌⊗◌
⊗-xor a b c h k = poly_mul-xor_right 8 a b c h k

pub xor-⊗ : (a b c : ℕ) → bit_xor a b ⊗ c ≡ bit_xor (a ⊗ c) (b ⊗ c)
unfolding ◌⊗◌
xor-⊗ a b c = poly_mul-xor_left 8 a b c
