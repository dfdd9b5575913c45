-- ===== src/Prelude/Bits.antt =====
-- The laws of exclusive or at every width, from the digit recursion that it stands for.
use Prim.Native.Nat.{
  ℕ, zero, suc, ◌+◌, ◌*◌, ◌/◌, ◌%◌, ◌^◌, ◌≤◌, ◌<◌, bit_xor, digits, differ, bit_xor-bitwise,
}
use mathlib.Core.Path.{◌≡◌, refl, ap}
use native.Mathlib.Nat.{pow-suc, pow-succ', div-div-eq-div-mul}
use native.Mathlib.Omega.{arith}

abbrev xor_digits : ℕ → ℕ → ℕ → ℕ
xor_digits n a b = digits (λ y. y) differ n a b

-- Once the first number has run out the second is what is left.
xor_digits_done : (count b : ℕ) → xor_digits count 0 b ≡ b
xor_digits_done zero b = refl
xor_digits_done (suc count) b = refl

-- Any two counts of digits that are enough give one result.
xor_digits_enough : (c k a b : ℕ) → a ≤ c → a ≤ k → xor_digits c a b ≡ xor_digits k a b
xor_digits_enough c k zero b _ _ = omega (arith, xor_digits_done c b, xor_digits_done k b)
xor_digits_enough zero k (suc a) b few _ = absurd (omega arith)
xor_digits_enough (suc c) zero (suc a) b _ few = absurd (omega arith)
xor_digits_enough (suc c) (suc k) (suc a) b h l =
    ap (λ t. t * 2 + differ (suc a % 2) (b % 2))
      (xor_digits_enough c k (suc a / 2) (b / 2) (omega arith) (omega arith))

differ_digits : (x y : ℕ) → x < 2 → y < 2 → differ x y ≡ (x + y) % 2
differ_digits zero y h k = omega arith
differ_digits (suc zero) zero h k = refl
differ_digits (suc zero) (suc zero) h k = refl
differ_digits (suc zero) (suc (suc y)) h k = absurd (omega arith)
differ_digits (suc (suc x)) y h k = absurd (omega arith)

pub zero-xor : (b : ℕ) → bit_xor 0 b ≡ b
zero-xor b = bit_xor-bitwise 0 b

-- One equation for the lowest digit.
pub xor_step : (a b : ℕ) → bit_xor a b ≡ bit_xor (a / 2) (b / 2) * 2 + (a + b) % 2
xor_step zero b = omega (arith, zero-xor b, zero-xor (b / 2))
xor_step (suc a) b = omega (
  arith,
  bit_xor-bitwise (suc a) b,
  bit_xor-bitwise (suc a / 2) (b / 2),
  differ_digits (suc a % 2) (b % 2) (omega arith) (omega arith),
  xor_digits_enough a (suc a / 2) (suc a / 2) (b / 2) (omega arith) (omega arith),
)

xor-zero_fuel : (n a : ℕ) → a ≤ n → bit_xor a 0 ≡ a
xor-zero_fuel n zero h = zero-xor 0
xor-zero_fuel zero (suc a) h = absurd (omega arith)
xor-zero_fuel (suc n) (suc a) h =
    omega (arith, xor_step (suc a) 0, xor-zero_fuel n (suc a / 2) (omega arith))

pub xor-zero : (a : ℕ) → bit_xor a 0 ≡ a
xor-zero a = xor-zero_fuel a a (omega arith)

xor_self_fuel : (n a : ℕ) → a ≤ n → bit_xor a a ≡ 0
xor_self_fuel n zero h = zero-xor 0
xor_self_fuel zero (suc a) h = absurd (omega arith)
xor_self_fuel (suc n) (suc a) h =
    omega (arith, xor_step (suc a) (suc a), xor_self_fuel n (suc a / 2) (omega arith))

pub xor_self : (a : ℕ) → bit_xor a a ≡ 0
xor_self a = xor_self_fuel a a (omega arith)

xor_comm_fuel : (n a b : ℕ) → a ≤ n → bit_xor a b ≡ bit_xor b a
xor_comm_fuel n zero b h = omega (arith, zero-xor b, xor-zero b)
xor_comm_fuel zero (suc a) b h = absurd (omega arith)
xor_comm_fuel (suc n) (suc a) b h = omega (
  arith,
  xor_step (suc a) b,
  xor_step b (suc a),
  xor_comm_fuel n (suc a / 2) (b / 2) (omega arith),
)

pub xor_comm : (a b : ℕ) → bit_xor a b ≡ bit_xor b a
xor_comm a b = xor_comm_fuel a a b (omega arith)

pub xor-half : (a b : ℕ) → bit_xor a b / 2 ≡ bit_xor (a / 2) (b / 2)
xor-half a b = omega (arith, xor_step a b)

pub xor-parity : (a b : ℕ) → bit_xor a b % 2 ≡ (a + b) % 2
xor-parity a b = omega (arith, xor_step a b)

-- Digit by digit, two numbers are equal if their halves and their parities are.
xor_assoc_fuel : (n a b c : ℕ) → a ≤ n → bit_xor (bit_xor a b) c ≡ bit_xor a (bit_xor b c)
xor_assoc_fuel n zero b c h =
    omega (arith, ap (λ (t : ℕ). bit_xor t c) (zero-xor b), zero-xor (bit_xor b c))
xor_assoc_fuel zero (suc a) b c h = absurd (omega arith)
xor_assoc_fuel (suc n) (suc a) b c h = omega (
  arith,
  xor_step (bit_xor (suc a) b) c,
  xor_step (suc a) (bit_xor b c),
  ap (λ (t : ℕ). bit_xor t (c / 2)) (xor-half (suc a) b),
  ap (λ (t : ℕ). bit_xor (suc a / 2) t) (xor-half b c),
  xor-parity (suc a) b,
  xor-parity b c,
  xor_assoc_fuel n (suc a / 2) (b / 2) (c / 2) (omega arith),
)

pub xor_assoc : (a b c : ℕ) → bit_xor (bit_xor a b) c ≡ bit_xor a (bit_xor b c)
xor_assoc a b c = xor_assoc_fuel a a b c (omega arith)

-- The exclusive or of two k-bit words is a k-bit word.
pub xor-lt : (k a b : ℕ) → a < 2 ^ k → b < 2 ^ k → bit_xor a b < 2 ^ k
xor-lt zero zero zero h l = omega (arith, zero-xor 0)
xor-lt zero (suc a) b h l = absurd (omega arith)
xor-lt zero zero (suc b) h l = absurd (omega arith)
xor-lt (suc k) a b h l = omega (
  arith,
  pow-suc 2 k,
  xor_step a b,
  xor-lt k (a / 2) (b / 2) (omega (arith, pow-suc 2 k)) (omega (arith, pow-suc 2 k)),
)

pub xor-double : (a b : ℕ) → bit_xor (2 * a) (2 * b) ≡ 2 * bit_xor a b
xor-double a b = omega (arith, xor_step (2 * a) (2 * b), ap₂' (omega arith) (omega arith))
  where
    ap₂' : 2 * a / 2 ≡ a → 2 * b / 2 ≡ b → bit_xor (2 * a / 2) (2 * b / 2) ≡ bit_xor a b
    ap₂' p q = rw (p, q)

pub xor_cancel : (a b : ℕ) → bit_xor a (bit_xor a b) ≡ b
xor_cancel a b = rw (← xor_assoc a a b, xor_self a) (zero-xor b)

pub xor_left_comm : (a b c : ℕ) → bit_xor a (bit_xor b c) ≡ bit_xor b (bit_xor a c)
xor_left_comm a b c = rw (← xor_assoc a b c, xor_comm a b) (xor_assoc b a c)

pub xor_interchange :
    (a b c d : ℕ) → bit_xor (bit_xor a b) (bit_xor c d) ≡ bit_xor (bit_xor a c) (bit_xor b d)
xor_interchange a b c d =
    rw (xor_assoc a b (bit_xor c d), xor_left_comm b c d, xor_assoc a c (bit_xor b d))

-- Exclusive or acts on the digits from the k-th on.
pub xor-shift : (k a b : ℕ) → bit_xor a b / 2 ^ k ≡ bit_xor (a / 2 ^ k) (b / 2 ^ k)
xor-shift zero a b = rw (div-one a, div-one b) (div-one (bit_xor a b))
  where
    div-one : (n : ℕ) → n / 2 ^ 0 ≡ n
    div-one n = omega arith
xor-shift (suc k) a b =
    rw (halves a, halves b, halves (bit_xor a b), xor-half a b) (xor-shift k (a / 2) (b / 2))
  where
    halves : (n : ℕ) → n / 2 ^ suc k ≡ n / 2 / 2 ^ k
    halves n = rw (div-div-eq-div-mul n 2 (2 ^ k), pow-succ' 2 k)
