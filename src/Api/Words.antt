-- ===== src/Api/Words.antt =====
-- The machine integers of api/tvrq_api.c on a platform with 32-bit `int` and 64-bit `size_t`.
use tv_rq.Prelude.{
  ℕ, zero, suc, ◌+◌, ◌-◌, ◌*◌, ◌%◌, ◌^◌, Option, some, none, ltb, if◌then◌else◌, ◌≡◌, ◌<◌, ap, refl,
  ◌∙◌, arith, lt→ltb, le→leb,
}
use native.Mathlib.Nat.{mod-eq_of_lt}
use tv_rq.Prelude.Int.{ℤ, pos, negsuc, ◌+ℤ◌}

-- The result of an operation on `int`s, `none` on overflow, which C leaves undefined.
abbrev pub int32 : ℤ → Option ℤ
int32 (pos n) = if ltb n (2 ^ 31) then some (pos n) else none
int32 (negsuc n) = if ltb n (2 ^ 31) then some (negsuc n) else none

-- The conversion of a `size_t` to `int`.
abbrev pub to_int : ℕ → ℤ
to_int n = if ltb (n % 2 ^ 32) (2 ^ 31) then pos (n % 2 ^ 32) else negsuc (2 ^ 32 - 1 - n % 2 ^ 32)

-- The conversion of an `int` to `uint32_t`.
abbrev pub to_uint32 : ℤ → ℕ
to_uint32 (pos n) = n % 2 ^ 32
to_uint32 (negsuc n) = 2 ^ 32 - 1 - n % 2 ^ 32

-- The conversion of an `int` to `size_t`.
abbrev pub to_size : ℤ → ℕ
to_size (pos n) = n % 2 ^ 64
to_size (negsuc n) = 2 ^ 64 - 1 - n % 2 ^ 64

-- An integer times a number.
abbrev pub scale : ℤ → ℕ → ℤ
scale (pos n) m = pos (n * m)
scale (negsuc n) zero = pos 0
scale (negsuc n) (suc m) = negsuc (suc n * suc m - 1)

pub sum_pos : (a b : ℕ) → pos a +ℤ pos b ≡ pos (a + b)
sum_pos a b = rw (le→leb 0 (a + b) (omega arith)) (ap pos (omega arith))

pub int32_pos : (n : ℕ) → n < 2 ^ 31 → int32 (pos n) ≡ some (pos n)
int32_pos n h = rw (lt→ltb n (2 ^ 31) h) refl

pub int32_sum : (a b : ℕ) → a + b < 2 ^ 31 → int32 (pos a +ℤ pos b) ≡ some (pos (a + b))
int32_sum a b h = ap int32 (sum_pos a b) ∙ int32_pos (a + b) h

pub to_int_small : (n : ℕ) → n < 2 ^ 31 → to_int n ≡ pos n
to_int_small n h =
    let small : n % 2 ^ 32 ≡ n = mod-eq_of_lt (omega arith) in rw (small, lt→ltb n (2 ^ 31) h) refl

-- The number of columns that an `int` gives a matrix: `none` for a negative one, for which each offset
-- into the matrix fails an assert.
abbrev pub columns : ℤ → Option ℕ
columns (pos n) = some n
columns (negsuc n) = none

-- The number of columns that `m256v_make` gets for a symbol size, a `size_t` that it takes as an `int`.
abbrev pub width : ℕ → Option ℕ
width n = columns (to_int n)

pub width_small : (n : ℕ) → n < 2 ^ 31 → width n ≡ some n
width_small n h = ap columns (to_int_small n h)
