-- ===== src/Lu/Sum.antt =====
-- Sums over GF(256) of the terms of a range of indices.
use tv_rq.Prelude.{ℕ, ◌-◌, zero, suc, ◌+◌, ◌<◌, ◌≤◌, ◌≡◌, refl, ap, ap₂, sym, ◌∙◌, arith, bit_xor}
use tv_rq.Prelude.Bits.{zero-xor, xor-zero, xor-lt, xor_assoc, xor_interchange}
use tv_rq.Gf256.Poly.{◌⊗◌, ⊗-zero, ⊗-xor}

-- f lo + … + f (lo + n - 1).
unfoldable pub sum_from : ℕ → ℕ → (ℕ → ℕ) → ℕ
sum_from lo zero f = 0
sum_from lo (suc n) f = bit_xor (f lo) (sum_from (lo + 1) n f)

pub sum_from_ext :
    (lo n : ℕ) (f g : ℕ → ℕ)
    → ((k : ℕ) → lo ≤ k → k < lo + n → f k ≡ g k)
    → sum_from lo n f ≡ sum_from lo n g
unfolding sum_from
sum_from_ext lo zero f g h = refl
sum_from_ext lo (suc n) f g h =
    ap₂ bit_xor (h lo (omega arith) (omega arith))
      (sum_from_ext (lo + 1) n f g (λ k l u. h k (omega arith) (omega arith)))

pub sum_from-lt : (lo n : ℕ) (f : ℕ → ℕ) → ((k : ℕ) → f k < 256) → sum_from lo n f < 256
unfolding sum_from
sum_from-lt lo zero f h = omega arith
sum_from-lt lo (suc n) f h = xor-lt 8 (f lo) _ (h lo) (sum_from-lt (lo + 1) n f h)

pub sum_from-xor :
    (lo n : ℕ) (f g : ℕ → ℕ)
    → sum_from lo n (λ k. bit_xor (f k) (g k)) ≡ bit_xor (sum_from lo n f) (sum_from lo n g)
unfolding sum_from
sum_from-xor lo zero f g = sym (zero-xor 0)
sum_from-xor lo (suc n) f g =
    ap (bit_xor (bit_xor (f lo) (g lo))) (sum_from-xor (lo + 1) n f g)
    ∙ xor_interchange (f lo) (g lo) _ _

pub ⊗-sum_from :
    (a lo n : ℕ) (f : ℕ → ℕ)
    → ((k : ℕ) → f k < 256)
    → a ⊗ sum_from lo n f ≡ sum_from lo n (λ k. a ⊗ f k)
unfolding sum_from
⊗-sum_from a lo zero f h = ⊗-zero a
⊗-sum_from a lo (suc n) f h =
    ⊗-xor a (f lo) _ (h lo) (sum_from-lt (lo + 1) n f h)
    ∙ ap (bit_xor (a ⊗ f lo)) (⊗-sum_from a (lo + 1) n f h)

pub sum_from_zero :
    (lo n : ℕ) (f : ℕ → ℕ) → ((k : ℕ) → lo ≤ k → k < lo + n → f k ≡ 0) → sum_from lo n f ≡ 0
unfolding sum_from
sum_from_zero lo zero f h = refl
sum_from_zero lo (suc n) f h =
    ap₂ bit_xor (h lo (omega arith) (omega arith))
      (sum_from_zero (lo + 1) n f (λ k l u. h k (omega arith) (omega arith)))
    ∙ zero-xor 0

-- A range in two parts.
pub sum_from_split :
    (lo n k : ℕ) (f : ℕ → ℕ)
    → sum_from lo (n + k) f ≡ bit_xor (sum_from lo n f) (sum_from (lo + n) k f)
unfolding sum_from
sum_from_split lo zero k f =
    ap₂ (λ a b. sum_from a b f) (omega arith) (omega arith) ∙ sym (zero-xor _)
sum_from_split lo (suc n) k f =
    ap (λ j. sum_from lo j f) (suc_add n k)
    ∙ ap (bit_xor (f lo)) (
        sum_from_split (lo + 1) n k f
        ∙ ap (λ j. bit_xor (sum_from (lo + 1) n f) (sum_from j k f)) (omega arith))
    ∙ sym (xor_assoc (f lo) _ _)
  where
    suc_add : (n k : ℕ) → suc n + k ≡ suc (n + k)
    suc_add n k = omega arith

pub sum_from_one : (lo : ℕ) (f : ℕ → ℕ) → sum_from lo 1 f ≡ f lo
unfolding sum_from
sum_from_one lo f = xor-zero (f lo)

-- The last term apart.
pub sum_from_last :
    (lo n : ℕ) (f : ℕ → ℕ) → sum_from lo (n + 1) f ≡ bit_xor (sum_from lo n f) (f (lo + n))
sum_from_last lo n f =
    sum_from_split lo n 1 f ∙ ap (bit_xor (sum_from lo n f)) (sum_from_one (lo + n) f)

-- The first term apart, where there is one.
pub sum_from_first :
    (lo n : ℕ) (f : ℕ → ℕ) → 0 < n → sum_from lo n f ≡ bit_xor (f lo) (sum_from (lo + 1) (n - 1) f)
unfolding sum_from
sum_from_first lo zero f h = absurd (omega arith)
sum_from_first lo (suc n) f h = ap (λ j. bit_xor (f lo) (sum_from (lo + 1) j f)) (omega arith)

-- The same, for a sum from 0 on.
pub sum_from-suc : (n : ℕ) (f : ℕ → ℕ) → sum_from 0 (suc n) f ≡ bit_xor (sum_from 0 n f) (f n)
sum_from-suc n f =
    ap (λ k. sum_from 0 k f) (add_one n)
    ∙ sum_from_last 0 n f
    ∙ ap (λ k. bit_xor (sum_from 0 n f) (f k)) (zero_add n)
  where
    add_one : (n : ℕ) → suc n ≡ n + 1
    add_one n = omega arith

    zero_add : (n : ℕ) → 0 + n ≡ n
    zero_add n = omega arith
