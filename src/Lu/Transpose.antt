-- ===== src/Lu/Transpose.antt =====
-- Two indices that change places: `SwapInt` of algebra/mv_generic.h, permutations as arrays, and sums.
use tv_rq.Prelude.{
  ℕ, ◌+◌, ◌-◌, ◌≤◌, ◌<◌, ◌≡◌, ◌≢◌, inl, inr, refl, ap, ap₂, sym, ◌∙◌, arith, bit_xor, ◌==◌, ==_self,
  if◌then◌else◌, lt→ltb, Bool-cases, false,
}
use native.Mathlib.Decide.{dec_lt}
use tv_rq.Prelude.Bits.{xor_left_comm}
use tv_rq.Lu.{swap_int, init_perm}
use tv_rq.Lu.Sum.{sum_from, sum_from_ext, sum_from_split, sum_from_first}

-- The index that comes to stand at `x`.
unfoldable pub transpose : ℕ → ℕ → ℕ → ℕ
transpose i j x = if x == i then j else if x == j then i else x

pub ==_other : (a b : ℕ) → a ≢ b → (a == b) ≡ false
==_other a b h = ground arith

pub transpose_left : (i j : ℕ) → transpose i j i ≡ j
unfolding transpose
transpose_left i j = rw (==_self i) refl

pub transpose_right : (i j : ℕ) → transpose i j j ≡ i
unfolding transpose
transpose_right i j = ground arith

pub transpose_other : (i j x : ℕ) → x ≢ i → x ≢ j → transpose i j x ≡ x
unfolding transpose
transpose_other i j x h k = rw (==_other x i h, ==_other x j k) refl

pub transpose_same : (i x : ℕ) → transpose i i x ≡ x
unfolding transpose
transpose_same i x = ground arith

pub swap_int_lem : (i j : ℕ) (f : ℕ → ℕ) (x : ℕ) → swap_int i j f x ≡ f (transpose i j x)
unfolding swap_int transpose
swap_int_lem i j f x = elim (Bool-cases (x == i)) [
  | inl e ↦ rw e refl
  | inr e ↦ rw e (elim (Bool-cases (x == j)) [ inl d ↦ rw d refl | inr d ↦ rw d refl ])
]

pub transpose-transpose : (i j x : ℕ) → transpose i j (transpose i j x) ≡ x
unfolding transpose
transpose-transpose i j x = ground arith

pub transpose-lt : (i j x n : ℕ) → i < n → j < n → x < n → transpose i j x < n
unfolding transpose
transpose-lt i j x n h k l = ground arith

pub transpose-le : (i j x : ℕ) → i ≤ j → i ≤ x → i ≤ transpose i j x
unfolding transpose
transpose-le i j x h k = ground arith

-- A permutation of the first `n` indices.
pub record IsPermutation (f : ℕ → ℕ) (n : ℕ) : Type 0 where
  pub inverse : ℕ → ℕ
  pub inside : (i : ℕ) → i < n → f i < n
  pub inverse_inside : (i : ℕ) → i < n → inverse i < n
  pub left : (i : ℕ) → i < n → inverse (f i) ≡ i
  pub right : (i : ℕ) → i < n → f (inverse i) ≡ i

pub init_perm_lem : (n : ℕ) (f : ℕ → ℕ) (i : ℕ) → i < n → init_perm n f i ≡ i
unfolding init_perm
init_perm_lem n f i h = rw (lt→ltb i n h) refl

pub init_perm-IsPermutation : (n : ℕ) (f : ℕ → ℕ) → IsPermutation (init_perm n f) n
init_perm-IsPermutation n f = record {
  inverse = λ i. i;
  inside = λ i h. omega (arith, init_perm_lem n f i h);
  inverse_inside = λ i h. h;
  left = λ i h. init_perm_lem n f i h;
  right = λ i h. init_perm_lem n f i h;
}

pub swap_int-IsPermutation :
    (i j n : ℕ) (f : ℕ → ℕ) → i < n → j < n → IsPermutation f n → IsPermutation (swap_int i j f) n
swap_int-IsPermutation i j n f hi hj p = record {
  inverse = λ x. transpose i j (p.inverse x);
  inside = λ x h.
      omega
        (arith, swap_int_lem i j f x, p.inside (transpose i j x) (transpose-lt i j x n hi hj h));
  inverse_inside = λ x h. transpose-lt i j (p.inverse x) n hi hj (p.inverse_inside x h);
  left = λ x h.
      ap (λ y. transpose i j (p.inverse y)) (swap_int_lem i j f x)
      ∙ ap (transpose i j) (p.left (transpose i j x) (transpose-lt i j x n hi hj h))
      ∙ transpose-transpose i j x;
  right = λ x h.
      swap_int_lem i j f (transpose i j (p.inverse x))
      ∙ ap f (transpose-transpose i j (p.inverse x))
      ∙ p.right x h;
}

-- A range cut at two indices.
cut :
    (lo n i q : ℕ) (f : ℕ → ℕ)
    → lo ≤ i
    → i < q
    → q < n
    → sum_from lo (n - lo) f
      ≡ bit_xor (sum_from lo (i - lo) f) (
          bit_xor (f i) (
            bit_xor
              (sum_from (i + 1) (q - (i + 1)) f)
              (bit_xor (f q) (sum_from (q + 1) (n - (q + 1)) f))))
cut lo n i q f a b c =
    ap (λ k. sum_from lo k f) (parts lo n i a (omega arith))
    ∙ sum_from_split lo (i - lo) (n - i) f
    ∙ ap (bit_xor (sum_from lo (i - lo) f)) (
        ap (λ k. sum_from k (n - i) f) (place lo i a)
        ∙ sum_from_first i (n - i) f (omega arith)
        ∙ ap (bit_xor (f i)) (
            ap (λ k. sum_from (i + 1) k f) (middle n i q b c)
            ∙ sum_from_split (i + 1) (q - (i + 1)) (n - q) f
            ∙ ap (bit_xor (sum_from (i + 1) (q - (i + 1)) f)) (
                ap (λ k. sum_from k (n - q) f) (place (i + 1) q (omega arith))
                ∙ sum_from_first q (n - q) f (omega arith)
                ∙ ap (λ k. bit_xor (f q) (sum_from (q + 1) k f)) (tail n q c))))
  where
    parts : (lo n i : ℕ) → lo ≤ i → i ≤ n → n - lo ≡ (i - lo) + (n - i)
    parts lo n i h k = omega arith

    place : (lo i : ℕ) → lo ≤ i → lo + (i - lo) ≡ i
    place lo i h = omega arith

    middle : (n i q : ℕ) → i < q → q < n → n - i - 1 ≡ (q - (i + 1)) + (n - q)
    middle n i q h k = omega arith

    tail : (n q : ℕ) → q < n → n - q - 1 ≡ n - (q + 1)
    tail n q h = omega arith

exchange :
    (a b c d e : ℕ)
    → bit_xor a (bit_xor b (bit_xor c (bit_xor d e)))
      ≡ bit_xor a (bit_xor d (bit_xor c (bit_xor b e)))
exchange a b c d e = ap (bit_xor a) (
    ap (bit_xor b) (xor_left_comm c d e)
    ∙ xor_left_comm b d (bit_xor c e)
    ∙ ap (bit_xor d) (xor_left_comm b c e))

-- Two terms of a sum may change places.
sum_from_swap :
    (lo n i q : ℕ) (f : ℕ → ℕ)
    → lo ≤ i
    → i < q
    → q < n
    → sum_from lo (n - lo) (λ k. f (transpose i q k)) ≡ sum_from lo (n - lo) f
sum_from_swap lo n i q f a b c =
    cut lo n i q (λ k. f (transpose i q k)) a b c
    ∙ ap₂ bit_xor
        (sum_from_ext lo (i - lo) _ f (λ k l u.
          ap f (transpose_other i q k (λ e. absurd (omega arith)) (λ e. absurd (omega arith)))))
        (ap₂ bit_xor (ap f (transpose_left i q)) (
          ap₂ bit_xor
            (sum_from_ext (i + 1) (q - (i + 1)) _ f (λ k l u.
              ap f (transpose_other i q k (λ e. absurd (omega arith)) (λ e. absurd (omega arith)))))
            (ap₂ bit_xor (ap f (transpose_right i q)) (
              sum_from_ext (q + 1) (n - (q + 1)) _ f (λ k l u.
                ap f (
                  transpose_other i q k (λ e. absurd (omega arith))
                    (λ e. absurd (omega arith))))))))
    ∙ exchange (sum_from lo (i - lo) f) (f q) (sum_from (i + 1) (q - (i + 1)) f) (f i)
        (sum_from (q + 1) (n - (q + 1)) f)
    ∙ sym (cut lo n i q f a b c)

pub sum_from-transpose :
    (lo n i q : ℕ) (f : ℕ → ℕ)
    → lo ≤ i
    → i ≤ q
    → q < n
    → sum_from lo (n - lo) (λ k. f (transpose i q k)) ≡ sum_from lo (n - lo) f
sum_from-transpose lo n i q f a b c = elim (dec_lt i q) [
  | yes p ↦ sum_from_swap lo n i q f a p c
  | no p ↦
      let same : q ≡ i = omega arith in
      sum_from_ext lo (n - lo) _ f
        (λ k l u. ap f (ap (λ q. transpose i q k) same ∙ transpose_same i k))
]
