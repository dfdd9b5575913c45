-- ===== src/Lu/Value.antt =====
-- What a half-decomposed matrix stands for: each row as a function of a vector, and that a round of
-- the elimination keeps it.
use tv_rq.Prelude.{ℕ, ◌+◌, ◌-◌, ◌<◌, ◌≤◌, ◌≡◌, refl, ap, ap₂, sym, subst, ◌∙◌, arith, bit_xor, min}
use native.Mathlib.Decide.{dec_lt}
use tv_rq.Prelude.Bits.{zero-xor, xor-zero, xor_self, xor_assoc, xor_interchange}
use tv_rq.Gf256.Poly.{◌⊗◌, ⊗-lt, ⊗-xor, xor-⊗, one-⊗}
use tv_rq.Gf256.Field.{⊗_comm, ⊗_assoc}
use tv_rq.Lu.Sum.{
  sum_from, sum_from_ext, sum_from-lt, sum_from-xor, ⊗-sum_from, sum_from_last, sum_from_first,
}

zero_add : (n : ℕ) → 0 + n ≡ n
zero_add n = omega arith

-- Every entry is a byte.
abbrev pub IsByteMat : (ℕ → ℕ → ℕ) → Type 0
IsByteMat a = (r c : ℕ) → a r c < 256

abbrev pub IsByteVec : (ℕ → ℕ) → Type 0
IsByteVec x = (k : ℕ) → x k < 256

-- Row `r` of the matrix, from column `lo` on, times the vector.
unfoldable pub row_from : ℕ → (ℕ → ℕ → ℕ) → (ℕ → ℕ) → ℕ → ℕ → ℕ
row_from n a x r lo = sum_from lo (n - lo) (λ k. a r k ⊗ x k)

-- The first `t` entries of row `r` taken as a row of L, and the others as what is left to decompose.
unfoldable pub value_at : ℕ → (ℕ → ℕ → ℕ) → (ℕ → ℕ) → ℕ → ℕ → ℕ
value_at n a x r t = bit_xor (sum_from 0 t (λ j. a r j ⊗ row_from n a x j j)) (row_from n a x r t)

-- Row `r` of the matrix of which `a` is the decomposition after `s` rounds, times the vector.
unfoldable pub value : ℕ → ℕ → (ℕ → ℕ → ℕ) → (ℕ → ℕ) → ℕ → ℕ
value n s a x r = value_at n a x r (min r s)

-- One round of the elimination with the pivot in row and column `s`, whose inverse is `iv`.
pub record Round (n rows s iv : ℕ) (a b : ℕ → ℕ → ℕ) : Type 0 where
  pub above : (r c : ℕ) → r ≤ s → c < n → b r c ≡ a r c
  pub left : (r c : ℕ) → s < r → r < rows → c < s → b r c ≡ a r c
  pub column : (r : ℕ) → s < r → r < rows → b r s ≡ a r s ⊗ iv
  pub rest :
      (r c : ℕ) → s < r → r < rows → s < c → c < n → b r c ≡ bit_xor (a r c) ((a r s ⊗ iv) ⊗ a s c)

pub row_from_ext :
    (n : ℕ) (a b : ℕ → ℕ → ℕ) (x y : ℕ → ℕ) (r q lo : ℕ)
    → ((c : ℕ) → lo ≤ c → c < n → (a r c ≡ b q c) × (x c ≡ y c))
    → row_from n a x r lo ≡ row_from n b y q lo
unfolding row_from
row_from_ext n a b x y r q lo h =
    sum_from_ext lo (n - lo) _ _
      (λ k l u. let (e, f) = h k l (omega arith) in ap₂ (λ p q. p ⊗ q) e f)

pub row_from-lt :
    (n : ℕ) (a : ℕ → ℕ → ℕ) (x : ℕ → ℕ) (r lo : ℕ) → IsByteVec x → row_from n a x r lo < 256
unfolding row_from
row_from-lt n a x r lo h = sum_from-lt lo (n - lo) _ (λ k. ⊗-lt (a r k) (x k) (h k))

pub row_from_first :
    (n : ℕ) (a : ℕ → ℕ → ℕ) (x : ℕ → ℕ) (r lo : ℕ)
    → lo < n
    → row_from n a x r lo ≡ bit_xor (a r lo ⊗ x lo) (row_from n a x r (lo + 1))
unfolding row_from
row_from_first n a x r lo h =
    sum_from_first lo (n - lo) _ (omega arith)
    ∙ ap (λ j. bit_xor (a r lo ⊗ x lo) (sum_from (lo + 1) j (λ k. a r k ⊗ x k))) (omega arith)

pub value_at_ext :
    (n : ℕ) (a b : ℕ → ℕ → ℕ) (x : ℕ → ℕ) (r q t : ℕ)
    → t ≤ n
    → ((c : ℕ) → c < n → a r c ≡ b q c)
    → ((j c : ℕ) → j < t → c < n → a j c ≡ b j c)
    → value_at n a x r t ≡ value_at n b x q t
unfolding value_at
value_at_ext n a b x r q t fits here before =
    ap₂ bit_xor
      (sum_from_ext 0 t _ _ (λ j l u.
        ap₂ (λ p q. p ⊗ q) (here j (omega arith))
          (row_from_ext n a b x x j j j (λ c lc uc. (before j c (omega arith) uc, refl)))))
      (row_from_ext n a b x x r q t (λ c l u. (here c u, refl)))

module _ (n rows s iv : ℕ) (a b : ℕ → ℕ → ℕ) (x : ℕ → ℕ) (step : Round n rows s iv a b)
    (in_cols : s < n) (ba : IsByteMat a) (bx : IsByteVec x) (unit : iv ⊗ a s s ≡ 1)
    (small : iv < 256) where
  -- What a round adds to a row, times the vector.
  rest_lem :
      (r : ℕ)
      → s < r
      → r < rows
      → row_from n b x r (s + 1)
        ≡ bit_xor (row_from n a x r (s + 1)) ((a r s ⊗ iv) ⊗ row_from n a x s (s + 1))
  unfolding row_from
  rest_lem r h l =
      sum_from_ext (s + 1) (n - (s + 1)) _
        (λ k. bit_xor (a r k ⊗ x k) ((a r s ⊗ iv) ⊗ (a s k ⊗ x k)))
        (λ k lk uk.
          ap (λ t. t ⊗ x k) (step.rest r k h l (omega arith) (omega arith))
          ∙ xor-⊗ (a r k) ((a r s ⊗ iv) ⊗ a s k) (x k)
          ∙ ap (bit_xor (a r k ⊗ x k))
              (⊗_assoc (a r s ⊗ iv) (a s k) (x k) (⊗-lt (a r s) iv small) (ba s k) (bx k)))
      ∙ sum_from-xor (s + 1) (n - (s + 1)) (λ k. a r k ⊗ x k) (λ k. (a r s ⊗ iv) ⊗ (a s k ⊗ x k))
      ∙ ap (bit_xor (sum_from (s + 1) (n - (s + 1)) (λ k. a r k ⊗ x k))) (
          sym (
            ⊗-sum_from (a r s ⊗ iv) (s + 1) (n - (s + 1)) (λ k. a s k ⊗ x k)
              (λ k. ⊗-lt (a s k) (x k) (bx k))))

  -- The entry of L times the pivot row.
  pivot_lem :
      (r : ℕ)
      → (a r s ⊗ iv) ⊗ row_from n a x s s
        ≡ bit_xor (a r s ⊗ x s) ((a r s ⊗ iv) ⊗ row_from n a x s (s + 1))
  pivot_lem r =
      ap (λ t. (a r s ⊗ iv) ⊗ t) (row_from_first n a x s s in_cols)
      ∙ ⊗-xor (a r s ⊗ iv) (a s s ⊗ x s) _ (⊗-lt (a s s) (x s) (bx s))
          (row_from-lt n a x s (s + 1) bx)
      ∙ ap (λ t. bit_xor t ((a r s ⊗ iv) ⊗ row_from n a x s (s + 1))) head
    where
      head : (a r s ⊗ iv) ⊗ (a s s ⊗ x s) ≡ a r s ⊗ x s
      head =
          sym (⊗_assoc (a r s ⊗ iv) (a s s) (x s) (⊗-lt (a r s) iv small) (ba s s) (bx s))
          ∙ ap (λ t. t ⊗ x s)
              (⊗_assoc (a r s) iv (a s s) (ba r s) small (ba s s)
                ∙ ap (λ t. a r s ⊗ t) unit
                ∙ ⊗_comm (a r s) 1 (ba r s) (omega arith)
                ∙ one-⊗ (a r s))

  same_below : (r : ℕ) → r ≤ s → value_at n b x r r ≡ value_at n a x r r
  same_below r h =
      value_at_ext n b a x r r r (omega arith) (λ c l. step.above r c h l)
        (λ j c l u. step.above j c (omega arith) u)

  -- Below the pivot.
  changed : (r : ℕ) → s < r → r < rows → value_at n b x r (s + 1) ≡ value_at n a x r s
  unfolding value_at
  changed r h l =
      ap₂ bit_xor
        (sum_from_last 0 s (λ j. b r j ⊗ row_from n b x j j)
          ∙ ap₂ bit_xor
              (sum_from_ext 0 s _ (λ j. a r j ⊗ row_from n a x j j)
                (λ j lj uj.
                  ap₂ (λ p q. p ⊗ q) (step.left r j h l (omega arith))
                    (row_from_ext n b a x x j j j
                      (λ c lc uc. (step.above j c (omega arith) uc, refl)))))
              (last ∙ pivot_lem r))
        (rest_lem r h l)
      ∙ cancel (sum_from 0 s (λ j. a r j ⊗ row_from n a x j j)) (a r s ⊗ x s)
          ((a r s ⊗ iv) ⊗ row_from n a x s (s + 1)) (row_from n a x r (s + 1))
      ∙ ap (bit_xor (sum_from 0 s (λ j. a r j ⊗ row_from n a x j j)))
          (sym (row_from_first n a x r s in_cols))
    where
      last : b r (0 + s) ⊗ row_from n b x (0 + s) (0 + s) ≡ (a r s ⊗ iv) ⊗ row_from n a x s s
      last =
          subst (λ k. b r k ⊗ row_from n b x k k ≡ (a r s ⊗ iv) ⊗ row_from n a x s s)
            (sym (zero_add s))
            (ap₂ (λ p q. p ⊗ q) (step.column r h l)
              (row_from_ext n b a x x s s s (λ c lc uc. (step.above s c (omega arith) uc, refl))))

      cancel :
          (p q t w : ℕ) → bit_xor (bit_xor p (bit_xor q t)) (bit_xor w t) ≡ bit_xor p (bit_xor q w)
      cancel p q t w =
          xor_assoc p (bit_xor q t) (bit_xor w t)
          ∙ ap (bit_xor p) (
              xor_interchange q t w t
              ∙ ap (bit_xor (bit_xor q w)) (xor_self t)
              ∙ xor-zero (bit_xor q w))

  -- A round keeps what the rows stand for.
  pub value_step : (r : ℕ) → r < rows → value n (s + 1) b x r ≡ value n s a x r
  unfolding value
  value_step r l = elim (dec_lt s r) [
    | yes h ↦
        ap (value_at n b x r) (omega arith) ∙ changed r h l ∙ ap (value_at n a x r) (omega arith)
    | no h ↦
        ap (value_at n b x r) (omega arith)
        ∙ same_below r (omega arith)
        ∙ ap (value_at n a x r) (omega arith)
  ]

-- Rows that change places from the `s`-th on take what they stand for with them.
pub value_swap :
    (n rows s : ℕ) (a b : ℕ → ℕ → ℕ) (σ : ℕ → ℕ) (x : ℕ → ℕ)
    → s ≤ n
    → ((j : ℕ) → j < s → σ j ≡ j)
    → ((j : ℕ) → s ≤ j → s ≤ σ j)
    → ((r c : ℕ) → r < rows → c < n → b r c ≡ a (σ r) c)
    → (r : ℕ) → r < rows
    → value n s b x r ≡ value n s a x (σ r)
unfolding value
value_swap n rows s a b σ x fits fixed later same r h =
    value_at_ext n b a x r (σ r) (min r s) (omega arith) (λ c l. same r c h l)
      (λ j c l u. same j c (omega arith) u ∙ ap (λ k. a k c) (fixed j (omega arith)))
    ∙ ap (value_at n a x (σ r)) same_start
  where
    same_start : min r s ≡ min (σ r) s
    same_start = elim (dec_lt r s) [
      | yes p ↦ ap (λ k. min k s) (sym (fixed r p))
      | no p ↦ omega (arith, later r (omega arith))
    ]

-- Before the first round a row stands for itself.
pub value_start : (n : ℕ) (a : ℕ → ℕ → ℕ) (x : ℕ → ℕ) (r : ℕ) → value n 0 a x r ≡ row_from n a x r 0
unfolding value value_at sum_from
value_start n a x r =
    ap (λ t. bit_xor (sum_from 0 t (λ j. a r j ⊗ row_from n a x j j)) (row_from n a x r t)) start
    ∙ zero-xor (row_from n a x r 0)
  where
    start : min r 0 ≡ 0
    start = omega arith
