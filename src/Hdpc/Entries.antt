-- ===== src/Hdpc/Entries.antt =====
-- The elements of the HDPC rows as RFC 6330, section 5.3.3.3, defines them: the product of the
-- matrix MT and the matrix GAMMA of powers of alpha, beside an identity matrix.
use tv_rq.Prelude.{
  ℕ, zero, suc, ◌+◌, ◌-◌, ◌%◌, ◌^◌, ◌≤◌, ◌<◌, ◌≡◌, ◌≢◌, ap, ap₂, sym, ◌∙◌, Bool, ◌||◌, arith, ◌==◌,
  ==_iff, ltb, bit_xor, if◌then◌else◌, Bool-cases, inl, inr,
}
use native.Mathlib.Nat.{mod-lt, mod-eq_of_lt, add-mod_right}
use native.Mathlib.Decide.{dec_lt}
use tv_rq.Gf256.Poly.{◌⊗◌, ⊗-lt, one-⊗}
use tv_rq.Gf256.Field.{⊗_comm, ⊗_assoc}
use tv_rq.Parameters.{Parameters}
use tv_rq.Parameters.Valid.{IsValid}
use tv_rq.Rand.{rand}
use tv_rq.Rand.Bounds.{rand-lt}
use tv_rq.Ldpc.Ones.{bit}
use tv_rq.Lu.Sum.{sum_from, sum_from_ext, sum_from_first, sum_from_one, ⊗-sum_from}

-- The powers of alpha, which is 2.
unfoldable pub alpha_pow : ℕ → ℕ
alpha_pow zero = 1
alpha_pow (suc n) = alpha_pow n ⊗ 2

pub alpha_pow-lt : (n : ℕ) → alpha_pow n < 256
unfolding alpha_pow
alpha_pow-lt zero = omega arith
alpha_pow-lt (suc n) = ⊗-lt (alpha_pow n) 2 (omega arith)

-- The two rows that have a one in column j of MT: Rand[j+1,6,H], and the sum of this, Rand[j+1,7,H-1]
-- and 1, modulo H.
unfoldable pub first_one : Parameters → ℕ → ℕ
first_one p j = rand (j + 1) 6 p.h

unfoldable pub second_one : Parameters → ℕ → ℕ
second_one p j = (first_one p j + rand (j + 1) 7 (p.h - 1) + 1) % p.h

-- The element of MT: the last column holds the powers of alpha, the others two ones.
unfoldable pub mt_entry : Parameters → ℕ → ℕ → ℕ
mt_entry p r k =
    if k + 1 == p.kprime + p.s
    then alpha_pow r
    else bit ((r == second_one p k) || (r == first_one p k))

-- The element of MT * GAMMA, GAMMA being alpha^(k - c) in row k and column c from the diagonal down.
unfoldable pub g_hdpc : Parameters → ℕ → ℕ → ℕ
g_hdpc p r c = sum_from c (p.kprime + p.s - c) (λ k. mt_entry p r k ⊗ alpha_pow (k - c))

-- The element of the HDPC rows.
unfoldable pub hdpc_entry : Parameters → ℕ → ℕ → ℕ
hdpc_entry p r c = if ltb c (p.kprime + p.s) then g_hdpc p r c else bit (c == p.kprime + p.s + r)

mt_entry-lt : (p : Parameters) (r k : ℕ) → mt_entry p r k < 256
unfolding mt_entry
mt_entry-lt p r k = elim (Bool-cases (k + 1 == p.kprime + p.s)) [
  | inl e ↦ rw e (alpha_pow-lt r)
  | inr e ↦ rw e (ground arith)
]

⊗-one : (a : ℕ) → a < 256 → a ⊗ 1 ≡ a
⊗-one a h = ⊗_comm a 1 h (omega arith) ∙ one-⊗ a

-- The last column.
pub g_hdpc_last : (p : Parameters) (r c : ℕ) → c + 1 ≡ p.kprime + p.s → g_hdpc p r c ≡ alpha_pow r
unfolding g_hdpc mt_entry alpha_pow
g_hdpc_last p r c e =
    ap (λ n. sum_from c n (λ k. mt_entry p r k ⊗ alpha_pow (k - c))) (gap c (p.kprime + p.s) e)
    ∙ sum_from_one c _
    ∙ ap₂
        (λ b k.
          (if b then alpha_pow r else bit ((r == second_one p c) || (r == first_one p c)))
          ⊗ alpha_pow k)
        ((==_iff (c + 1) (p.kprime + p.s)).1 e) (self c)
    ∙ ⊗-one (alpha_pow r) (alpha_pow-lt r)
  where
    gap : (c d : ℕ) → c + 1 ≡ d → d - c ≡ 1
    gap c d e = omega arith

    self : (c : ℕ) → c - c ≡ 0
    self c = omega arith

-- One column from the next.
pub g_hdpc_next :
    (p : Parameters) (r c : ℕ)
    → c + 1 < p.kprime + p.s
    → g_hdpc p r c
      ≡ bit_xor (bit ((r == second_one p c) || (r == first_one p c))) (2 ⊗ g_hdpc p r (c + 1))
unfolding g_hdpc mt_entry alpha_pow
g_hdpc_next p r c h =
    sum_from_first c (p.kprime + p.s - c) _ (omega arith)
    ∙ ap₂ bit_xor here (
        ap (λ n. sum_from (c + 1) n (λ k. mt_entry p r k ⊗ alpha_pow (k - c)))
          (gap c (p.kprime + p.s))
        ∙ sum_from_ext (c + 1) (p.kprime + p.s - (c + 1)) _ _ (λ k l u. sym (term k l))
        ∙ sym (
            ⊗-sum_from 2 (c + 1) (p.kprime + p.s - (c + 1))
              (λ k. mt_entry p r k ⊗ alpha_pow (k - (c + 1)))
              (λ k. ⊗-lt (mt_entry p r k) _ (alpha_pow-lt (k - (c + 1))))))
  where
    gap : (c d : ℕ) → d - c - 1 ≡ d - (c + 1)
    gap c d = omega arith

    self : (c : ℕ) → c - c ≡ 0
    self c = omega arith

    differs : (x y : ℕ) → x < y → (x == y) ≡ Bool.false
    differs x y l = ground arith

    bit-lt : (b : Bool) → bit b < 256
    bit-lt b = ground arith

    here : mt_entry p r c ⊗ alpha_pow (c - c) ≡ bit ((r == second_one p c) || (r == first_one p c))
    here =
        ap₂
          (λ b k.
            (if b then alpha_pow r else bit ((r == second_one p c) || (r == first_one p c)))
            ⊗ alpha_pow k)
          (differs (c + 1) (p.kprime + p.s) (omega arith)) (self c)
        ∙ ⊗-one _ (bit-lt _)

    term :
        (k : ℕ)
        → c + 1 ≤ k
        → 2 ⊗ (mt_entry p r k ⊗ alpha_pow (k - (c + 1))) ≡ mt_entry p r k ⊗ alpha_pow (k - c)
    term k l =
        let x = alpha_pow (k - (c + 1)) in
        ⊗_comm 2 (mt_entry p r k ⊗ x) (omega arith) (⊗-lt (mt_entry p r k) x (alpha_pow-lt _))
        ∙ ⊗_assoc (mt_entry p r k) x 2 (mt_entry-lt p r k) (alpha_pow-lt _) (omega arith)
        ∙ ap (λ n. mt_entry p r k ⊗ alpha_pow n) (above k c l)
      where
        above : (k c : ℕ) → c + 1 ≤ k → suc (k - (c + 1)) ≡ k - c
        above k c l = omega arith

-- The two rows of a column are different rows of the matrix.
pub ones_lem :
    (p : Parameters) (j : ℕ)
    → IsValid p
    → (first_one p j < p.h) × (second_one p j < p.h) × (second_one p j ≢ first_one p j)
unfolding first_one second_one
ones_lem p j valid =
    let a = rand (j + 1) 6 p.h in
    let q = rand (j + 1) 7 (p.h - 1) in
    let ha : a < p.h = rand-lt (j + 1) 6 p.h (omega (arith, valid.h_min)) in
    let hq : q < p.h - 1 = rand-lt (j + 1) 7 (p.h - 1) (omega (arith, valid.h_min)) in
    (ha, mod-lt _ (omega (arith, valid.h_min)), λ e. apart a q p.h ha hq e)
  where
    apart : (a q h : ℕ) → a < h → q < h - 1 → (a + q + 1) % h ≢ a
    apart a q h ha hq e = elim (dec_lt (a + q + 1) h) [
      | yes p ↦ absurd (omega (arith, mod-eq_of_lt p))
      | no p ↦ absurd (omega (arith, e, wrapped (a + q + 1) h (omega arith) (omega arith)))
    ]
      where
        small_mod : (x h : ℕ) → x < h → x % h ≡ x
        small_mod x h l = mod-eq_of_lt l

        wrapped : (x h : ℕ) → h ≤ x → x < h + h → x % h ≡ x - h
        wrapped x h l u =
            ap (λ t. t % h) (back x h l)
            ∙ add-mod_right (x - h) h
            ∙ small_mod (x - h) h (omega arith)
          where
            back : (x h : ℕ) → h ≤ x → x ≡ (x - h) + h
            back x h l = omega arith

-- The sums of the source, which wrap at 2^32, come to the second row.
pub second_one_lem :
    (p : Parameters) (j : ℕ)
    → IsValid p
    → ((rand (j + 1) 6 p.h + rand (j + 1) 7 (p.h - 1)) % 2 ^ 32 + 1) % 2 ^ 32 % p.h ≡ second_one p j
unfolding first_one second_one
second_one_lem p j valid =
    ap (λ t. t % p.h)
      (no_wrap (rand (j + 1) 6 p.h) (rand (j + 1) 7 (p.h - 1)) p.h
        (rand-lt (j + 1) 6 p.h (omega (arith, valid.h_min)))
        (rand-lt (j + 1) 7 (p.h - 1) (omega (arith, valid.h_min))) valid.h_max)
  where
    no_wrap : (a q h : ℕ) → a < h → q < h - 1 → h ≤ 16 → ((a + q) % 2 ^ 32 + 1) % 2 ^ 32 ≡ a + q + 1
    no_wrap a q h ha hq k = omega arith
