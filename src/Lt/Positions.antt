-- ===== src/Lt/Positions.antt =====
-- The positions that a tuple selects, and that the walk of tvrq/lt.c and `RqOutExecute` visits
-- them in turn.
use tv_rq.Prelude.{
  ℕ, zero, suc, ◌+◌, ◌-◌, ◌*◌, ◌%◌, ◌≤◌, ◌<◌, ◌≡◌, refl, subst, ap, sym, ◌∙◌, Option, none, some,
  List, [], ◌∷◌, ◌++◌, arith, ◌>>=◌, Option-cases, inl, inr,
}
use native.Mathlib.Nat.{mod-add-mod, mod-lt, mod-eq_of_lt}
use tv_rq.Memory.{Mem}
use tv_rq.Parameters.{Parameters}
use tv_rq.Parameters.Valid.{IsValid}
use tv_rq.Tuple.{Tuple}
use tv_rq.Lt.{skip_pi, skip_fuel, walk_lt, walk_pi, walk}
use tv_rq.Lt.Skip.{skip_pi_lem}

-- The ranges of a tuple's components.
pub record InRange (t : Tuple) (p : Parameters) : Type 0 where
  pub d_min : 1 ≤ t.d
  pub b_max : t.b < p.w
  pub d1_min : 1 ≤ t.d1
  pub a1_min : 1 ≤ t.a1
  pub a1_max : t.a1 < p.p1
  pub b1_max : t.b1 < p.p1

-- `visit` at each of the positions in turn.
unfoldable pub visit_all : (ℕ → Mem → Option Mem) → List ℕ → Mem → Option Mem
visit_all visit [] m = some m
visit_all visit (c ∷ cs) m = visit c m >>= visit_all visit cs

-- The `n` LT positions from the `i`-th on: (b + i * a) % W, and so on.
unfoldable pub lt_positions : Tuple → Parameters → ℕ → ℕ → List ℕ
lt_positions t p i zero = []
lt_positions t p i (suc n) = ((t.b + i * t.a) % p.w) ∷ lt_positions t p (i + 1) n

-- The first value below P of b1, b1 + a1, …, modulo P1.
unfoldable pub settle : Parameters → ℕ → ℕ → ℕ
settle p a1 b1 = elim (skip_pi (skip_fuel p) p a1 b1) [ none ↦ b1 | some b ↦ b ]

-- The `n` PI positions after b1.
unfoldable pub pi_positions : Tuple → Parameters → ℕ → ℕ → List ℕ
pi_positions t p zero b1 = []
pi_positions t p (suc n) b1 =
    let b = settle p t.a1 ((b1 + t.a1) % p.p1) in (p.w + b) ∷ pi_positions t p n b

-- The positions after the first.
unfoldable pub later_positions : Tuple → Parameters → List ℕ
later_positions t p =
    let b1 = settle p t.a1 t.b1 in
    lt_positions t p 1 (t.d - 1) ++ ((p.w + b1) ∷ pi_positions t p (t.d1 - 1) b1)

unfoldable pub positions : Tuple → Parameters → List ℕ
positions t p = t.b ∷ later_positions t p

settle_eq :
    (p : Parameters) (a1 b1 b : ℕ) → skip_pi (skip_fuel p) p a1 b1 ≡ some b → settle p a1 b1 ≡ b
unfolding settle
settle_eq p a1 b1 b e = rw (e, settle) refl

pub settle_lem :
    {p : Parameters} (a1 b1 : ℕ)
    → IsValid p
    → 1 ≤ a1
    → a1 < p.p1
    → b1 < p.p1
    → (skip_pi (skip_fuel p) p a1 b1 ≡ some (settle p a1 b1)) × (settle p a1 b1 < p.p)
settle_lem {p} a1 b1 valid pos in_range below =
    let (b, e, small) = skip_pi_lem a1 b1 valid pos in_range below in
    let same = sym (settle_eq p a1 b1 b e) in (e ∙ ap some same, subst (λ x. x < p.p) same small)

bind_left : (o o' : Option Mem) (f : Mem → Option Mem) → o ≡ o' → (o >>= f) ≡ (o' >>= f)
bind_left o o' f e = ap (λ x. x >>= f) e

bind_ext :
    (o : Option Mem) (f g : Mem → Option Mem) → ((m : Mem) → f m ≡ g m) → (o >>= f) ≡ (o >>= g)
bind_ext none f g h = refl
bind_ext (some m) f g h = h m

visit_all-append :
    (visit : ℕ → Mem → Option Mem) (xs ys : List ℕ) (m : Mem)
    → (visit_all visit xs m >>= visit_all visit ys) ≡ visit_all visit (xs ++ ys) m
unfolding visit_all
visit_all-append visit [] ys m = refl
visit_all-append visit (x ∷ xs) ys m = elim (Option-cases (visit x m)) [
  | inl e ↦ rw e refl
  | inr (m', e) ↦ rw e (visit_all-append visit xs ys m')
]

next_lt :
    (t : Tuple) (p : Parameters) (i : ℕ)
    → ((t.b + i * t.a) % p.w + t.a) % p.w ≡ (t.b + (i + 1) * t.a) % p.w
next_lt t p i = mod-add-mod (t.b + i * t.a) p.w t.a ∙ ap (λ x. x % p.w) (omega arith)

walk_lt_lem :
    (visit : ℕ → Mem → Option Mem) (t : Tuple) (p : Parameters) (n i : ℕ) (m : Mem)
    → walk_lt visit t p n ((t.b + i * t.a) % p.w) m ≡ visit_all visit (lt_positions t p (i + 1) n) m
unfolding walk_lt visit_all lt_positions
walk_lt_lem visit t p zero i m = refl
walk_lt_lem visit t p (suc n) i m = rw (next_lt t p i) (
    bind_ext (visit ((t.b + (i + 1) * t.a) % p.w) m) _ _ (λ m'. walk_lt_lem visit t p n (i + 1) m'))

walk_pi_lem :
    (visit : ℕ → Mem → Option Mem) {t : Tuple} {p : Parameters} (n b1 : ℕ) (m : Mem)
    → IsValid p
    → InRange t p
    → walk_pi visit t p n b1 m ≡ visit_all visit (pi_positions t p n b1) m
unfolding walk_pi visit_all pi_positions
walk_pi_lem visit {t} {p} zero b1 m valid range = refl
walk_pi_lem visit {t} {p} (suc n) b1 m valid range =
    let (e, small) =
      settle_lem t.a1 ((b1 + t.a1) % p.p1) valid range.a1_min range.a1_max
        (mod-lt (b1 + t.a1) (omega (arith, valid.p1_prime.0))) in
    rw (e, walk_pi)
      (bind_ext (visit (p.w + settle p t.a1 ((b1 + t.a1) % p.p1)) m) _ _
        (λ m'. walk_pi_lem visit n _ m' valid range))

walk_lt_start :
    (visit : ℕ → Mem → Option Mem) (t : Tuple) (p : Parameters) (n : ℕ) (m : Mem)
    → t.b < p.w
    → walk_lt visit t p n t.b m ≡ visit_all visit (lt_positions t p 1 n) m
walk_lt_start visit t p n m h =
    let start : (t.b + 0 * t.a) % p.w ≡ t.b = ap (λ x. x % p.w) (omega arith) ∙ mod-eq_of_lt h in
    ap (λ b. walk_lt visit t p n b m) (sym start) ∙ walk_lt_lem visit t p n 0 m

-- The part of the walk after the LT positions.
pi_part_lem :
    (visit : ℕ → Mem → Option Mem) {t : Tuple} {p : Parameters} (m : Mem)
    → IsValid p
    → InRange t p
    → (skip_pi (skip_fuel p) p t.a1 t.b1 >>= λ b1.
        visit (p.w + b1) m >>= λ m'. walk_pi visit t p (t.d1 - 1) b1 m')
      ≡ visit_all visit
          ((p.w + settle p t.a1 t.b1) ∷ pi_positions t p (t.d1 - 1) (settle p t.a1 t.b1))
          m
unfolding visit_all
pi_part_lem visit {t} {p} m valid range =
    let (e, _) = settle_lem t.a1 t.b1 valid range.a1_min range.a1_max range.b1_max in
    rw e (
      bind_ext (visit (p.w + settle p t.a1 t.b1) m) _ _
        (λ m'. walk_pi_lem visit (t.d1 - 1) _ m' valid range))

-- The walk does `first` at the first position and `visit` at each later one.
pub walk_lem :
    (visit first : ℕ → Mem → Option Mem) {t : Tuple} {p : Parameters} (m : Mem)
    → IsValid p
    → InRange t p
    → walk visit t p first m ≡ (first t.b m >>= visit_all visit (later_positions t p))
unfolding walk later_positions
walk_lem visit first {t} {p} m valid range = bind_ext (first t.b m) _ _ λ m1.
    bind_left _ _ _ (walk_lt_start visit t p (t.d - 1) m1 range.b_max)
    ∙ bind_ext (visit_all visit (lt_positions t p 1 (t.d - 1)) m1) _ _
        (λ m2. pi_part_lem visit m2 valid range)
    ∙ visit_all-append visit (lt_positions t p 1 (t.d - 1)) _ m1
