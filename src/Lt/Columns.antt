-- ===== src/Lt/Columns.antt =====
-- The positions that a tuple selects are columns of the matrix.
use tv_rq.Prelude.{
  ℕ, zero, suc, ◌+◌, ◌-◌, ◌*◌, ◌%◌, ◌<◌, List, [], ◌∷◌, ◌++◌, arith, All, ◌≡◌, length,
  length-append, refl, ap,
}
use native.Mathlib.Nat.{mod-lt}
use tv_rq.Parameters.{Parameters}
use tv_rq.Parameters.Valid.{IsValid}
use tv_rq.Tuple.{Tuple}
use tv_rq.Lt.Positions.{
  InRange, lt_positions, settle, settle_lem, pi_positions, later_positions, positions,
}

append-All : (P : ℕ → Type 0) (xs ys : List ℕ) → All P xs → All P ys → All P (xs ++ ys)
append-All P [] ys a b = b
append-All P (x ∷ xs) ys a b = (a.0, append-All P xs ys a.1 b)

lt_positions-All :
    {p : Parameters} (t : Tuple) (i n : ℕ) → IsValid p → All (λ c. c < p.l) (lt_positions t p i n)
unfolding lt_positions
lt_positions-All t i zero valid = tt
lt_positions-All {p} t i (suc n) valid =
    let here : (t.b + i * t.a) % p.w < p.w = mod-lt (t.b + i * t.a) (omega (arith, valid.w_min)) in
    (omega (arith, valid.split, here), lt_positions-All t (i + 1) n valid)

pi_positions-All :
    {t : Tuple} {p : Parameters} (n b1 : ℕ)
    → IsValid p
    → InRange t p
    → All (λ c. c < p.l) (pi_positions t p n b1)
unfolding pi_positions
pi_positions-All zero b1 valid range = tt
pi_positions-All {t} {p} (suc n) b1 valid range =
    let below : (b1 + t.a1) % p.p1 < p.p1 = mod-lt (b1 + t.a1) (omega (arith, valid.p1_prime.0)) in
    let (_, small) = settle_lem t.a1 ((b1 + t.a1) % p.p1) valid range.a1_min range.a1_max below in
    (omega (arith, valid.split, small), pi_positions-All n _ valid range)

pub later_positions-All :
    {t : Tuple} {p : Parameters}
    → IsValid p
    → InRange t p
    → All (λ c. c < p.l) (later_positions t p)
unfolding later_positions
later_positions-All {t} {p} valid range =
    let (_, small) = settle_lem t.a1 t.b1 valid range.a1_min range.a1_max range.b1_max in
    append-All (λ c. c < p.l) (lt_positions t p 1 (t.d - 1)) _
      (lt_positions-All t 1 (t.d - 1) valid)
      (omega (arith, valid.split, small), pi_positions-All (t.d1 - 1) _ valid range)

count_lt : (t : Tuple) (p : Parameters) (i n : ℕ) → length (lt_positions t p i n) ≡ n
unfolding lt_positions
count_lt t p i zero = refl
count_lt t p i (suc n) = ap suc (count_lt t p (i + 1) n)

count_pi : (t : Tuple) (p : Parameters) (n b1 : ℕ) → length (pi_positions t p n b1) ≡ n
unfolding pi_positions
count_pi t p zero b1 = refl
count_pi t p (suc n) b1 = ap suc (count_pi t p n _)

-- There are d + d1 positions, and each is a column of the matrix.
pub positions_lem :
    {t : Tuple} {p : Parameters}
    → IsValid p
    → InRange t p
    → (length (positions t p) ≡ t.d + t.d1) × All (λ c. c < p.l) (positions t p)
unfolding positions later_positions
positions_lem {t} {p} valid range = (
  omega (
    arith,
    length-append (lt_positions t p 1 (t.d - 1))
        ((p.w + settle p t.a1 t.b1) ∷ pi_positions t p (t.d1 - 1) (settle p t.a1 t.b1)),
    count_lt t p 1 (t.d - 1),
    count_pi t p (t.d1 - 1) (settle p t.a1 t.b1),
    range.d_min,
    range.d1_min,
  ),
  (omega (arith, valid.split, range.b_max), later_positions-All valid range),
)
