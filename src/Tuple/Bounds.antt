-- ===== src/Tuple/Bounds.antt =====
-- The ranges of the components of a tuple.
use tv_rq.Prelude.{
  ◌⊎◌, length, le→leb, ltb→lt, lt→ltb, ℕ, suc, ◌+◌, ◌-◌, ◌^◌, ◌≤◌, ◌<◌, ◌≡◌, refl, ap, ◌∙◌, ◌||◌,
  Bool, true, false, List, [], ◌∷◌, some, ltb, if◌then◌else◌, get_or, min, arith, Bool-cases, inl,
  inr,
}
use native.Mathlib.Nat.{mod-eq_of_lt}
use native.Mathlib.Decide.{dec_lt}
use tv_rq.Parameters.{Parameters}
use tv_rq.Parameters.Valid.{IsValid}
use tv_rq.Rand.{rand}
use tv_rq.Rand.Bounds.{rand-lt}
use tv_rq.Tuple.{thresholds, deg_from, deg, Tuple, seed, tuple_generate_from_isi, isi_of_esi}

-- Some threshold lies above `v`.
any_above : List ℕ → ℕ → Bool
any_above [] v = false
any_above (hi ∷ rest) v = ltb v hi || any_above rest v

any_above_mono : (f : List ℕ) (v top : ℕ) → v ≤ top → any_above f top ≡ true → any_above f v ≡ true
unfolding any_above
any_above_mono [] v top h e = e
any_above_mono (hi ∷ rest) v top h e = ground (arith, any_above_mono rest v top h)

deg_from_lem :
    (d lo : ℕ) (f : List ℕ) (v w : ℕ)
    → lo ≤ v
    → any_above f v ≡ true
    → (i : ℕ) × (deg_from d lo f v w ≡ some (min (d + i) (w - 2)))
      × (i < length f)
      × (get_or (lo ∷ f) i 0 ≤ v)
      × (v < get_or f i 0)
unfolding deg_from any_above
deg_from_lem d lo [] v w low e = absurd (cc)
deg_from_lem d lo (hi ∷ rest) v w low e = elim (Bool-cases (ltb v hi)) [
  | inl t ↦ (0, rw (le→leb lo v low, t) (ground arith), omega arith, low, ltb→lt v hi t)
  | inr t ↦
      let (i, found, inside, above, below) =
        deg_from_lem (d + 1) hi rest v w (ground arith) (ground arith) in
      (
        suc i,
        rw (le→leb lo v low, t) (found ∙ ap (λ n. some (min n (w - 2))) (omega arith)),
        omega arith,
        above,
        below,
      )
]

thresholds_top : any_above thresholds (2 ^ 20 - 1) ≡ true
unfolding any_above thresholds
thresholds_top = refl

thresholds_count : length thresholds ≡ 30
unfolding thresholds
thresholds_count = refl

suc-pred : (i : ℕ) → suc i - 1 ≡ i
suc-pred i = omega arith

-- Below 2^20 the degree is that of the interval of the thresholds in which `v` lies, cut to W - 2.
-- No assert fails.
pub deg_lem :
    (v w : ℕ)
    → v < 2 ^ 20
    → (d : ℕ) × (deg v w ≡ some (min d (w - 2)))
      × (1 ≤ d)
      × (d ≤ 30)
      × (get_or (0 ∷ thresholds) (d - 1) 0 ≤ v)
      × (v < get_or (0 ∷ thresholds) d 0)
unfolding deg
deg_lem v w h =
    let (i, found, inside, above, below) =
      deg_from_lem 1 0 thresholds v w (omega arith)
        (any_above_mono thresholds v (2 ^ 20 - 1) (omega arith) thresholds_top) in
    (
      suc i,
      rw (lt→ltb v (2 ^ 20) h) (found ∙ ap (λ n. some (min n (w - 2))) (omega arith)),
      omega arith,
      omega (arith, thresholds_count),
      rw (suc-pred i) above,
      below,
    )

-- For valid parameters a tuple is generated, with every component in its range.
pub tuple_bounds :
    (x : ℕ) {p : Parameters}
    → IsValid p
    → (t : Tuple) × (tuple_generate_from_isi x p ≡ some t)
      × (1 ≤ t.d)
      × (t.d ≤ 30)
      × (t.d + 2 ≤ p.w)
      × (1 ≤ t.a)
      × (t.a < p.w)
      × (t.b < p.w)
      × (2 ≤ t.d1)
      × (t.d1 ≤ 3)
      × (1 ≤ t.a1)
      × (t.a1 < p.p1)
      × (t.b1 < p.p1)
unfolding tuple_generate_from_isi
tuple_bounds x {p} valid =
    let y = seed x p.j in
    let (d, found, low, high, _, _) =
      deg_lem (rand y 0 (2 ^ 20)) p.w (rand-lt y 0 (2 ^ 20) (omega arith)) in
    (
      record {
        d = min d (p.w - 2);
        a = 1 + rand y 1 (p.w - 1);
        b = rand y 2 p.w;
        d1 = if ltb (min d (p.w - 2)) 4 then 2 + rand x 3 2 else 2;
        a1 = 1 + rand x 4 (p.p1 - 1);
        b1 = rand x 5 p.p1;
      },
      rw found,
      omega arith,
      omega arith,
      omega arith,
      omega arith,
      omega (arith, rand-lt y 1 (p.w - 1) (omega arith)),
      rand-lt y 2 p.w (omega arith),
      ground arith,
      ground (arith, rand-lt x 3 2 (omega arith)),
      omega arith,
      omega (arith, rand-lt x 4 (p.p1 - 1) (omega arith)),
      rand-lt x 5 p.p1 (omega arith),
    )

isi_small : (x : ℕ) (p : Parameters) → x < p.k → isi_of_esi x p ≡ x
unfolding isi_of_esi
isi_small x p h = ground arith

isi_large :
    (x : ℕ) (p : Parameters)
    → p.k ≤ x
    → x + (p.kprime - p.k) < 2 ^ 32
    → isi_of_esi x p ≡ x + (p.kprime - p.k)
unfolding isi_of_esi
isi_large x p h top = rw (le→leb p.k x h) (mod-eq_of_lt (omega arith))

-- For encoding symbols whose identifiers and K' - K together stay below 2^32, so that the sum does not
-- wrap: different ones have different internal identifiers, and none has that of a padding symbol.
pub isi_of_esi-injective :
    (x y : ℕ) {p : Parameters}
    → IsValid p
    → x + (p.kprime - p.k) < 2 ^ 32
    → y + (p.kprime - p.k) < 2 ^ 32
    → ((isi_of_esi x p < p.k) ⊎ (p.kprime ≤ isi_of_esi x p))
      × (isi_of_esi x p ≡ isi_of_esi y p → x ≡ y)
isi_of_esi-injective x y {p} valid hx hy = elim (dec_lt x p.k) [
  | yes a ↦ elim (dec_lt y p.k) [
    | yes b ↦ (inl (rw (isi_small x p a) a), λ e. omega (arith, isi_small x p a, isi_small y p b))
    | no b ↦ (
      inl (rw (isi_small x p a) a),
      λ e. omega (arith, isi_small x p a, isi_large y p (omega arith) hy),
    )
  ]
  | no a ↦
      let large = isi_large x p (omega arith) hx in
      elim (dec_lt y p.k) [
        | yes b ↦ (inr (omega (arith, large)), λ e. omega (arith, large, isi_small y p b))
        | no b ↦
            (inr (omega (arith, large)), λ e. omega (arith, large, isi_large y p (omega arith) hy))
      ]
]
