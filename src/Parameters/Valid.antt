-- ===== src/Parameters/Valid.antt =====
-- What every set of parameters that `parameters_get` finds satisfies.
use tv_rq.Prelude.{
  ℕ, ◌+◌, ◌-◌, ◌*◌, sym, ◌∙◌, false, none, ◌≤◌, ◌<◌, ◌≡◌, refl, Bool, true, ◌&&◌, some, none, List,
  [], ◌∷◌, leb, ltb, arith, Bool-cases, inl, inr, leb→le,
}
use tv_rq.Prelude.Primes.{IsPrime, is_prime, is_prime_sound}
use tv_rq.Parameters.{Parameters, found, first_set, assign, complete}
use tv_rq.Parameters.Primes.{nextprime}
use tv_rq.Parameters.Row.{BaseParamSet, row}
use tv_rq.Parameters.Sets.{base_param_sets}
use tv_rq.Parameters.NextPrime.{nextprime_lem}

-- The relations of RFC 6330, section 5.3.3.3, with every subtraction of the source turned into a sum.
pub record IsValid (p : Parameters) : Type 0 where
  pub k_pos : 1 ≤ p.k
  pub padded : p.k ≤ p.kprime
  pub kprime_max : p.kprime ≤ 56403
  pub j_max : p.j ≤ 1000
  pub total : p.l ≡ p.kprime + p.s + p.h
  pub split : p.l ≡ p.w + p.p
  pub lt_part : p.w ≡ p.b + p.s
  pub pi_part : p.p ≡ p.u + p.h
  pub b_pos : 1 ≤ p.b
  pub s_min : 7 ≤ p.s
  pub s_max : p.s ≤ 907
  pub h_min : 10 ≤ p.h
  pub h_max : p.h ≤ 16
  pub w_min : 17 ≤ p.w
  pub w_max : p.w ≤ 56951
  pub s_prime : IsPrime p.s
  pub w_prime : IsPrime p.w
  pub p1_above : p.p ≤ p.p1
  pub p1_near : p.p1 ≤ 2 * p.p
  pub p1_prime : IsPrime p.p1
  pub p1_least : (q : ℕ) → IsPrime q → p.p ≤ q → p.p1 ≤ q

-- The next prime is at most twice the number.
unfoldable pub next_near : ℕ → Bool
next_near v = elim (nextprime v) [ none ↦ false | some q ↦ leb q (2 * v) ]

next_near_sound : (v q : ℕ) → next_near v ≡ true → nextprime v ≡ some q → q ≤ 2 * v
unfolding next_near
next_near_sound v q near e = leb→le q (2 * v) (sym near_q ∙ near)
  where
    near_q : next_near v ≡ leb q (2 * v)
    near_q = rw (e, next_near) refl

-- The facts about a row on which these rest.
abbrev pub row_ok : BaseParamSet → Bool
row_ok r =
    leb r.kprime 56403
    && (leb r.j 1000
        && (leb (r.w + r.h) (r.kprime + r.s + r.h)
            && (ltb r.s r.w
                && (leb 7 r.s
                    && (leb r.s 907
                        && (leb 10 r.h
                            && (leb r.h 16
                                && (leb 17 r.w
                                    && (leb r.w 56951
                                        && (leb (r.kprime + r.s + r.h - r.w) 1999
                                            && (is_prime r.s
                                                && (is_prime r.w
                                                    && next_near
                                                        (r.kprime + r.s + r.h - r.w)))))))))))))

pub all_rows : List BaseParamSet → Bool
all_rows [] = true
all_rows (r ∷ rs) = row_ok r && all_rows rs

pub all_rows_table : all_rows base_param_sets ≡ true
unfolding all_rows base_param_sets is_prime next_near nextprime
all_rows_table = refl

pub first_set_ok :
    (k : ℕ) (rs : List BaseParamSet) (r : BaseParamSet)
    → all_rows rs ≡ true
    → first_set k rs ≡ some r
    → (k ≤ r.kprime) × (row_ok r ≡ true)
unfolding first_set all_rows
first_set_ok k [] r h e = cc
first_set_ok k (t ∷ rs) r h e = elim (Bool-cases (leb k t.kprime)) [
  | inl fits ↦ let same : t ≡ r = ground arith in rw (← same) (leb→le k t.kprime fits, ground arith)
  | inr small ↦ first_set_ok k rs r (ground arith) (ground arith)
]

-- A row that passes gives valid parameters.
assign-IsValid :
    (k : ℕ) (r : BaseParamSet) (p1 : ℕ)
    → 1 ≤ k
    → k ≤ r.kprime
    → row_ok r ≡ true
    → r.kprime + r.s + r.h - r.w ≤ p1
    → p1 ≤ 2 * (r.kprime + r.s + r.h - r.w)
    → IsPrime p1
    → ((q : ℕ) → IsPrime q → r.kprime + r.s + r.h - r.w ≤ q → p1 ≤ q)
    → IsValid (assign k r p1)
unfolding assign
assign-IsValid k r p1 k_pos fits ok above near prime least = record {
  k_pos = k_pos;
  padded = fits;
  kprime_max = ground arith;
  j_max = ground arith;
  total = refl;
  split = ground arith;
  lt_part = ground arith;
  pi_part = ground arith;
  b_pos = ground arith;
  s_min = ground arith;
  s_max = ground arith;
  h_min = ground arith;
  h_max = ground arith;
  w_min = ground arith;
  w_max = ground arith;
  s_prime = is_prime_sound r.s (ground arith);
  w_prime = is_prime_sound r.w (ground arith);
  p1_above = above;
  p1_near = near;
  p1_prime = prime;
  p1_least = least;
}

complete_step :
    (k : ℕ) (r : BaseParamSet) (p1 : ℕ)
    → nextprime (r.kprime + r.s + r.h - r.w) ≡ some p1
    → complete k r ≡ found (assign k r p1)
unfolding complete
complete_step k r p1 e = rw (e, complete)

-- A row that passes is completed, and its five numbers are taken over: no assert fails.
pub complete-IsValid :
    (k : ℕ) (r : BaseParamSet)
    → 1 ≤ k
    → k ≤ r.kprime
    → row_ok r ≡ true
    → (p : Parameters) × (complete k r ≡ found p)
      × IsValid p
      × (p.k ≡ k)
      × (row p.kprime p.j p.s p.h p.w ≡ r)
unfolding assign
complete-IsValid k r k_pos fits ok =
    let (p1, e, above, prime, least) = nextprime_lem (r.kprime + r.s + r.h - r.w) (ground arith) in
    (
      assign k r p1,
      complete_step k r p1 e,
      assign-IsValid k r p1 k_pos fits ok above
          (next_near_sound (r.kprime + r.s + r.h - r.w) p1 (ground arith) e) prime least,
      refl,
      refl,
    )

pub all_rows_bound :
    (k : ℕ) (rs : List BaseParamSet) → 56403 < k → all_rows rs ≡ true → first_set k rs ≡ none
unfolding first_set all_rows
all_rows_bound k [] h e = refl
all_rows_bound k (t ∷ rs) h e = ground (arith, all_rows_bound k rs h)
