-- ===== src/Parameters/Get.antt =====
-- `parameters_get` of rfc6330_alg/parameters.c: for which K it succeeds, and with which row.
use tv_rq.Prelude.{
  subst, sym, ap, ℕ, zero, suc, ◌≤◌, ◌<◌, ◌≡◌, refl, Bool, true, false, ◌&&◌, ◌||◌, some, none,
  List, [], ◌∷◌, leb, arith, Bool-cases, inl, inr, All, ◌∙◌,
}
use mathlib.Core.List.{Mem, mem-cons_self, mem-cons_of_mem}
use tv_rq.Prelude.Int.{pos, negsuc}
use tv_rq.Parameters.{Parameters, found, unsupported, first_set, complete, parameters_get}
use tv_rq.Parameters.Row.{BaseParamSet, row}
use tv_rq.Parameters.Sets.{base_param_sets}
use tv_rq.Parameters.Valid.{IsValid, all_rows_table, all_rows_bound, first_set_ok, complete-IsValid}

ascending : ℕ → List BaseParamSet → Bool
ascending lo [] = true
ascending lo (r ∷ rs) = leb lo r.kprime && ascending r.kprime rs

ascending_table : ascending 0 base_param_sets ≡ true
unfolding ascending base_param_sets
ascending_table = refl

reaches : ℕ → List BaseParamSet → Bool
reaches k [] = false
reaches k (r ∷ rs) = leb k r.kprime || reaches k rs

reaches_table : reaches 56403 base_param_sets ≡ true
unfolding reaches base_param_sets
reaches_table = refl

first_set_total :
    (k top : ℕ) (rs : List BaseParamSet)
    → k ≤ top
    → reaches top rs ≡ true
    → (r : BaseParamSet) × (first_set k rs ≡ some r)
unfolding first_set reaches
first_set_total k top [] h e = absurd (cc)
first_set_total k top (t ∷ rs) h e = elim (Bool-cases (leb k t.kprime)) [
  | inl fits ↦ (t, rw fits)
  | inr small ↦ let (r, f) = first_set_total k top rs h (ground arith) in (r, rw small f)
]

above-All :
    (lo k : ℕ) (rs : List BaseParamSet)
    → ascending lo rs ≡ true
    → All (λ t. k ≤ t.kprime → lo ≤ t.kprime) rs
unfolding ascending
above-All lo k [] h = tt
above-All lo k (t ∷ rs) h = (
  λ _. ground arith,
  widen lo t.kprime rs (ground arith) (above-All t.kprime k rs (ground arith)),
)
  where
    widen :
        (lo hi : ℕ) (rs : List BaseParamSet)
        → lo ≤ hi
        → All (λ t. k ≤ t.kprime → hi ≤ t.kprime) rs
        → All (λ t. k ≤ t.kprime → lo ≤ t.kprime) rs
    widen lo hi [] h a = tt
    widen lo hi (t ∷ rs) h a = (λ f. omega (arith, a.0 f), widen lo hi rs h a.1)

-- The row found is the one with the least K'.
first_set_least :
    (lo k : ℕ) (rs : List BaseParamSet) (r : BaseParamSet)
    → ascending lo rs ≡ true
    → first_set k rs ≡ some r
    → All (λ t. k ≤ t.kprime → r.kprime ≤ t.kprime) rs
unfolding first_set ascending
first_set_least lo k [] r h e = tt
first_set_least lo k (t ∷ rs) r h e = elim (Bool-cases (leb k t.kprime)) [
  | inl fits ↦
      let same : t ≡ r = ground arith in
      subst (λ x. All (λ u. k ≤ u.kprime → x.kprime ≤ u.kprime) (t ∷ rs)) same
        (λ _. omega arith, above-All t.kprime k rs (ground arith))
  | inr small ↦
      (λ f. absurd (ground arith), first_set_least t.kprime k rs r (ground arith) (ground arith))
]

-- The row found is one of the table.
first_set-Mem :
    (k : ℕ) (rs : List BaseParamSet) (r : BaseParamSet) → first_set k rs ≡ some r → Mem r rs
unfolding first_set
first_set-Mem k [] r e = absurd (cc)
first_set-Mem k (t ∷ rs) r e = elim (Bool-cases (leb k t.kprime)) [
  | inl fits ↦ let same : t ≡ r = ground arith in subst (λ x. Mem x (t ∷ rs)) same (mem-cons_self)
  | inr small ↦ mem-cons_of_mem t (first_set-Mem k rs r (ground arith))
]

get_step :
    (k : ℕ) (r : BaseParamSet)
    → first_set (suc k) base_param_sets ≡ some r
    → parameters_get (pos (suc k)) ≡ complete (suc k) r
unfolding parameters_get
get_step k r e = rw (e, parameters_get)

get_none :
    (k : ℕ) → first_set (suc k) base_param_sets ≡ none → parameters_get (pos (suc k)) ≡ unsupported
unfolding parameters_get
get_none k e = rw (e, parameters_get)

-- For each K from 1 to 56403 a set of parameters for this K is found, which is valid. Its K', J, S, H
-- and W are those of a row of the table, and its K' is not above any K' of the table that is not below
-- K.
pub parameters_get-found :
    (k : ℕ)
    → 1 ≤ k
    → k ≤ 56403
    → (p : Parameters) × (parameters_get (pos k) ≡ found p)
      × IsValid p
      × (p.k ≡ k)
      × All (λ t. k ≤ t.kprime → p.kprime ≤ t.kprime) base_param_sets
      × Mem (row p.kprime p.j p.s p.h p.w) base_param_sets
parameters_get-found zero h top = absurd (omega arith)
parameters_get-found (suc k) h top =
    let (r, e) = first_set_total (suc k) 56403 base_param_sets top reaches_table in
    let (fits, ok) = first_set_ok (suc k) base_param_sets r all_rows_table e in
    let (p, got, valid, same, from) = complete-IsValid (suc k) r h fits ok in
    (
      p,
      get_step k r e ∙ got,
      valid,
      same,
      subst (λ x. All (λ t. suc k ≤ t.kprime → x ≤ t.kprime) base_param_sets)
          (ap (λ t. t.kprime) (sym from))
          (first_set_least 0 (suc k) base_param_sets r ascending_table e),
      subst (λ t. Mem t base_param_sets) (sym from) (first_set-Mem (suc k) base_param_sets r e),
    )

-- Every other K is refused: 0, the negative ones, and those above 56403.
pub parameters_get-unsupported :
    (k : ℕ)
    → (parameters_get (negsuc k) ≡ unsupported)
      × (parameters_get (pos 0) ≡ unsupported)
      × (56403 < k → parameters_get (pos k) ≡ unsupported)
unfolding parameters_get
parameters_get-unsupported zero = (refl, refl, λ h. absurd (omega arith))
parameters_get-unsupported (suc k) =
    (refl, refl, λ h. get_none k (all_rows_bound (suc k) base_param_sets h all_rows_table))
