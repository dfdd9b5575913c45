-- ===== src/Parameters.antt =====
-- rfc6330_alg/parameters.c and parameters.h: the parameters of the code for K source symbols.
pub mod Row
pub mod Sets
pub mod Primes
mod NextPrime
pub mod Examples
pub mod Valid
pub mod Get
use tv_rq.Prelude.{ℕ, zero, suc, ◌+◌, ◌-◌, List, [], ◌∷◌, Option, none, some, leb, if◌then◌else◌}
use tv_rq.Prelude.Int.{ℤ, pos, negsuc}
use Row.{BaseParamSet}
use Sets.{base_param_sets}
use Primes.{nextprime}

-- `parameters`. The fields are `int`s that are never negative (`Parameters.Valid`).
pub record Parameters : Type 0 where
  pub k : ℕ
  pub kprime : ℕ
  pub j : ℕ
  pub l : ℕ
  pub s : ℕ
  pub h : ℕ
  pub b : ℕ
  pub w : ℕ
  pub p : ℕ
  pub p1 : ℕ
  pub u : ℕ

-- What `parameters_get` returns. `unsupported` is the struct with a K member of -1, and `aborted`
-- a failed assert of `nextprime`.
pub data Lookup : Type 0 where
  found : Parameters → Lookup
  unsupported : Lookup
  aborted : Lookup

-- The loop: the first row that holds K symbols.
unfoldable pub first_set : ℕ → List BaseParamSet → Option BaseParamSet
first_set k [] = none
first_set k (r ∷ rs) = if leb k r.kprime then some r else first_set k rs

unfoldable pub assign : ℕ → BaseParamSet → ℕ → Parameters
assign k r p1 =
    let total = r.kprime + r.s + r.h in
    let pi = total - r.w in
    record {
      k = k;
      kprime = r.kprime;
      j = r.j;
      l = total;
      s = r.s;
      h = r.h;
      b = r.w - r.s;
      w = r.w;
      p = pi;
      p1 = p1;
      u = pi - r.h;
    }

-- The rest of `parameters_get` for the row found.
unfoldable pub complete : ℕ → BaseParamSet → Lookup
unfolding assign
complete k r = elim (nextprime (r.kprime + r.s + r.h - r.w)) [
  | none ↦ aborted
  | some p1 ↦ found (assign k r p1)
]

unfoldable pub parameters_get : ℤ → Lookup
unfolding first_set complete
parameters_get (negsuc n) = unsupported
parameters_get (pos zero) = unsupported
parameters_get (pos (suc k)) = elim (first_set (suc k) base_param_sets) [
  | none ↦ unsupported
  | some r ↦ complete (suc k) r
]
