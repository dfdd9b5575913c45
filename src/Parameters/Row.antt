-- ===== src/Parameters/Row.antt =====
-- A row of the table of rfc6330_alg/parameters.c (RFC 6330, section 5.6).
use tv_rq.Prelude.{ℕ}

-- `base_param_set`.
pub record BaseParamSet : Type 0 where
  pub kprime : ℕ
  pub j : ℕ
  pub s : ℕ
  pub h : ℕ
  pub w : ℕ

-- An initialiser { K', J, S, H, W }.
abbrev pub row : ℕ → ℕ → ℕ → ℕ → ℕ → BaseParamSet
row kprime j s h w = record { kprime = kprime; j = j; s = s; h = h; w = w }
