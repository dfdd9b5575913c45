-- ===== src/Rand/Bounds.antt =====
-- The range of `rand`.
use tv_rq.Prelude.{ℕ, ◌<◌}
use native.Mathlib.Nat.{mod-lt}
use tv_rq.Rand.{rand}

-- The result is below the modulus.
pub rand-lt : (y i m : ℕ) → 0 < m → rand y i m < m
unfolding rand
rand-lt y i m h = mod-lt _ h
