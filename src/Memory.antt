-- ===== src/Memory.antt =====
-- The bytes that matrix views point into, loops over them, and what a loop that writes one cell a
-- round leaves behind.
pub mod Sweep
pub mod Loop
use tv_rq.Prelude.{ℕ, zero, suc, ◌+◌, Bool, true, Option, none, some, ◌==◌, if◌then◌else◌, ◌>>=◌}

-- The byte at each address.
abbrev pub Mem : Type 0
Mem = ℕ → ℕ

unfoldable pub write : Mem → ℕ → ℕ → Mem
write m a v x = if x == a then v else m x

-- `for (int k = i; k < i + n; ++k)`, with a body that may fail an assert.
unfoldable pub for_range {ℓ} : {S : Type ℓ} → ℕ → ℕ → (ℕ → S → Option S) → S → Option S
for_range zero i body s = some s
for_range (suc n) i body s = body i s >>= λ s'. for_range n (i + 1) body s'
