-- ===== src/Lt.antt =====
-- tvrq/lt.c: the LT rows of the matrix, and the walk over the positions that a tuple selects, which
-- `RqOutExecute` of api/tvrq_api.c takes too. `none` is a failed assert or, in `skip_pi`, a loop
-- that has not ended.
pub mod Skip
pub mod Positions
pub mod Columns
pub mod Tuples
pub mod Rows
mod Examples
use tv_rq.Prelude.{
  ℕ, zero, suc, ◌+◌, ◌-◌, ◌%◌, Option, none, some, leb, ◌==◌, if◌then◌else◌, assert, ◌>>=◌, ◌>>◌,
}
use tv_rq.Memory.{Mem, for_range}
use tv_rq.Parameters.{Parameters}
use tv_rq.Tuple.{Tuple, tuple_generate_from_isi}
use tv_rq.M256v.{M256v, set_el}
use tv_rq.M256v.Whole.{clear}

-- `while (T.b1 >= P->P) T.b1 = (T.b1 + T.a1) % P->P1;`, with at most the given number of rounds.
unfoldable pub skip_pi : ℕ → Parameters → ℕ → ℕ → Option ℕ
skip_pi zero p a1 b1 = if leb p.p b1 then none else some b1
skip_pi (suc n) p a1 b1 =
    let rest = skip_pi n p a1 ((b1 + a1) % p.p1) in if leb p.p b1 then rest else some b1

-- The rounds that are enough.
abbrev pub skip_fuel : Parameters → ℕ
skip_fuel p = p.p1

module _ (visit : ℕ → Mem → Option Mem) (t : Tuple) (p : Parameters) where
  -- The loop over the LT positions after the first, with `n` rounds left.
  unfoldable pub walk_lt : ℕ → ℕ → Mem → Option Mem
  walk_lt zero b m = some m
  walk_lt (suc n) b m = let b' = (b + t.a) % p.w in visit b' m >>= λ m'. walk_lt n b' m'

  -- The loop over the PI positions after the first, with `n` rounds left.
  unfoldable pub walk_pi : ℕ → ℕ → Mem → Option Mem
  walk_pi zero b1 m = some m
  walk_pi (suc n) b1 m = skip_pi (skip_fuel p) p t.a1 ((b1 + t.a1) % p.p1) >>= λ b1'.
      visit (p.w + b1') m >>= λ m'. walk_pi n b1' m'

  -- The body of the loop over the symbols, `first` being what is done at the first position.
  unfoldable pub walk : (ℕ → Mem → Option Mem) → Mem → Option Mem
  walk first m = first t.b m >>= λ m1. walk_lt (t.d - 1) t.b m1 >>= λ m2.
      skip_pi (skip_fuel p) p t.a1 t.b1 >>= λ b1.
      visit (p.w + b1) m2 >>= λ m3. walk_pi (t.d1 - 1) b1 m3

-- One round of the loop over the symbols.
unfoldable pub lt_row : M256v → Parameters → (ℕ → ℕ) → ℕ → Mem → Option Mem
lt_row mat p isis i m = tuple_generate_from_isi (isis i) p >>= λ t.
    walk (λ c m. set_el mat i c 1 m) t p (λ c m. set_el mat i c 1 m) m

unfoldable pub lt_generate_mat : M256v → Parameters → ℕ → (ℕ → ℕ) → Mem → Option Mem
lt_generate_mat mat p n_isis isis m =
    assert (mat.n_row == n_isis)
    >> (assert (mat.n_col == p.l)
        >> (clear mat m >>= λ m'. for_range n_isis 0 (lt_row mat p isis) m'))
