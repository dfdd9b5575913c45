-- ===== src/Lu/Examples.antt =====
-- The decomposition of a matrix of two rows and two columns, and its solves.
use tv_rq.Prelude.{◌>>=◌, ℕ, ◌+◌, ◌-◌, ◌%◌, ◌<◌, ◌≡◌, ◌≢◌, refl, Option, none, some, arith}
use tv_rq.Memory.{Mem}
use tv_rq.Memory.Sweep.{IsBytes}
use tv_rq.M256v.{M256v}
use tv_rq.Lu.{
  LuState, init_perm, lu_rounds, lu_decomp_inplace, place, l_invmult_inplace_p, u_invmult_inplace_p,
  lu_invmult_inplace,
}
use tv_rq.Lu.Combine.{Disjoint, el}
use tv_rq.Lu.Rank.{Finished, Decomposed-start, lu_rounds_lem, lu_decomp_inplace_lem}
use tv_rq.Lu.Lower.{Places, Lowered, l_invmult_inplace_p_lem}
use tv_rq.Lu.Upper.{Raised, u_invmult_inplace_p_lem}
use tv_rq.Lu.Eliminate.{OffMatrix}
use tv_rq.Lu.Product.{lu_mult_inplace}
use tv_rq.Lu.Product.Undo.{lu_mult_inplace-lu_invmult_inplace}
use tv_rq.Lu.Solve.{Solved, lu_invmult_inplace_lem}

-- 1 2
-- 3 4
abbrev lu : M256v
lu = record { n_row = 2; n_col = 2; rstride = 2; e = 0 }

abbrev x : M256v
x = record { n_row = 2; n_col = 3; rstride = 3; e = 10 }

abbrev from_one : Mem
from_one a = (a + 1) % 256

from_one-IsBytes : IsBytes from_one
from_one-IsBytes a = omega arith

abbrev unset : LuState
unset = record { mem = from_one; rp = λ i. 7; cp = λ i. 7 }

abbrev begun : LuState
begun = record { mem = from_one; rp = init_perm 2 (λ i. 7); cp = init_perm 2 (λ i. 7) }

apart : Disjoint lu x
apart r c r' c' h l h' l' e = omega arith

abbrev swapped : Option (ℕ → ℕ)
swapped = some (λ i. 1 - i)

swapped-Places : Places x (place swapped) 2
unfolding place
swapped-Places = record { inside = λ i h. omega arith; distinct = λ i j h l ne e. ne (omega arith) }

pivots : (i : ℕ) → i < 2 → el lu from_one i i ≢ 0
pivots i h e = omega arith

lu_rounds_lem_example :
    (rank : ℕ) × (st' : LuState) × (lu_rounds 2 0 lu begun ≡ some (rank, st'))
    × Finished lu from_one rank st'
lu_rounds_lem_example =
    lu_rounds_lem lu from_one (omega arith) 2 0 begun refl
      (Decomposed-start lu unset from_one-IsBytes)

lu_decomp_inplace_lem_example :
    (rank : ℕ) × (st' : LuState) × (lu_decomp_inplace lu unset ≡ some (rank, st'))
    × Finished lu from_one rank st'
lu_decomp_inplace_lem_example = lu_decomp_inplace_lem lu unset (omega arith) from_one-IsBytes

l_invmult_inplace_p_lem_example :
    (t : Mem) × (l_invmult_inplace_p lu 2 x swapped from_one ≡ some t)
    × Lowered lu x (place swapped) from_one 2 t
l_invmult_inplace_p_lem_example =
    l_invmult_inplace_p_lem lu x swapped 2 from_one (omega arith) apart swapped-Places (omega arith)
      (omega arith) from_one-IsBytes

u_invmult_inplace_p_lem_example :
    (t : Mem) × (u_invmult_inplace_p lu 2 x swapped from_one ≡ some t)
    × Raised lu x (place swapped) from_one 2 t
u_invmult_inplace_p_lem_example =
    u_invmult_inplace_p_lem lu x swapped 2 from_one (omega arith) apart swapped-Places (omega arith)
      (omega arith) from_one-IsBytes pivots

lu_invmult_inplace_lem_example :
    (t : Mem) × (lu_invmult_inplace lu none none none x 50 from_one ≡ some t)
    × Solved lu x from_one t
lu_invmult_inplace_lem_example =
    lu_invmult_inplace_lem lu x 50 from_one (omega arith) apart refl (omega arith) (omega arith)
      from_one-IsBytes pivots

lu_mult_inplace-lu_invmult_inplace_example :
    (t : Mem) × ((lu_invmult_inplace lu none none none x 50 from_one
        >>= lu_mult_inplace lu none none x 50)
      ≡ some t)
    × ((r c : ℕ) → r < 2 → c < 3 → el x t r c ≡ el x from_one r c)
    × ((a : ℕ) → OffMatrix x a → t a ≡ from_one a)
lu_mult_inplace-lu_invmult_inplace_example =
    lu_mult_inplace-lu_invmult_inplace lu x 50 (omega arith) apart refl (omega arith) (omega arith)
      from_one from_one-IsBytes pivots
