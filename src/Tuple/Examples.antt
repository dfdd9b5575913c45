-- ===== src/Tuple/Examples.antt =====
-- The theorems on tuples at concrete values.
use tv_rq.Prelude.{ℕ, ◌+◌, ◌-◌, ◌≤◌, ◌<◌, ◌≡◌, ◌⊎◌, refl, some, ◌>>=◌, min, ◌∷◌, get_or, arith}
use tv_rq.Parameters.Examples.{ten, ten-IsValid}
use tv_rq.Tuple.{
  Tuple, thresholds, deg_from, deg, seed, tuple_generate_from_isi, isi_of_esi,
  tuple_generate_from_esi,
}
use tv_rq.Rand.{rand}
use tv_rq.Tuple.Bounds.{deg_lem, tuple_bounds, isi_of_esi-injective}

first_tuple : (tuple_generate_from_esi 0 ten >>= λ t. some t.d) ≡ some 2
unfolding tuple_generate_from_esi tuple_generate_from_isi isi_of_esi deg deg_from thresholds seed
    rand
first_tuple = refl

deg_lem_example :
    (d : ℕ) × (deg 600000 17 ≡ some (min d (17 - 2)))
    × (1 ≤ d)
    × (d ≤ 30)
    × (get_or (0 ∷ thresholds) (d - 1) 0 ≤ 600000)
    × (600000 < get_or (0 ∷ thresholds) d 0)
deg_lem_example = deg_lem 600000 17 (omega arith)

tuple_bounds_example :
    (t : Tuple) × (tuple_generate_from_isi 5 ten ≡ some t)
    × (1 ≤ t.d)
    × (t.d ≤ 30)
    × (t.d + 2 ≤ 17)
    × (1 ≤ t.a)
    × (t.a < 17)
    × (t.b < 17)
    × (2 ≤ t.d1)
    × (t.d1 ≤ 3)
    × (1 ≤ t.a1)
    × (t.a1 < 11)
    × (t.b1 < 11)
tuple_bounds_example = tuple_bounds 5 ten-IsValid

isi_of_esi-injective_example :
    ((isi_of_esi 3 ten < 10) ⊎ (10 ≤ isi_of_esi 3 ten))
    × (isi_of_esi 3 ten ≡ isi_of_esi 12 ten → ◌≡◌ {A = ℕ} 3 12)
isi_of_esi-injective_example = isi_of_esi-injective 3 12 ten-IsValid (omega arith) (omega arith)
