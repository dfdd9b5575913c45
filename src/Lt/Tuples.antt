-- ===== src/Lt/Tuples.antt =====
-- The positions for an internal or an encoding symbol identifier.
use tv_rq.Prelude.{ℕ, ◌≡◌, refl, some, none, List, [], arith}
use tv_rq.Parameters.{Parameters}
use tv_rq.Parameters.Valid.{IsValid}
use tv_rq.Tuple.{Tuple, tuple_generate_from_isi, tuple_generate_from_esi, isi_of_esi}
use tv_rq.Tuple.Bounds.{tuple_bounds}
use tv_rq.Lt.Positions.{InRange, positions}

-- The positions of the tuple for an internal symbol identifier.
unfoldable pub isi_positions : ℕ → Parameters → List ℕ
isi_positions x p = elim (tuple_generate_from_isi x p) [ none ↦ [] | some t ↦ positions t p ]

isi_eq :
    (x : ℕ) (p : Parameters) (t : Tuple)
    → tuple_generate_from_isi x p ≡ some t
    → isi_positions x p ≡ positions t p
unfolding isi_positions
isi_eq x p t e = rw (e, isi_positions) refl

pub isi_positions_lem :
    (x : ℕ) {p : Parameters}
    → IsValid p
    → (t : Tuple) × (tuple_generate_from_isi x p ≡ some t)
      × InRange t p
      × (isi_positions x p ≡ positions t p)
isi_positions_lem x {p} valid =
    let (t, e, d, _, _, _, _, b, d1, _, a1, a1_max, b1) = tuple_bounds x valid in
    (
      t,
      e,
      record {
        d_min = d;
        b_max = b;
        d1_min = omega (arith, d1);
        a1_min = a1;
        a1_max = a1_max;
        b1_max = b1;
      },
      isi_eq x p t e,
    )

-- The positions of the tuple for an encoding symbol identifier.
unfoldable pub esi_positions : ℕ → Parameters → List ℕ
esi_positions x p = isi_positions (isi_of_esi x p) p

pub esi_positions_lem :
    (x : ℕ) {p : Parameters}
    → IsValid p
    → (t : Tuple) × (tuple_generate_from_esi x p ≡ some t)
      × InRange t p
      × (esi_positions x p ≡ positions t p)
unfolding tuple_generate_from_esi esi_positions
esi_positions_lem x {p} valid = isi_positions_lem (isi_of_esi x p) valid
