-- ===== src/M256v/Access.antt =====
-- Where the elements of a view lie, and that access within the bounds fails no assert.
use tv_rq.Prelude.{ℕ, ◌+◌, ◌*◌, ◌≤◌, ◌<◌, ◌≡◌, refl, some, lt→ltb, le→leb, arith, ap}
use tv_rq.Memory.{Mem, write}
use tv_rq.M256v.{M256v, get_el_offs, get_subview, get_el, set_el}
use native.Mathlib.Decide.{dec_lt}

-- The address of an element.
abbrev pub at : M256v → ℕ → ℕ → ℕ
at mat r c = mat.e + (r * mat.rstride + c)

-- The rows do not overlap.
abbrev pub IsView : M256v → Type 0
IsView mat = mat.n_col ≤ mat.rstride

pub get_el_offs_lem :
    (mat : M256v) (r c : ℕ)
    → r < mat.n_row
    → c ≤ mat.n_col
    → get_el_offs mat r c ≡ some (r * mat.rstride + c)
unfolding get_el_offs
get_el_offs_lem mat r c h k = rw (lt→ltb r mat.n_row h, le→leb c mat.n_col k)

pub get_el_lem :
    (mat : M256v) (r c : ℕ) (m : Mem)
    → r < mat.n_row
    → c ≤ mat.n_col
    → get_el mat r c m ≡ some (m (at mat r c))
unfolding get_el
get_el_lem mat r c m h k = rw (get_el_offs_lem mat r c h k)

pub set_el_lem :
    (mat : M256v) (r c v : ℕ) (m : Mem)
    → r < mat.n_row
    → c ≤ mat.n_col
    → set_el mat r c v m ≡ some (write m (at mat r c) v)
unfolding set_el
set_el_lem mat r c v m h k = rw (get_el_offs_lem mat r c h k)

row_gap : (s i j a b w : ℕ) → a < w → w ≤ s → i < j → i * s + a < j * s + b
row_gap s i j a b w ha hw h = grind arith

-- Different elements have different addresses.
pub at_injective :
    (mat : M256v) (r c r' c' : ℕ)
    → IsView mat
    → c < mat.n_col
    → c' < mat.n_col
    → at mat r c ≡ at mat r' c'
    → (r ≡ r') × (c ≡ c')
at_injective mat r c r' c' view h k e = elim (dec_lt r r') [
  | yes p ↦ absurd (omega (arith, row_gap mat.rstride r r' c c' mat.n_col h view p))
  | no p ↦ elim (dec_lt r' r) [
    | yes q ↦ absurd (omega (arith, row_gap mat.rstride r' r c' c mat.n_col k view q))
    | no q ↦
        let same : r ≡ r' = omega arith in
        (same, omega (arith, ap (λ (t : ℕ). t * mat.rstride) same))
  ]
]

-- A subview within the bounds is made, it is a view again, and its elements are elements of the
-- matrix, at the offsets.
pub get_subview_lem :
    (mat : M256v) (row_offs col_offs n_row n_col : ℕ)
    → IsView mat
    → row_offs < mat.n_row
    → row_offs + n_row ≤ mat.n_row
    → col_offs + n_col ≤ mat.n_col
    → (sub : M256v) × (get_subview mat row_offs col_offs n_row n_col ≡ some sub)
      × IsView sub
      × (sub.n_row ≡ n_row)
      × (sub.n_col ≡ n_col)
      × ((r c : ℕ) → at sub r c ≡ at mat (row_offs + r) (col_offs + c))
unfolding get_subview
get_subview_lem mat row_offs col_offs n_row n_col view pos rows cols = (
  record {
    n_row = n_row;
    n_col = n_col;
    rstride = mat.rstride;
    e = mat.e + (row_offs * mat.rstride + col_offs);
  },
  rw (
    le→leb _ _ rows,
    le→leb _ _ cols,
    get_el_offs_lem mat row_offs col_offs (omega arith) (omega arith),
  ),
  omega arith,
  refl,
  refl,
  λ r c. grind arith,
)
