-- ===== src/Api/Execute/Sum.antt =====
-- Rows of a matrix added to a row, one after the other.
use tv_rq.Prelude.{ℕ, ◌<◌, ◌≡◌, refl, ap, ap₂, sym, ◌∙◌, some, List, [], ◌∷◌, All, bit_xor, ◌>>=◌}
use tv_rq.Prelude.Bits.{xor-zero, xor_assoc}
use tv_rq.Memory.{Mem}
use tv_rq.Memory.Sweep.{IsBytes}
use tv_rq.M256v.{M256v, multadd_row}
use tv_rq.M256v.Access.{at}
use tv_rq.M256v.Rows.{Written, RowsApart}
use tv_rq.M256v.Add.{multadd_row_lem}
use tv_rq.Lt.Positions.{visit_all}

-- The sum over GF(256) of the values at the items of a list.
unfoldable pub sum : (ℕ → ℕ) → List ℕ → ℕ
sum f [] = 0
sum f (x ∷ xs) = bit_xor (f x) (sum f xs)

pub sum_ext :
    (P : ℕ → Type 0) (f g : ℕ → ℕ) (xs : List ℕ)
    → All P xs
    → ((x : ℕ) → P x → f x ≡ g x)
    → sum f xs ≡ sum g xs
unfolding sum
sum_ext P f g [] a h = refl
sum_ext P f g (x ∷ xs) a h = ap₂ bit_xor (h x a.0) (sum_ext P f g xs a.1 h)

module _ (im o : M256v) (i : ℕ) (same_cols : im.n_col ≡ o.n_col) (in_range : i < o.n_row)
    (apart : (q : ℕ) → q < im.n_row → RowsApart im q o i) where
  pub add_rows :
      (qs : List ℕ) (m : Mem)
      → IsBytes m
      → All (λ q. q < im.n_row) qs
      → (m' : Mem) × (visit_all (λ q. multadd_row im q 1 o i) qs m ≡ some m')
        × Written m m' o.n_col (at o i) (λ c. bit_xor (m (at o i c)) (sum (λ q. m (at im q c)) qs))
  unfolding visit_all sum
  add_rows [] m bytes h = (
    m,
    refl,
    record { bytes = bytes; here = λ c l. sym (xor-zero (m (at o i c))); off = λ x away. refl },
  )
  add_rows (q ∷ qs) m bytes h =
      let (m1, e, w) = multadd_row_lem im q o i m same_cols h.0 in_range bytes (apart q h.0) in
      let (m', run, w') = add_rows qs m1 w.bytes h.1 in
      (
        m',
        ap (λ x. x >>= visit_all (λ q. multadd_row im q 1 o i) qs) e ∙ run,
        record {
          bytes = w'.bytes;
          here = λ c l.
              w'.here c l
              ∙ ap₂ bit_xor (w.here c l) (
                  sum_ext (λ q. q < im.n_row) _ _ qs h.1
                    (λ q b. w.off (at im q c) (λ k lk. apart q b k c lk l)))
              ∙ xor_assoc (m (at o i c)) (m (at im q c)) (sum (λ q. m (at im q c)) qs);
          off = λ x away. w'.off x away ∙ w.off x away;
        },
      )
