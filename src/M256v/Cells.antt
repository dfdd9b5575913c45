-- ===== src/M256v/Cells.antt =====
-- The rounds of the loops of algebra/m256v.c: what each does to one cell.
use tv_rq.Prelude.{
  ℕ, ◌<◌, ◌≡◌, refl, sym, ap, ◌∙◌, some, ◌==◌, ==_zero, ==_iff, ◌>>=◌, arith, if◌then◌else◌,
  bit_xor, Bool-cases, inl, inr,
}
use tv_rq.Prelude.Bits.{xor-zero}
use tv_rq.Memory.{Mem, write}
use tv_rq.Memory.Sweep.{IsBytes, write_id}
use tv_rq.Gf256.{gf256_log}
use tv_rq.Gf256.Poly.{◌⊗◌, ⊗-zero, zero-⊗, one-⊗}
use tv_rq.Gf256.Field.{gf256_exp-add}
use tv_rq.M256v.{M256v, get_el, set_el, scaled, add_byte, multadd_byte}
use tv_rq.M256v.Access.{at, get_el_lem, set_el_lem}
use native.Mathlib.Decide.{dec_lt}

module _ (mat : M256v) (r c alpha : ℕ) (m : Mem) (in_row : r < mat.n_row)
    (in_col : c < mat.n_col) where
  scale_value :
      0 < alpha
      → alpha < 256
      → (v : ℕ) → v < 256
      → v ≡ m (at mat r c)
      → (if v == 0 then some m else (scaled (gf256_log alpha) v >>= λ x. set_el mat r c x m))
        ≡ some (write m (at mat r c) (v ⊗ alpha))
  unfolding scaled
  scale_value p h v l e = elim (dec_lt 0 v) [
    | yes q ↦
        rw (==_zero v q, gf256_exp-add v alpha q l p h)
          (set_el_lem mat r c (v ⊗ alpha) m in_row (omega arith))
    | no q ↦
        let zero_v : v ≡ 0 = omega arith in
        rw (zero_v, zero-⊗ alpha)
          (ap some (sym (ap (write m (at mat r c)) (sym zero_v ∙ e) ∙ write_id m (at mat r c))))
  ]

  -- An element multiplied by a nonzero factor, given by its logarithm.
  pub scale_cell :
      0 < alpha
      → alpha < 256
      → IsBytes m
      → (get_el mat r c m >>= λ v.
          if v == 0 then some m else (scaled (gf256_log alpha) v >>= λ x. set_el mat r c x m))
        ≡ some (write m (at mat r c) (m (at mat r c) ⊗ alpha))
  scale_cell p h b =
      rw (get_el_lem mat r c m in_row (omega arith)) (scale_value p h (m (at mat r c)) (b _) refl)

-- A byte added, and a scaled byte added.
module _ (alpha s t : ℕ) (m : Mem) (small : alpha < 256) (nonzero : 0 < alpha)
    (bytes : IsBytes m) where
  add_byte_lem : alpha ≡ 1 → add_byte s t m ≡ some (write m t (bit_xor (m t) (alpha ⊗ m s)))
  unfolding add_byte
  add_byte_lem one = rw (one, one-⊗ (m s))

  multadd_byte_lem :
      multadd_byte (gf256_log alpha) s t m ≡ some (write m t (bit_xor (m t) (alpha ⊗ m s)))
  unfolding multadd_byte
  multadd_byte_lem = elim (dec_lt 0 (m s)) [
    | yes q ↦ rw (==_zero (m s) q, gf256_exp-add alpha (m s) nonzero small q (bytes s))
    | no q ↦
        let zero_s : m s ≡ 0 = omega arith in
        rw (zero_s, ⊗-zero alpha, xor-zero (m t)) (ap some (sym (write_id m t)))
  ]

  -- Both bodies of the loop of `multadd_row_from` add the product.
  pub round_lem :
      (if alpha == 1 then add_byte s t else multadd_byte (gf256_log alpha) s t) m
      ≡ some (write m t (bit_xor (m t) (alpha ⊗ m s)))
  round_lem = elim (Bool-cases (alpha == 1)) [
    | inl one ↦ rw one (add_byte_lem ((==_iff alpha 1).0 one))
    | inr other ↦ rw other multadd_byte_lem
  ]
