-- ===== src/M256v/Add.antt =====
-- `m256v_multadd_row` of algebra/m256v.c with the factor 1.
use tv_rq.Prelude.{ℕ, ◌+◌, ◌<◌, ◌≡◌, subst, ap, ◌∙◌, some, arith, bit_xor}
use tv_rq.Memory.{Mem}
use tv_rq.Memory.Sweep.{IsBytes}
use tv_rq.M256v.{M256v, multadd_row}
use tv_rq.M256v.Access.{at}
use tv_rq.M256v.Rows.{Written, RowsApart, multadd_row_from_lem}
use tv_rq.Gf256.Poly.{◌⊗◌, one-⊗}

zero_add : (n : ℕ) → 0 + n ≡ n
zero_add n = omega arith

-- A multiple of one row is added to another.
pub multadd_row_alpha_lem :
    (im : M256v) (q alpha : ℕ) (o : M256v) (i : ℕ) (m : Mem)
    → im.n_col ≡ o.n_col
    → q < im.n_row
    → i < o.n_row
    → alpha < 256
    → IsBytes m
    → RowsApart im q o i
    → (m' : Mem) × (multadd_row im q alpha o i m ≡ some m')
      × Written m m' o.n_col (at o i) (λ c. bit_xor (m (at o i c)) (alpha ⊗ m (at im q c)))
unfolding multadd_row
multadd_row_alpha_lem im q alpha o i m same_cols h in_range small bytes apart =
    let (m', e, w) =
      multadd_row_from_lem im q o i m same_cols h in_range bytes apart 0 alpha (omega arith)
        small in
    (
      m',
      e,
      record {
        bytes = w.bytes;
        here = λ c l.
            subst (λ k. m' (at o i k) ≡ bit_xor (m (at o i k)) (alpha ⊗ m (at im q k))) (zero_add c)
              (w.here c (omega arith));
        off = λ x away. w.off x (λ k l e. away (0 + k) (omega arith) e);
      },
    )

-- One row is added to another.
pub multadd_row_lem :
    (im : M256v) (q : ℕ) (o : M256v) (i : ℕ) (m : Mem)
    → im.n_col ≡ o.n_col
    → q < im.n_row
    → i < o.n_row
    → IsBytes m
    → RowsApart im q o i
    → (m' : Mem) × (multadd_row im q 1 o i m ≡ some m')
      × Written m m' o.n_col (at o i) (λ c. bit_xor (m (at o i c)) (m (at im q c)))
multadd_row_lem im q o i m same_cols h in_range bytes apart =
    let (m', e, w) =
      multadd_row_alpha_lem im q 1 o i m same_cols h in_range (omega arith) bytes apart in
    (
      m',
      e,
      record {
        bytes = w.bytes;
        here = λ c l. w.here c l ∙ ap (bit_xor (m (at o i c))) (one-⊗ (m (at im q c)));
        off = w.off;
      },
    )
