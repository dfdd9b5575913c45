-- ===== src/Lu/Product/Rows.antt =====
-- What the products with L and with U in algebra/mv_generic.h leave in the rows.
use tv_rq.Prelude.{
  on_left, ℕ, zero, suc, ◌+◌, ◌-◌, ◌≤◌, ◌<◌, ◌≡◌, ◌≢◌, refl, ap, ap₂, sym, ◌∙◌, some, arith, min,
  bit_xor, false, leb,
}
use native.Mathlib.Decide.{ℕ_discrete}
use tv_rq.Prelude.Bits.{xor-zero, xor_assoc, xor_comm}
use tv_rq.Memory.{Mem}
use tv_rq.Memory.Sweep.{IsBytes}
use tv_rq.Memory.Loop.{for_range_start}
use tv_rq.Gf256.Poly.{◌⊗◌}
use tv_rq.Gf256.Field.{⊗_comm}
use tv_rq.M256v.{M256v}
use tv_rq.M256v.Access.{at, IsView, at_injective, get_el_lem}
use tv_rq.M256v.Rows.{Written, mult_row_lem}
use tv_rq.Lu.Sum.{sum_from, sum_from_ext, sum_from-suc}
use tv_rq.Lu.Value.{row_from, row_from_first}
use tv_rq.Lu.Combine.{Disjoint, el, combine_lem, add_multiple_lem}
use tv_rq.Lu.Product.{
  add_down, l_mult_row, l_mult_rounds, l_mult_inplace, u_mult_row, u_mult_inplace,
}

-- The rows below `k` of the product with U.
pub record Above (lu x : M256v) (m : Mem) (k : ℕ) (t : Mem) : Type 0 where
  pub bytes : IsBytes t
  pub rows :
      (i c : ℕ)
      → i < k
      → c < x.n_col
      → el x t i c ≡ row_from lu.n_col (el lu m) (λ j. el x m j c) i i
  pub off : (a : ℕ) → ((i c : ℕ) → i < k → c < x.n_col → a ≢ at x i c) → t a ≡ m a

-- The rows from `k` to `n - 1` of the product with L.
pub record Below (lu x : M256v) (m : Mem) (k n : ℕ) (t : Mem) : Type 0 where
  pub bytes : IsBytes t
  pub rows :
      (i c : ℕ)
      → k ≤ i
      → i < n
      → c < x.n_col
      → el x t i c ≡ bit_xor (el x m i c) (sum_from 0 i (λ j. el lu m i j ⊗ el x m j c))
  pub off : (a : ℕ) → ((i c : ℕ) → k ≤ i → i < n → c < x.n_col → a ≢ at x i c) → t a ≡ m a

module _ (lu x : M256v) (view : IsView x) (apart : Disjoint lu x) (fits : lu.n_col ≤ x.n_row) where
  u_mult_row_lem :
      (i : ℕ) (m : Mem)
      → i < lu.n_row
      → i < lu.n_col
      → IsBytes m
      → (t : Mem) × (u_mult_row lu x i m ≡ some t)
        × Written m t x.n_col (at x i) (λ c. row_from lu.n_col (el lu m) (λ j. el x m j c) i i)
  unfolding u_mult_row row_from
  u_mult_row_lem i m h l bytes =
      let (m1, e1, w1) = mult_row_lem x i m view (omega arith) bytes (el lu m i i) (bytes _) in
      let (m2, e2, w2) =
        combine_lem lu x view apart i i (λ j. j) h (omega arith) m1 w1.bytes (i + 1)
          (lu.n_col - (i + 1)) (omega arith) (λ j p q. (omega arith, λ e. omega arith)) in
      (
        m2,
        rw (get_el_lem lu i i m h (omega arith)) (on_left e1 _ ∙ e2),
        record {
          bytes = w2.bytes;
          here = λ c k.
              w2.here c k
              ∙ ap₂ bit_xor (w1.here c k ∙ ⊗_comm (el x m i c) (el lu m i i) (bytes _) (bytes _)) (
                  sum_from_ext (i + 1) (lu.n_col - (i + 1)) _ _ (λ j p q.
                    ap₂ (λ u v. u ⊗ v)
                      (w1.off (at lu i j)
                        (λ c' l'. apart i j i c' h (omega arith) (omega arith) l'))
                      (w1.off (at x j c)
                        (λ c' l' e. omega (arith, (at_injective x j c i c' view k l' e).0)))))
              ∙ sym (row_from_first lu.n_col (el lu m) (λ j. el x m j c) i i l);
          off = λ a away. w2.off a away ∙ w1.off a away;
        },
      )

  add_down_lem :
      (i n : ℕ) (m : Mem)
      → i < lu.n_row
      → n ≤ i
      → i < x.n_row
      → n ≤ lu.n_col
      → IsBytes m
      → (t : Mem) × (add_down lu i x n m ≡ some t)
        × Written m t x.n_col
            (at x i)
            (λ c. bit_xor (el x m i c) (sum_from 0 n (λ j. el lu m i j ⊗ el x m j c)))
  unfolding add_down sum_from
  add_down_lem i zero m h l r s bytes =
      (m, refl, record { bytes = bytes; here = λ c k. sym (xor-zero _); off = λ a away. refl })
  add_down_lem i (suc n) m h l r s bytes =
      let (m1, e1, w1) =
        add_multiple_lem lu x view apart i i (λ j. j) h r m bytes n (omega arith) (omega arith)
          (λ e. omega arith) in
      let (m2, e2, w2) = add_down_lem i n m1 h (omega arith) r (omega arith) w1.bytes in
      (
        m2,
        on_left e1 (add_down lu i x n) ∙ e2,
        record {
          bytes = w2.bytes;
          here = λ c k.
              w2.here c k
              ∙ ap₂ bit_xor (w1.here c k) (
                  sum_from_ext 0 n _ _ (λ j p q.
                    ap₂ (λ u v. u ⊗ v)
                      (w1.off (at lu i j) (λ c' l'. apart i j i c' h (omega arith) r l'))
                      (w1.off (at x j c)
                        (λ c' l' e. omega (arith, (at_injective x j c i c' view k l' e).0)))))
              ∙ regroup c;
          off = λ a away. w2.off a away ∙ w1.off a away;
        },
      )
    where
      regroup :
          (c : ℕ)
          → bit_xor
              (bit_xor (el x m i c) (el lu m i n ⊗ el x m n c))
              (sum_from 0 n (λ j. el lu m i j ⊗ el x m j c))
            ≡ bit_xor (el x m i c) (sum_from 0 (suc n) (λ j. el lu m i j ⊗ el x m j c))
      regroup c =
          xor_assoc (el x m i c) (el lu m i n ⊗ el x m n c) _
          ∙ ap (bit_xor (el x m i c)) (
              xor_comm (el lu m i n ⊗ el x m n c) _
              ∙ sym (sum_from-suc n (λ j. el lu m i j ⊗ el x m j c)))

  Above-step :
      (m : Mem) (k : ℕ) (t : Mem)
      → k < min lu.n_col lu.n_row
      → Above lu x m k t
      → (t' : Mem) × (u_mult_row lu x k t ≡ some t') × Above lu x m (k + 1) t'
  unfolding row_from
  Above-step m k t h f =
      let (t', e, w) = u_mult_row_lem k t (omega arith) (omega arith) f.bytes in
      (
        t',
        e,
        record {
          bytes = w.bytes;
          rows = λ i c l lc. elim (ℕ_discrete i k) [
            | yes same ↦
                ap (λ i. el x t' i c) same
                ∙ w.here c lc
                ∙ sum_from_ext k (lu.n_col - k) _ _ (λ j p q.
                  ap₂ (λ u v. u ⊗ v)
                    (f.off (at lu k j) (λ i' c' l' lc'.
                      apart k j i' c' (omega arith) (omega arith) (omega arith) lc'))
                    (f.off (at x j c) (λ i' c' l' lc' e.
                      omega (arith, (at_injective x j c i' c' view lc lc' e).0))))
                ∙ ap (λ i. sum_from i (lu.n_col - i) (λ j. el lu m i j ⊗ el x m j c)) (sym same)
            | no ne ↦
                w.off (at x i c) (λ c' l' e. ne (at_injective x i c k c' view lc l' e).0)
                ∙ f.rows i c (omega arith) lc
          ];
          off = λ a away.
              w.off a (λ c lc. away k c (omega arith) lc)
              ∙ f.off a (λ i c l lc. away i c (omega arith) lc);
        },
      )

  -- `u_mult_inplace` fails no assert, and multiplies by U: each row becomes the sum of the multiples of
  -- the rows from its own on, by the entries of U, and the rows below U stay.
  pub u_mult_inplace_lem :
      (m : Mem)
      → IsBytes m
      → (t : Mem) × (u_mult_inplace lu x m ≡ some t) × Above lu x m (min lu.n_col lu.n_row) t
  unfolding u_mult_inplace
  u_mult_inplace_lem m bytes =
      for_range_start (Above lu x m) (u_mult_row lu x) (min lu.n_col lu.n_row) m (Above-step m)
        (record { bytes = bytes; rows = λ i c l lc. absurd (omega arith); off = λ a away. refl })

  triangular : (i : ℕ) (m : Mem) → i < lu.n_col → l_mult_row lu x i m ≡ add_down lu i x i m
  unfolding l_mult_row
  triangular i m h = rw (small lu.n_col i h) refl
    where
      small : (n i : ℕ) → i < n → leb n i ≡ false
      small n i h = ground arith

  Below-rounds :
      (m : Mem) (n k : ℕ) (t : Mem)
      → k ≤ n
      → n ≤ lu.n_row
      → n ≤ lu.n_col
      → Below lu x m k n t
      → (t' : Mem) × (l_mult_rounds lu x k t ≡ some t') × Below lu x m 0 n t'
  unfolding l_mult_rounds
  Below-rounds m n zero t h l s f = (t, refl, f)
  Below-rounds m n (suc k) t h l s f =
      let (t1, e1, w) =
        add_down_lem k k t (omega arith) (omega arith) (omega arith) (omega arith) f.bytes in
      let f1 : Below lu x m k n t1 = record {
        bytes = w.bytes;
        rows = λ i c low high lc. elim (ℕ_discrete i k) [
          | yes same ↦
              ap (λ i. el x t1 i c) same
              ∙ w.here c lc
              ∙ ap₂ bit_xor (before k c (omega arith) lc) (
                  sum_from_ext 0 k _ _ (λ j p q.
                    ap₂ (λ u v. u ⊗ v)
                      (f.off (at lu k j) (λ i' c' l' u' lc'.
                        apart k j i' c' (omega arith) (omega arith) (omega arith) lc'))
                      (before j c (omega arith) lc)))
              ∙ ap (λ i. bit_xor (el x m i c) (sum_from 0 i (λ j. el lu m i j ⊗ el x m j c)))
                  (sym same)
          | no ne ↦
              w.off (at x i c) (λ c' l' e. ne (at_injective x i c k c' view lc l' e).0)
              ∙ f.rows i c (omega arith) high lc
        ];
        off = λ a away.
            w.off a (λ c lc. away k c (omega arith) (omega arith) lc)
            ∙ f.off a (λ i c p q lc. away i c (omega arith) q lc);
      } in
      let (t2, e2, f2) = Below-rounds m n k t1 (omega arith) l s f1 in
      (t2, on_left (triangular k t (omega arith) ∙ e1) (l_mult_rounds lu x k) ∙ e2, f2)
    where
      before : (j c : ℕ) → j ≤ k → c < x.n_col → el x t j c ≡ el x m j c
      before j c p lc =
          f.off (at x j c)
            (λ i' c' l' u' lc' e. omega (arith, (at_injective x j c i' c' view lc lc' e).0))

  -- `l_mult_inplace` of a matrix with no more rows than columns fails no assert, and multiplies by L:
  -- to each row are added the multiples of the rows before it by the entries of L.
  pub l_mult_inplace_lem :
      (m : Mem)
      → lu.n_row ≤ lu.n_col
      → IsBytes m
      → (t : Mem) × (l_mult_inplace lu x m ≡ some t) × Below lu x m 0 lu.n_row t
  unfolding l_mult_inplace
  l_mult_inplace_lem m wide bytes =
      Below-rounds m lu.n_row lu.n_row m (omega arith) (omega arith) wide
        (record { bytes = bytes; rows = λ i c p q lc. absurd (omega arith); off = λ a away. refl })
