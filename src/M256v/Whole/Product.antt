-- ===== src/M256v/Whole/Product.antt =====
-- What `mul` of algebra/mv_generic.h leaves behind: the matrix product over GF(256).
use tv_rq.Prelude.{
  ℕ, zero, suc, ◌+◌, ◌<◌, ◌≤◌, ◌≡◌, ◌≢◌, refl, ap, ap₂, ◌∙◌, some, arith, bit_xor, ==_iff, ◌>>=◌,
}
use tv_rq.Prelude.Bits.{xor-lt}
use tv_rq.Memory.{Mem, write, for_range}
use tv_rq.Memory.Sweep.{IsBytes}
use tv_rq.Gf256.Poly.{◌⊗◌, ⊗-lt}
use tv_rq.Gf256.Field.{gf256_mul-eq-⊗}
use tv_rq.M256v.{M256v, set_el}
use tv_rq.M256v.Access.{at, IsView, at_injective, get_el_lem, set_el_lem}
use tv_rq.M256v.Rows.{Written, for_range-Written}
use tv_rq.M256v.Fill.{Filled, fill_lem}
use tv_rq.M256v.Whole.{mul_step, mul_el, mul}

-- The sum of the first `n` products.
unfoldable pub dot : ℕ → (ℕ → ℕ) → (ℕ → ℕ) → ℕ
dot zero f g = 0
dot (suc n) f g = bit_xor (dot n f g) (f n ⊗ g n)

dot-lt : (n : ℕ) (f g : ℕ → ℕ) → ((e : ℕ) → g e < 256) → dot n f g < 256
unfolding dot
dot-lt zero f g h = omega arith
dot-lt (suc n) f g h = xor-lt 8 (dot n f g) (f n ⊗ g n) (dot-lt n f g h) (⊗-lt (f n) (g n) (h n))

pub dot_ext :
    (n : ℕ) (f g f' g' : ℕ → ℕ)
    → ((e : ℕ) → e < n → f e ≡ f' e)
    → ((e : ℕ) → e < n → g e ≡ g' e)
    → dot n f g ≡ dot n f' g'
unfolding dot
dot_ext zero f g f' g' p q = refl
dot_ext (suc n) f g f' g' p q =
    ap₂ bit_xor (dot_ext n f g f' g' (λ e h. p e (omega arith)) (λ e h. q e (omega arith)))
      (ap₂ (λ x y. x ⊗ y) (p n (omega arith)) (q n (omega arith)))

suc_eq : (k : ℕ) → suc k ≡ k + 1
suc_eq k = omega arith

-- The matrices can be multiplied, into cells of no factor.
pub record Factors (a b out : M256v) : Type 0 where
  pub inner : a.n_col ≡ b.n_row
  pub rows : a.n_row ≡ out.n_row
  pub cols : b.n_col ≡ out.n_col
  pub apart_a :
      (i e r c : ℕ)
      → i < a.n_row
      → e < a.n_col
      → r < out.n_row
      → c < out.n_col
      → at a i e ≢ at out r c
  pub apart_b :
      (e j r c : ℕ)
      → e < b.n_row
      → j < b.n_col
      → r < out.n_row
      → c < out.n_col
      → at b e j ≢ at out r c

module _ (a b out : M256v) (s : Factors a b out) (view : IsView out) where
  product : Mem → ℕ → ℕ → ℕ
  product m i j = dot a.n_col (λ e. m (at a i e)) (λ e. m (at b e j))

  mul_step_lem :
      (i j e x : ℕ) (m : Mem)
      → IsBytes m
      → i < out.n_row
      → j < out.n_col
      → e < a.n_col
      → mul_step a b i j m e x ≡ some (bit_xor x (m (at a i e) ⊗ m (at b e j)))
  unfolding mul_step
  mul_step_lem i j e x m bytes h l k =
      rw
        (
          get_el_lem a i e m (omega (arith, s.rows)) (omega arith),
          get_el_lem b e j m (omega (arith, s.inner)) (omega (arith, s.cols)),
          gf256_mul-eq-⊗ (m (at a i e)) (m (at b e j)) (bytes _) (bytes _),
        )
        refl

  inner_loop :
      (n k i j : ℕ) (m : Mem)
      → IsBytes m
      → i < out.n_row
      → j < out.n_col
      → k + n ≤ a.n_col
      → for_range n k (mul_step a b i j m) (dot k (λ e. m (at a i e)) (λ e. m (at b e j)))
        ≡ some (dot (k + n) (λ e. m (at a i e)) (λ e. m (at b e j)))
  unfolding for_range dot
  inner_loop zero k i j m bytes h l t =
      ap (λ n. some (dot n (λ e. m (at a i e)) (λ e. m (at b e j)))) (omega arith)
  inner_loop (suc n) k i j m bytes h l t =
      ap (λ o. o >>= for_range n (k + 1) (mul_step a b i j m))
        (mul_step_lem i j k (dot k (λ e. m (at a i e)) (λ e. m (at b e j))) m bytes h l
          (omega arith))
      ∙ ap (for_range n (k + 1) (mul_step a b i j m)) (dot_suc k)
      ∙ inner_loop n (k + 1) i j m bytes h l (omega arith)
      ∙ ap (λ n. some (dot n (λ e. m (at a i e)) (λ e. m (at b e j)))) (omega arith)
    where
      dot_suc :
          (k : ℕ)
          → bit_xor (dot k (λ e. m (at a i e)) (λ e. m (at b e j))) (m (at a i k) ⊗ m (at b k j))
            ≡ dot (k + 1) (λ e. m (at a i e)) (λ e. m (at b e j))
      dot_suc k = ap (λ n. dot n (λ e. m (at a i e)) (λ e. m (at b e j))) (suc_eq k)

  mul_el_lem :
      (i j : ℕ) (m : Mem)
      → IsBytes m
      → i < out.n_row
      → j < out.n_col
      → mul_el a b out i j m ≡ some (write m (at out i j) (product m i j))
  unfolding mul_el product dot
  mul_el_lem i j m bytes h l =
      ap (λ o. o >>= λ x. set_el out i j x m) (inner_loop a.n_col 0 i j m bytes h l (omega arith))
      ∙ set_el_lem out i j _ m h (omega arith)
      ∙ ap (λ n. some (write m (at out i j) (dot n (λ e. m (at a i e)) (λ e. m (at b e j)))))
          (omega arith)

  product_ext :
      (i j : ℕ) (m m' : Mem)
      → i < out.n_row
      → j < out.n_col
      → ((x : ℕ) → ((r c : ℕ) → r < out.n_row → c < out.n_col → x ≢ at out r c) → m' x ≡ m x)
      → product m' i j ≡ product m i j
  unfolding product
  product_ext i j m m' h l same =
      dot_ext a.n_col _ _ _ _
        (λ e k. same (at a i e) (λ r c. s.apart_a i e r c (omega (arith, s.rows)) k))
        (λ e k.
          same (at b e j)
            (λ r c. s.apart_b e j r c (omega (arith, s.inner)) (omega (arith, s.cols))))

  mul_row :
      (i : ℕ) (m : Mem)
      → IsBytes m
      → i < out.n_row
      → (m' : Mem) × (for_range out.n_col 0 (mul_el a b out i) m ≡ some m')
        × Written m m' out.n_col (at out i) (product m i)
  unfolding product
  mul_row i m bytes h =
      for_range-Written (at out i) (λ j m. product m i j) (mul_el a b out i) out.n_col m bytes
        (λ j k lt lk e. omega (arith, (at_injective out i j i k view (omega arith) lk e).1))
        (λ j m' l away.
          product_ext i j m m' h l (λ x off. away x (λ k lk. off i k h (omega arith))))
        (λ j m l b. (mul_el_lem i j m b h l, dot-lt a.n_col _ _ (λ e. b _)))

  -- `mul` makes each element of the target the product of a row of `a` and a column of `b`, no
  -- assert failing, and changes nothing else.
  pub mul_lem :
      (m : Mem)
      → IsBytes m
      → (m' : Mem) × (mul a b out m ≡ some m')
        × Filled out m m' out.n_row (λ r c. dot a.n_col (λ e. m (at a r e)) (λ e. m (at b e c)))
  unfolding mul product
  mul_lem m bytes =
      let (m', run, f) =
        fill_lem out view m (product m) (λ i m. for_range out.n_col 0 (mul_el a b out i) m)
          out.n_row
          (λ i m1 h f.
            let (m2, e, w) = mul_row i m1 f.bytes h in
            (
              m2,
              e,
              record {
                bytes = w.bytes;
                here = λ c l.
                    w.here c l
                    ∙ product_ext i c m m1 h l
                        (λ x off. f.off x (λ j k lj lk. off j k (omega arith) lk));
                off = w.off;
              },
            ))
          bytes in
      (
        m',
        rw
            (
              (==_iff a.n_col b.n_row).1 s.inner,
              (==_iff a.n_row out.n_row).1 s.rows,
              (==_iff b.n_col out.n_col).1 s.cols,
            )
            run,
        f,
      )
