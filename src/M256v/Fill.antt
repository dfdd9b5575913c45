-- ===== src/M256v/Fill.antt =====
-- Loops that fill the rows of a matrix one after the other.
use tv_rq.Prelude.{
  ℕ, zero, suc, ◌+◌, ◌≤◌, ◌<◌, ◌≡◌, ◌≢◌, refl, ap, subst, ◌∙◌, Option, some, arith, ◌>>=◌,
}
use native.Mathlib.Decide.{dec_lt}
use tv_rq.Memory.{Mem, for_range}
use tv_rq.Memory.Sweep.{IsBytes}
use tv_rq.M256v.{M256v}
use tv_rq.M256v.Access.{at, IsView, at_injective}
use tv_rq.M256v.Rows.{Written}

-- The address is that of no element of the first `k` rows.
abbrev pub OffRows : M256v → ℕ → ℕ → Type 0
OffRows mat k x = (i c : ℕ) → i < k → c < mat.n_col → x ≢ at mat i c

-- `m` is `ms` with the first `k` rows filled with `val`.
pub record Filled (mat : M256v) (ms m : Mem) (k : ℕ) (val : ℕ → ℕ → ℕ) : Type 0 where
  pub bytes : IsBytes m
  pub rows : (i c : ℕ) → i < k → c < mat.n_col → m (at mat i c) ≡ val i c
  pub off : (x : ℕ) → OffRows mat k x → m x ≡ ms x

module _ (mat : M256v) (view : IsView mat) (ms : Mem) (val : ℕ → ℕ → ℕ)
    (body : ℕ → Mem → Option Mem) (total : ℕ)
    (row : (i : ℕ) (m : Mem)
      → i < total
      → Filled mat ms m i val
      → (m' : Mem) × (body i m ≡ some m') × Written m m' mat.n_col (at mat i) (val i)) where
  fill_step :
      (k : ℕ) (m m' : Mem)
      → Filled mat ms m k val
      → Written m m' mat.n_col (at mat k) (val k)
      → Filled mat ms m' (k + 1) val
  fill_step k m m' f w = record {
    bytes = w.bytes;
    rows = λ i c below l. elim (dec_lt i k) [
      | yes before ↦
          w.off (at mat i c)
            (λ c' l' e. absurd (omega (arith, (at_injective mat i c k c' view l l' e).0, before)))
          ∙ f.rows i c before l
      | no after ↦
          let same : k ≡ i = omega arith in subst (λ j. m' (at mat j c) ≡ val j c) same (w.here c l)
    ];
    off = λ x away.
        w.off x (λ c l. away k c (omega arith) l) ∙ f.off x (λ i c h l. away i c (omega arith) l);
  }

  fill_from :
      (n k : ℕ) (m : Mem)
      → k + n ≤ total
      → Filled mat ms m k val
      → (m' : Mem) × (for_range n k body m ≡ some m') × Filled mat ms m' (k + n) val
  unfolding for_range
  fill_from zero k m h f = (m, refl, subst (λ j. Filled mat ms m j val) (omega arith) f)
  fill_from (suc n) k m h f =
      let (m1, e, w) = row k m (omega arith) f in
      let (m', run, f') = fill_from n (k + 1) m1 (omega arith) (fill_step k m m1 f w) in
      (
        m',
        ap (λ o. o >>= for_range n (k + 1) body) e ∙ run,
        subst (λ j. Filled mat ms m' j val) (omega arith) f',
      )

  pub fill_lem :
      IsBytes ms → (m' : Mem) × (for_range total 0 body ms ≡ some m') × Filled mat ms m' total val
  fill_lem bytes =
      let start : Filled mat ms ms 0 val = record {
        bytes = bytes;
        rows = λ i c h l. absurd (omega arith);
        off = λ x away. refl;
      } in
      let (m', run, f) = fill_from total 0 ms (omega arith) start in
      (m', run, subst (λ j. Filled mat ms m' j val) (omega arith) f)
