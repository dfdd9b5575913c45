-- ===== src/Ldpc/Ones.antt =====
-- Matrices of zeros and ones, to which loops add ones.
use tv_rq.Prelude.{
  ℕ, zero, suc, ◌+◌, ◌<◌, ◌≡◌, refl, ap, sym, ◌∙◌, Bool, true, false, ◌&&◌, ◌||◌, Option, some,
  arith, ◌==◌, ==_self, if◌then◌else◌, ◌>>=◌,
}
use native.Mathlib.Decide.{ℕ_discrete}
use tv_rq.Memory.{Mem, write, for_range}
use tv_rq.Memory.Sweep.{write_same, write_other, write-IsBytes}
use tv_rq.M256v.{M256v, set_el}
use tv_rq.M256v.Access.{at, IsView, set_el_lem, at_injective}
use tv_rq.M256v.Fill.{Filled}

-- 1 or 0.
abbrev pub bit : Bool → ℕ
bit b = if b then 1 else 0

-- The cell is the one in row `r` and column `c`.
abbrev pub cell : ℕ → ℕ → ℕ → ℕ → Bool
cell r c r' c' = (r' == r) && (c' == c)

-- `m` is `ms` with every element of the matrix 1 where the test holds, and 0 elsewhere.
abbrev pub IsOnes : M256v → Mem → Mem → (ℕ → ℕ → Bool) → Type 0
IsOnes mat ms m one = Filled mat ms m mat.n_row (λ r c. bit (one r c))

-- Some of the `n` rounds from `k` on passes the test.
unfoldable pub some_round : ℕ → ℕ → (ℕ → Bool) → Bool
some_round zero k f = false
some_round (suc n) k f = some_round n (k + 1) f || f k

cell_self : (r c : ℕ) → cell r c r c ≡ true
cell_self r c = rw (==_self r, ==_self c) refl

pub or_assoc : (a b c : Bool) → (a || b) || c ≡ a || (b || c)
or_assoc true b c = refl
or_assoc false b c = refl

module _ (mat : M256v) (view : IsView mat) (ms : Mem) where
  pub set_one_lem :
      (one : ℕ → ℕ → Bool) (r c : ℕ) (m : Mem)
      → r < mat.n_row
      → c < mat.n_col
      → IsOnes mat ms m one
      → (m' : Mem) × (set_el mat r c 1 m ≡ some m')
        × IsOnes mat ms m' (λ r' c'. cell r c r' c' || one r' c')
  set_one_lem one r c m h l f = (
    write m (at mat r c) 1,
    set_el_lem mat r c 1 m h (omega arith),
    record {
      bytes = write-IsBytes m (at mat r c) 1 (omega arith) f.bytes;
      rows = λ r' c' h' l'. elim (ℕ_discrete r' r) [
        | yes p ↦ elim (ℕ_discrete c' c) [
          | yes q ↦ rw (p, q, cell_self r c) (write_same m (at mat r c) 1)
          | no q ↦
              other r' c' h' l' (λ e. q (at_injective mat r' c' r c view l' l e).1) (ground arith)
        ]
        | no p ↦
            other r' c' h' l' (λ e. p (at_injective mat r' c' r c view l' l e).0) (ground arith)
      ];
      off = λ x away. write_other m (at mat r c) 1 x (away r c h l) ∙ f.off x away;
    },
  )
    where
      other :
          (r' c' : ℕ)
          → r' < mat.n_row
          → c' < mat.n_col
          → ¬ (at mat r' c' ≡ at mat r c)
          → cell r c r' c' ≡ false
          → write m (at mat r c) 1 (at mat r' c') ≡ bit (cell r c r' c' || one r' c')
      other r' c' h' l' off e =
          write_other m (at mat r c) 1 (at mat r' c') off
          ∙ f.rows r' c' h' l'
          ∙ sym (ap (λ b. bit (b || one r' c')) e)

  pub IsOnes-ext :
      (m : Mem) (one one' : ℕ → ℕ → Bool)
      → ((r c : ℕ) → one r c ≡ one' r c)
      → IsOnes mat ms m one
      → IsOnes mat ms m one'
  IsOnes-ext m one one' e f = record {
    bytes = f.bytes;
    rows = λ r c h l. f.rows r c h l ∙ ap bit (e r c);
    off = f.off;
  }

  -- A loop each of whose rounds adds the ones that a test names.
  pub IsOnes-for_range :
      (body : ℕ → Mem → Option Mem) (add : ℕ → ℕ → ℕ → Bool) (one : ℕ → ℕ → Bool) (n k : ℕ)
      (m : Mem)
      → ((one : ℕ → ℕ → Bool) (i : ℕ) (m : Mem)
          → i < k + n
          → IsOnes mat ms m one
          → (m' : Mem) × (body i m ≡ some m') × IsOnes mat ms m' (λ r c. add i r c || one r c))
      → IsOnes mat ms m one
      → (m' : Mem) × (for_range n k body m ≡ some m')
        × IsOnes mat ms m' (λ r c. some_round n k (λ i. add i r c) || one r c)
  unfolding for_range some_round
  IsOnes-for_range body add one zero k m step f = (m, refl, f)
  IsOnes-for_range body add one (suc n) k m step f =
      let (m1, e, f1) = step one k m (omega arith) f in
      let (m', run, f') =
        IsOnes-for_range body add (λ r c. add k r c || one r c) n (k + 1) m1
          (λ one i m h g. step one i m (omega arith) g) f1 in
      (
        m',
        ap (λ o. o >>= for_range n (k + 1) body) e ∙ run,
        IsOnes-ext m' _ _
            (λ r c. sym (or_assoc (some_round n (k + 1) (λ i. add i r c)) (add k r c) (one r c)))
            f',
      )
