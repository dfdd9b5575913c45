-- ===== src/Memory/Sweep.antt =====
-- A loop whose k-th round writes one cell, different from those of the other rounds, a value that
-- does not depend on the cells of the rounds before.
use tv_rq.Prelude.{
  fun_ext, ℕ, zero, suc, ◌+◌, ◌<◌, ◌≡◌, ◌≢◌, refl, ap, ◌∙◌, Option, some, arith, ==_self,
}
use native.Mathlib.Decide.{dec_lt}
use native.Mathlib.Numerals.{add-one}
use tv_rq.Memory.{Mem, write, for_range}

pub write_same : (m : Mem) (a v : ℕ) → write m a v a ≡ v
unfolding write
write_same m a v = rw (==_self a)

pub write_other : (m : Mem) (a v x : ℕ) → x ≢ a → write m a v x ≡ m x
unfolding write
write_other m a v x h = ground arith

pub write_id : (m : Mem) (a : ℕ) → write m a (m a) ≡ m
unfolding write
write_id m a = fun_ext λ x. ground arith

-- Every cell is a byte.
abbrev pub IsBytes : Mem → Type 0
IsBytes m = (a : ℕ) → m a < 256

pub write-IsBytes : (m : Mem) (a v : ℕ) → v < 256 → IsBytes m → IsBytes (write m a v)
unfolding write
write-IsBytes m a v h bytes x = ground (arith, bytes x)

module _ (addr : ℕ → ℕ) (val : ℕ → Mem → ℕ) where
  -- The memory after `n` rounds.
  unfoldable pub sweep : ℕ → Mem → Mem
  sweep zero m = m
  sweep (suc n) m = write (sweep n m) (addr n) (val n (sweep n m))

  -- The cells off the rounds' addresses stay.
  pub sweep_other : (n : ℕ) (m : Mem) (x : ℕ) → ((k : ℕ) → k < n → x ≢ addr k) → sweep n m x ≡ m x
  unfolding sweep
  sweep_other zero m x off = refl
  sweep_other (suc n) m x off =
      write_other (sweep n m) (addr n) (val n (sweep n m)) x (off n (omega arith))
      ∙ sweep_other n m x (λ k h. off k (omega arith))

  pub sweep-IsBytes :
      (n : ℕ) (m : Mem)
      → ((k : ℕ) (m : Mem) → k < n → IsBytes m → val k m < 256)
      → IsBytes m
      → IsBytes (sweep n m)
  unfolding sweep
  sweep-IsBytes zero m small bytes = bytes
  sweep-IsBytes (suc n) m small bytes =
      let before = sweep-IsBytes n m (λ k m h. small k m (omega arith)) bytes in
      write-IsBytes (sweep n m) (addr n) _ (small n (sweep n m) (omega arith) before) before

  -- Every round's cell holds the round's value in the memory at the start.
  pub sweep_at :
      (n : ℕ) (m : Mem)
      → ((j k : ℕ) → j < k → k < n → addr j ≢ addr k)
      → ((k : ℕ) (m' : Mem)
          → k < n
          → ((x : ℕ) → ((j : ℕ) → j < k → x ≢ addr j) → m' x ≡ m x)
          → val k m' ≡ val k m)
      → (k : ℕ) → k < n
      → sweep n m (addr k) ≡ val k m
  unfolding sweep
  sweep_at zero m apart local k h = absurd (omega arith)
  sweep_at (suc n) m apart local k h = elim (dec_lt k n) [
    | yes p ↦
        write_other (sweep n m) (addr n) (val n (sweep n m)) (addr k) (apart k n p (omega arith))
        ∙ sweep_at n m (λ i j a b. apart i j a (omega arith)) (λ j m' a. local j m' (omega arith)) k
            p
    | no p ↦
        let same : k ≡ n = omega arith in
        rw same (
          write_same (sweep n m) (addr n) (val n (sweep n m))
          ∙ local n (sweep n m) (omega arith) (λ x off. sweep_other n m x off))
  ]

  for_range-sweep_from :
      (body : ℕ → Mem → Option Mem) (n i end : ℕ) (m : Mem)
      → i + n ≡ end
      → IsBytes m
      → ((k : ℕ) (m : Mem)
          → k < end
          → IsBytes m
          → (body k m ≡ some (write m (addr k) (val k m))) × (val k m < 256))
      → IsBytes (sweep i m)
      → for_range n i body (sweep i m) ≡ some (sweep end m)
  unfolding for_range sweep
  for_range-sweep_from body zero i end m e bytes step now = ap (λ k. some (sweep k m)) (omega arith)
  for_range-sweep_from body (suc n) i end m e bytes step now =
      let (one, small) = step i (sweep i m) (omega arith) now in
      rw (one, add-one i)
        (for_range-sweep_from body n (suc i) end m (omega arith) bytes step
          (write-IsBytes (sweep i m) (addr i) (val i (sweep i m)) small now))

  -- A loop with such rounds does not fail, and leaves this memory.
  pub for_range-sweep :
      (body : ℕ → Mem → Option Mem) (n : ℕ) (m : Mem)
      → IsBytes m
      → ((k : ℕ) (m : Mem)
          → k < n
          → IsBytes m
          → (body k m ≡ some (write m (addr k) (val k m))) × (val k m < 256))
      → for_range n 0 body m ≡ some (sweep n m)
  unfolding sweep
  for_range-sweep body n m bytes step =
      for_range-sweep_from body n 0 n m (omega arith) bytes step bytes
