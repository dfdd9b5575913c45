-- ===== src/M256v/Swap.antt =====
-- A loop whose k-th round exchanges the bytes of two cells.
use tv_rq.Prelude.{ℕ, zero, suc, ◌+◌, ◌<◌, ◌≡◌, ◌≢◌, refl, sym, ◌∙◌, some, arith}
use native.Mathlib.Decide.{dec_lt}
use native.Mathlib.Numerals.{add-one}
use tv_rq.Memory.{Mem, for_range}
use tv_rq.Memory.Sweep.{IsBytes, write_same, write_other, write-IsBytes}
use tv_rq.M256v.{swap_bytes}

module _ (a b : ℕ → ℕ) (n : ℕ) (m : Mem) where
  -- The cells of the first `i` rounds have changed places, and no other cell has changed.
  pub record Swapped (i : ℕ) (m' : Mem) : Type 0 where
    pub bytes : IsBytes m'
    pub left : (k : ℕ) → k < i → m' (a k) ≡ m (b k)
    pub right : (k : ℕ) → k < i → m' (b k) ≡ m (a k)
    pub off : (x : ℕ) → ((k : ℕ) → k < i → (x ≢ a k) × (x ≢ b k)) → m' x ≡ m x

  pub record Apart : Type 0 where
    pub lefts : (j k : ℕ) → j < k → k < n → a j ≢ a k
    pub rights : (j k : ℕ) → j < k → k < n → b j ≢ b k
    pub between : (j k : ℕ) → j < n → k < n → a j ≢ b k

  swap_step :
      (i : ℕ) (s : Mem) → Apart → i < n → Swapped i s → Swapped (suc i) (swap_bytes (a i) (b i) s)
  unfolding swap_bytes
  swap_step i s apart h w = record {
    bytes =
        write-IsBytes _ (b i) (s (a i)) (w.bytes (a i))
          (write-IsBytes s (a i) (s (b i)) (w.bytes (b i)) w.bytes);
    left = λ k l. elim (dec_lt k i) [
      | yes p ↦
          write_other _ (b i) _ (a k) (apart.between k i (omega arith) h)
          ∙ write_other s (a i) _ (a k) (apart.lefts k i p h)
          ∙ w.left k p
      | no p ↦
          let same : k ≡ i = omega arith in
          rw same (
            write_other _ (b i) _ (a i) (apart.between i i h h)
            ∙ write_same s (a i) _
            ∙ w.off (b i) (λ j q.
              (λ e. apart.between j i (omega arith) h (sym e), λ e. apart.rights j i q h (sym e))))
    ];
    right = λ k l. elim (dec_lt k i) [
      | yes p ↦
          write_other _ (b i) _ (b k) (apart.rights k i p h)
          ∙ write_other s (a i) _ (b k) (λ e. apart.between i k h (omega arith) (sym e))
          ∙ w.right k p
      | no p ↦
          let same : k ≡ i = omega arith in
          rw same (
            write_same _ (b i) _
            ∙ w.off (a i)
                (λ j q. (λ e. apart.lefts j i q h (sym e), apart.between i j h (omega arith))))
    ];
    off = λ x away.
        write_other _ (b i) _ x (away i (omega arith)).1
        ∙ write_other s (a i) _ x (away i (omega arith)).0
        ∙ w.off x (λ k l. away k (omega arith));
  }

  swap_from :
      (r i : ℕ) (s : Mem)
      → Apart
      → i + r ≡ n
      → Swapped i s
      → (m' : Mem) × (for_range r i (λ k m. some (swap_bytes (a k) (b k) m)) s ≡ some m')
        × Swapped n m'
  unfolding for_range
  swap_from zero i s apart e w = let same : i ≡ n = omega arith in (s, refl, rw same at w)
  swap_from (suc r) i s apart e w = rw (add-one i) (
      swap_from r (suc i) (swap_bytes (a i) (b i) s) apart (omega arith)
        (swap_step i s apart (omega arith) w))

  -- The loop of the two swaps exchanges the cells of all its rounds.
  pub swap_lem :
      IsBytes m
      → Apart
      → (m' : Mem) × (for_range n 0 (λ k m. some (swap_bytes (a k) (b k) m)) m ≡ some m')
        × Swapped n m'
  swap_lem bytes apart = swap_from n 0 m apart (omega arith) (record {
    bytes = bytes;
    left = λ k l. absurd (omega arith);
    right = λ k l. absurd (omega arith);
    off = λ x away. refl;
  })
