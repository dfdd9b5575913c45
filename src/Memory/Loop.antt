-- ===== src/Memory/Loop.antt =====
-- The rule of a counted loop: what each round keeps holds at the end, and no round fails.
use tv_rq.Prelude.{
  ℕ, zero, suc, ◌+◌, ◌≤◌, ◌<◌, ◌≡◌, refl, ap, subst, fun_ext, ◌∙◌, Option, some, arith, ◌>>=◌,
}
use tv_rq.Memory.{for_range}

pub for_range_keeps {ℓ κ} :
    {S : Type ℓ} (inv : ℕ → S → Type κ) (body : ℕ → S → Option S) (n i : ℕ) (s : S)
    → ((k : ℕ) (t : S)
        → i ≤ k
        → k < i + n
        → inv k t
        → (t' : S) × (body k t ≡ some t') × inv (k + 1) t')
    → inv i s
    → (s' : S) × (for_range n i body s ≡ some s') × inv (i + n) s'
unfolding for_range
for_range_keeps inv body zero i s keep start = (s, refl, subst (λ k. inv k s) (omega arith) start)
for_range_keeps inv body (suc n) i s keep start =
    let (t, e, next) = keep i s (omega arith) (omega arith) start in
    let (s', run, last) =
      for_range_keeps inv body n (i + 1) t (λ k u l h. keep k u (omega arith) (omega arith)) next in
    (s', ap (λ o. o >>= for_range n (i + 1) body) e ∙ run, subst (λ k. inv k s') (omega arith) last)

-- The same from 0 on.
pub for_range_start {ℓ κ} :
    {S : Type ℓ} (inv : ℕ → S → Type κ) (body : ℕ → S → Option S) (n : ℕ) (s : S)
    → ((k : ℕ) (t : S) → k < n → inv k t → (t' : S) × (body k t ≡ some t') × inv (k + 1) t')
    → inv 0 s
    → (s' : S) × (for_range n 0 body s ≡ some s') × inv n s'
for_range_start inv body n s keep start =
    let (s', run, last) =
      for_range_keeps inv body n 0 s (λ k t l h. keep k t (omega arith)) start in
    (s', run, subst (λ k. inv k s') (omega arith) last)

-- Loops whose rounds do the same.
pub for_range_ext {ℓ} :
    {S : Type ℓ} (n i : ℕ) (f g : ℕ → S → Option S)
    → ((j : ℕ) → i ≤ j → j < i + n → (s : S) → f j s ≡ g j s)
    → (s : S) → for_range n i f s ≡ for_range n i g s
unfolding for_range
for_range_ext zero i f g h s = refl
for_range_ext (suc n) i f g h s =
    ap (λ o. o >>= λ s'. for_range n (i + 1) f s') (h i (omega arith) (omega arith) s)
    ∙ ap (λ k. g i s >>= k)
        (fun_ext (λ s'. for_range_ext n (i + 1) f g (λ j l u. h j (omega arith) (omega arith)) s'))
