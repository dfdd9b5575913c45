-- ===== src/Hdpc/Mt.antt =====
-- The factor MT that `hdpc_generate_mat_specexact` of tvrq/hdpc.c writes.
use tv_rq.Prelude.{
  ℕ, zero, suc, ◌+◌, ◌-◌, ◌<◌, ◌≤◌, ◌≡◌, ◌≢◌, refl, ap, ap₂, sym, ◌∙◌, Bool, true, false, ◌||◌,
  some, arith, ◌==◌, ==_iff, if◌then◌else◌,
}
use native.Mathlib.Decide.{ℕ_discrete}
use tv_rq.Memory.{Mem, for_range}
use tv_rq.Memory.Sweep.{IsBytes}
use tv_rq.Parameters.{Parameters}
use tv_rq.Parameters.Valid.{IsValid}
use tv_rq.M256v.{M256v, set_el}
use tv_rq.M256v.Access.{at, IsView, at_injective}
use tv_rq.M256v.Fill.{Filled}
use tv_rq.M256v.Whole.{clear}
use tv_rq.M256v.Whole.Entries.{clear_lem}
use tv_rq.Ldpc.Ones.{bit, cell, some_round, set_one_lem, IsOnes-for_range, IsOnes-ext, or_assoc}
use tv_rq.Hdpc.{mt_a, mt_b, mt_round, last_round}
use tv_rq.Hdpc.Entries.{alpha_pow, mt_entry, ones_lem, first_one, second_one, second_one_lem}
use tv_rq.Hdpc.Column.{last_column_lem}

-- The ones of the loop over the columns of MT.
marks_before :
    (p : Parameters) (n k r c : ℕ)
    → c < k
    → some_round n k (λ j. cell (second_one p j) j r c || cell (first_one p j) j r c) ≡ false
unfolding some_round
marks_before p zero k r c h = refl
marks_before p (suc n) k r c h =
    ap₂ (λ a b. a || b) (marks_before p n (k + 1) r c (omega arith))
      (off (second_one p k) (first_one p k))
  where
    off : (b a : ℕ) → (cell b k r c || cell a k r c) ≡ false
    off b a = ground arith

marks_lem :
    (p : Parameters) (n k r c : ℕ)
    → k ≤ c
    → c < k + n
    → some_round n k (λ j. cell (second_one p j) j r c || cell (first_one p j) j r c)
      ≡ ((r == second_one p c) || (r == first_one p c))
unfolding some_round
marks_lem p zero k r c l h = absurd (omega arith)
marks_lem p (suc n) k r c l h = elim (ℕ_discrete k c) [
  | yes e ↦
      ap₂ (λ a b. a || b) (marks_before p n (k + 1) r c (omega arith))
        (ap (λ k. cell (second_one p k) k r c || cell (first_one p k) k r c) e
          ∙ on (second_one p c) (first_one p c))
  | no ne ↦
      ap₂ (λ a b. a || b) (marks_lem p n (k + 1) r c (omega arith) (omega arith))
        (off (second_one p k) (first_one p k) ne)
      ∙ or_right ((r == second_one p c) || (r == first_one p c))
]
  where
    on : (b a : ℕ) → (cell b c r c || cell a c r c) ≡ ((r == b) || (r == a))
    on b a = ground arith

    off : (b a : ℕ) → k ≢ c → (cell b k r c || cell a k r c) ≡ false
    off b a ne = ground arith

    or_right : (b : Bool) → (b || false) ≡ b
    or_right true = refl
    or_right false = refl

mt_step :
    (mt : M256v) (p : Parameters) (j : ℕ) (m m1 m2 : Mem)
    → IsValid p
    → set_el mt (first_one p j) j 1 m ≡ some m1
    → set_el mt (second_one p j) j 1 m1 ≡ some m2
    → mt_round mt p j m ≡ some m2
unfolding mt_round mt_a mt_b first_one
mt_step mt p j m m1 m2 valid e1 e2 = rw (e1, second_one_lem p j valid) e2

-- MT, from its two loops.
pub mt_lem :
    (mt : M256v) (p : Parameters) (m : Mem)
    → IsView mt
    → IsValid p
    → mt.n_row ≡ p.h
    → mt.n_col ≡ p.kprime + p.s
    → IsBytes m
    → (m0 : Mem) × (clear mt m ≡ some m0)
      × (m1 : Mem) × (for_range (p.kprime + p.s - 1) 0 (mt_round mt p) m0 ≡ some m1)
      × (s : ℕ × Mem) × (for_range p.h 0 (last_round mt p) (1, m1) ≡ some s)
      × Filled mt m s.1 mt.n_row (mt_entry p)
unfolding mt_entry
mt_lem mt p m view valid rows cols bytes =
    let d = p.kprime + p.s in
    let (m0, e0, f0) = clear_lem mt m view bytes in
    let (m1, e1, f1) =
      IsOnes-for_range mt view m (mt_round mt p)
        (λ j r c. cell (second_one p j) j r c || cell (first_one p j) j r c) (λ r c. false) (d - 1)
        0 m0
        (λ one j m h f.
          let (ha, hb, ne) = ones_lem p j valid in
          let (m1, e1, f1) =
            set_one_lem mt view _ one (first_one p j) j m (omega (arith, rows))
              (omega (arith, cols)) f in
          let (m2, e2, f2) =
            set_one_lem mt view _ _ (second_one p j) j m1 (omega (arith, rows))
              (omega (arith, cols)) f1 in
          (
            m2,
            mt_step mt p j m m1 m2 valid e1 e2,
            IsOnes-ext mt view _ m2 _ _
                (λ r c.
                  sym
                    (or_assoc (cell (second_one p j) j r c) (cell (first_one p j) j r c) (one r c)))
                f2,
          ))
        f0 in
    let (s, e2, w) =
      last_column_lem mt p view rows (omega (arith, cols, valid.s_min)) m1 f1.bytes in
    (
      m0,
      e0,
      m1,
      e1,
      s,
      e2,
      record {
        bytes = w.bytes;
        rows = λ r c hr hc. elim (ℕ_discrete (c + 1) d) [
          | yes e ↦
              ap (λ c. s.1 (at mt r c)) (last c d e)
              ∙ w.here r (omega (arith, rows))
              ∙ sym (
                  ap
                    (λ b.
                      if b
                      then alpha_pow r
                      else bit ((r == second_one p c) || (r == first_one p c)))
                    ((==_iff (c + 1) d).1 e))
          | no ne ↦
              w.off (at mt r c) (λ i l e. ne (
                omega (
                  arith,
                  valid.s_min,
                  (at_injective mt r c i (d - 1) view hc (omega (arith, cols, valid.s_min)) e).1,
                )))
              ∙ f1.rows r c hr hc
              ∙ ap (λ b. bit (b || false))
                  (marks_lem p (d - 1) 0 r c (omega arith) (omega (arith, cols)))
              ∙ drop ((r == second_one p c) || (r == first_one p c))
              ∙ sym (
                  ap
                    (λ b.
                      if b
                      then alpha_pow r
                      else bit ((r == second_one p c) || (r == first_one p c)))
                    (differs (c + 1) d ne))
        ];
        off = λ x away.
            w.off x (λ i l. away i (d - 1) (omega (arith, rows)) (omega (arith, cols, valid.s_min)))
            ∙ f1.off x away;
      },
    )
  where
    last : (c d : ℕ) → c + 1 ≡ d → c ≡ d - 1
    last c d e = omega arith

    drop : (b : Bool) → bit (b || false) ≡ bit b
    drop true = refl
    drop false = refl

    differs : (x y : ℕ) → x ≢ y → (x == y) ≡ false
    differs x y h = ground arith
