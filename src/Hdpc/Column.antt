-- ===== src/Hdpc/Column.antt =====
-- What one round of each loop of `hdpc_generate_mat_faster` of tvrq/hdpc.c leaves in its column.
use tv_rq.Prelude.{
  ℕ, suc, ◌+◌, ◌-◌, ◌<◌, ◌≡◌, ◌≢◌, refl, ap, sym, subst, ◌∙◌, Bool, true, false, ◌||◌, some, arith,
  ◌==◌, ==_self, bit_xor,
}
use native.Mathlib.Decide.{ℕ_discrete}
use tv_rq.Prelude.Bits.{zero-xor, xor-lt}
use tv_rq.Memory.{Mem, write, for_range}
use tv_rq.Memory.Sweep.{IsBytes, write_same, write_other, write-IsBytes}
use tv_rq.Memory.Loop.{for_range_start}
use tv_rq.Gf256.Poly.{◌⊗◌, ⊗-lt}
use tv_rq.Gf256.Field.{gf256_mul-eq-⊗}
use tv_rq.Parameters.{Parameters}
use tv_rq.Parameters.Valid.{IsValid}
use tv_rq.M256v.{M256v}
use tv_rq.M256v.Access.{at, IsView, get_el_lem, set_el_lem, at_injective}
use tv_rq.M256v.Rows.{Written, for_range-Written}
use tv_rq.Ldpc.Ones.{bit}
use tv_rq.Hdpc.{last_round, copy_round, flip, flip_a, flip_b, column_round}
use tv_rq.Hdpc.Entries.{alpha_pow, alpha_pow-lt, first_one, second_one, ones_lem, second_one_lem}

differs : (i a : ℕ) → i ≢ a → (i == a) ≡ false
differs i a h = ground arith

or_false : (b : Bool) → (b || false) ≡ b
or_false true = refl
or_false false = refl

module _ (g : M256v) (p : Parameters) (view : IsView g) (rows : g.n_row ≡ p.h) (j : ℕ)
    (col : j < g.n_col) where
  column_apart : (i k : ℕ) → at g i j ≡ at g k j → i ≡ k
  column_apart i k e = (at_injective g i j k j view col col e).0

  flip_step :
      (a : ℕ) (m : Mem)
      → a < p.h
      → flip g a j m ≡ some (write m (at g a j) (bit_xor 1 (m (at g a j))))
  unfolding flip
  flip_step a m h =
      rw (get_el_lem g a j m (omega (arith, rows)) (omega arith))
        (set_el_lem g a j _ m (omega (arith, rows)) (omega arith))

  -- Adding a one in a row that has none added yet.
  flip_lem :
      (a : ℕ) (add : ℕ → Bool) (val : ℕ → ℕ) (m m1 : Mem)
      → a < p.h
      → add a ≡ false
      → Written m m1 p.h (λ i. at g i j) (λ i. bit_xor (bit (add i)) (val i))
      → (m2 : Mem) × (flip g a j m1 ≡ some m2)
        × Written m m2 p.h (λ i. at g i j) (λ i. bit_xor (bit ((i == a) || add i)) (val i))
  flip_lem a add val m m1 h fresh w = (
    write m1 (at g a j) (bit_xor 1 (m1 (at g a j))),
    flip_step a m1 h,
    record {
      bytes =
          write-IsBytes m1 (at g a j) _ (xor-lt 8 1 _ (omega arith) (w.bytes (at g a j))) w.bytes;
      here = λ i l. elim (ℕ_discrete i a) [
        | yes e ↦
            subst
              (λ i.
                write m1 (at g a j) (bit_xor 1 (m1 (at g a j))) (at g i j)
                ≡ bit_xor (bit ((i == a) || add i)) (val i))
              (sym e) here_a
        | no ne ↦
            write_other m1 (at g a j) _ (at g i j) (λ e. ne (column_apart i a e))
            ∙ w.here i l
            ∙ ap (λ b. bit_xor (bit (b || add i)) (val i)) (sym (differs i a ne))
      ];
      off = λ x away. write_other m1 (at g a j) _ x (away a h) ∙ w.off x away;
    },
  )
    where
      here_a :
          write m1 (at g a j) (bit_xor 1 (m1 (at g a j))) (at g a j)
          ≡ bit_xor (bit ((a == a) || add a)) (val a)
      here_a =
          write_same m1 (at g a j) _
          ∙ ap (bit_xor 1) (w.here a h ∙ ap (λ b. bit_xor (bit b) (val a)) fresh ∙ zero-xor (val a))
          ∙ ap (λ b. bit_xor (bit (b || add a)) (val a)) (sym (==_self a))

  copy_step :
      (i : ℕ) (m : Mem)
      → i < p.h
      → j + 1 < g.n_col
      → IsBytes m
      → copy_round g j i m ≡ some (write m (at g i j) (2 ⊗ m (at g i (j + 1))))
  unfolding copy_round
  copy_step i m h l bytes =
      rw
        (
          get_el_lem g i (j + 1) m (omega (arith, rows)) (omega arith),
          gf256_mul-eq-⊗ 2 (m (at g i (j + 1))) (omega arith) (bytes _),
        )
        (set_el_lem g i j _ m (omega (arith, rows)) (omega arith))

  steps :
      (m m1 m2 m3 : Mem)
      → IsValid p
      → for_range p.h 0 (copy_round g j) m ≡ some m1
      → flip g (first_one p j) j m1 ≡ some m2
      → flip g (second_one p j) j m2 ≡ some m3
      → column_round g p j m ≡ some m3
  unfolding column_round flip_a flip_b first_one
  steps m m1 m2 m3 valid e1 e2 e3 = rw (e1, second_one_lem p j valid) (rw e2 e3)

  -- One round of the loop over the columns before the last.
  pub column_round_lem :
      (m : Mem)
      → IsValid p
      → j + 1 < g.n_col
      → IsBytes m
      → (m' : Mem) × (column_round g p j m ≡ some m')
        × Written m m' p.h
            (λ i. at g i j)
            (λ i.
              bit_xor
                (bit ((i == second_one p j) || (i == first_one p j)))
                (2 ⊗ m (at g i (j + 1))))
  unfolding column_round
  column_round_lem m valid next bytes =
      let (ha, hb, ne) = ones_lem p j valid in
      let (m1, e1, w1) =
        for_range-Written (λ i. at g i j) (λ i m. 2 ⊗ m (at g i (j + 1))) (copy_round g j) p.h m
          bytes (λ i k a b e. omega (arith, column_apart i k e))
          (λ k m' h away.
            ap (λ v. 2 ⊗ v)
              (away (at g k (j + 1))
                (λ i l e. omega (arith, (at_injective g k (j + 1) i j view next col e).1))))
          (λ k m h b. (copy_step k m h next b, ⊗-lt 2 _ (b _))) in
      let start : Written m m1 p.h (λ i. at g i j)
          (λ i. bit_xor (bit false) (2 ⊗ m (at g i (j + 1)))) =
        record { bytes = w1.bytes; here = λ i h. w1.here i h ∙ sym (zero-xor _); off = w1.off } in
      let (m2, e2, w2) =
        flip_lem (first_one p j) (λ i. false) (λ i. 2 ⊗ m (at g i (j + 1))) m m1 ha refl start in
      let (m3, e3, w3) =
        flip_lem (second_one p j) (λ i. (i == first_one p j) || false) (λ i. 2 ⊗ m (at g i (j + 1)))
          m m2 hb (or_false _ ∙ differs (second_one p j) (first_one p j) ne) w2 in
      (
        m3,
        steps m m1 m2 m3 valid e1 e2 e3,
        record {
          bytes = w3.bytes;
          here = λ i h.
              w3.here i h
              ∙ ap (λ b. bit_xor (bit ((i == second_one p j) || b)) (2 ⊗ m (at g i (j + 1))))
                  (or_false (i == first_one p j));
          off = w3.off;
        },
      )

-- The powers of alpha in the first `k` rows of the last column.
record Last (g : M256v) (p : Parameters) (m : Mem) (k : ℕ) (s : ℕ × Mem) : Type 0 where
  pub val : s.0 ≡ alpha_pow k
  pub written : Written m s.1 k (λ i. at g i (p.kprime + p.s - 1)) alpha_pow

module _ (g : M256v) (p : Parameters) (view : IsView g) (rows : g.n_row ≡ p.h)
    (col : p.kprime + p.s - 1 < g.n_col) where
  last_round_lem :
      (m : Mem) (k : ℕ) (s : ℕ × Mem)
      → k < p.h
      → Last g p m k s
      → (s' : ℕ × Mem) × (last_round g p k s ≡ some s') × Last g p m (k + 1) s'
  unfolding last_round alpha_pow
  last_round_lem m k s h f =
      let c = p.kprime + p.s - 1 in
      let small : s.0 < 256 = subst (λ v. v < 256) (sym f.val) (alpha_pow-lt k) in
      (
        (s.0 ⊗ 2, write s.1 (at g k c) s.0),
        rw
            (
              set_el_lem g k c s.0 s.1 (omega (arith, rows)) (omega (arith, col)),
              gf256_mul-eq-⊗ s.0 2 small (omega arith),
            )
            refl,
        record {
          val = ap (λ v. v ⊗ 2) f.val ∙ ap alpha_pow (next k);
          written = record {
            bytes = write-IsBytes s.1 (at g k c) s.0 small f.written.bytes;
            here = λ i l. elim (ℕ_discrete i k) [
              | yes e ↦ rw e (write_same s.1 (at g k c) s.0 ∙ f.val)
              | no ne ↦
                  write_other s.1 (at g k c) s.0 (at g i c)
                    (λ e. ne (at_injective g i c k c view col col e).0)
                  ∙ f.written.here i (omega arith)
            ];
            off = λ x away.
                write_other s.1 (at g k c) s.0 x (away k (omega arith))
                ∙ f.written.off x (λ i l. away i (omega arith));
          };
        },
      )
    where
      next : (k : ℕ) → suc k ≡ k + 1
      next k = omega arith

  -- The loop over the last column.
  pub last_column_lem :
      (m : Mem)
      → IsBytes m
      → (s : ℕ × Mem) × (for_range p.h 0 (last_round g p) (1, m) ≡ some s)
        × Written m s.1 p.h (λ i. at g i (p.kprime + p.s - 1)) alpha_pow
  unfolding alpha_pow
  last_column_lem m bytes =
      let start : Last g p m 0 (1, m) = record {
        val = refl;
        written = record {
          bytes = bytes;
          here = λ i h. absurd (omega arith);
          off = λ x away. refl;
        };
      } in
      let (s, e, f) =
        for_range_start (Last g p m) (last_round g p) p.h (1, m) (last_round_lem m) start in
      (s, e, f.written)
