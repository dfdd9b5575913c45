-- ===== src/Ldpc/Rows.antt =====
-- The matrix that `ldpc_generate_mat` of tvrq/ldpc.c writes.
use tv_rq.Prelude.{
  ℕ, ◌+◌, ◌/◌, ◌%◌, ◌<◌, ◌≡◌, sym, subst, ◌∙◌, Bool, false, ◌||◌, some, arith, ==_iff,
}
use native.Mathlib.Nat.{mod-lt}
use tv_rq.Memory.{Mem, for_range}
use tv_rq.Memory.Sweep.{IsBytes}
use tv_rq.Parameters.{Parameters}
use tv_rq.Parameters.Valid.{IsValid}
use tv_rq.M256v.{M256v}
use tv_rq.M256v.Access.{IsView}
use tv_rq.M256v.Whole.{clear}
use tv_rq.M256v.Whole.Entries.{clear_lem}
use tv_rq.Ldpc.{left_round, diagonal_round, right_round, ldpc_generate_mat}
use tv_rq.Ldpc.Ones.{cell, IsOnes, some_round, set_one_lem, IsOnes-ext, IsOnes-for_range, or_assoc}

-- Where column `i` of the left part has its three ones.
unfoldable pub left_ones : Parameters → ℕ → ℕ → ℕ → Bool
left_ones p i r c =
    let a = 1 + i / p.s in
    let b1 = (i % p.s + a) % p.s in
    (cell ((b1 + a) % p.s) i r c || cell b1 i r c) || cell (i % p.s) i r c

-- Where row `i` of the right part has its two ones.
unfoldable pub right_ones : Parameters → ℕ → ℕ → ℕ → Bool
right_ones p i r c = cell i (p.w + (i + 1) % p.p) r c || cell i (p.w + i % p.p) r c

-- Where the matrix has a one.
unfoldable pub ldpc_one : Parameters → ℕ → ℕ → Bool
ldpc_one p r c =
    some_round p.s 0 (λ i. right_ones p i r c)
    || (some_round p.s 0 (λ i. cell i (i + p.b) r c)
        || (some_round p.b 0 (λ i. left_ones p i r c) || false))

three : (a b c d : Bool) → (a || (b || (c || d))) ≡ ((a || b) || c) || d
three a b c d = sym (or_assoc (a || b) c d ∙ or_assoc a b (c || d))

module _ (l : M256v) (p : Parameters) (ms : Mem) (view : IsView l) (valid : IsValid p)
    (rows : l.n_row ≡ p.s) (cols : l.n_col ≡ p.l) where
  left_lem :
      (one : ℕ → ℕ → Bool) (i : ℕ) (m : Mem)
      → i < p.b
      → IsOnes l ms m one
      → (m' : Mem) × (left_round l p i m ≡ some m')
        × IsOnes l ms m' (λ r c. left_ones p i r c || one r c)
  unfolding left_round left_ones
  left_lem one i m h f =
      let a = 1 + i / p.s in
      let col : i < l.n_col = omega (arith, cols, valid.split, valid.lt_part, h) in
      let row : (x : ℕ) → x % p.s < l.n_row =
        λ x. subst (λ n. x % p.s < n) (sym rows) (mod-lt x (omega (arith, valid.s_min))) in
      let (m1, e1, f1) = set_one_lem l view ms one (i % p.s) i m (row i) col f in
      let (m2, e2, f2) = set_one_lem l view ms _ ((i % p.s + a) % p.s) i m1 (row _) col f1 in
      let (m3, e3, f3) =
        set_one_lem l view ms _ (((i % p.s + a) % p.s + a) % p.s) i m2 (row _) col f2 in
      (
        m3,
        rw e1 (rw e2 e3),
        IsOnes-ext l view ms m3 _ _
            (λ r c.
              three (cell (((i % p.s + a) % p.s + a) % p.s) i r c)
                (cell ((i % p.s + a) % p.s) i r c) (cell (i % p.s) i r c) (one r c))
            f3,
      )

  diagonal_lem :
      (one : ℕ → ℕ → Bool) (i : ℕ) (m : Mem)
      → i < p.s
      → IsOnes l ms m one
      → (m' : Mem) × (diagonal_round l p i m ≡ some m')
        × IsOnes l ms m' (λ r c. cell i (i + p.b) r c || one r c)
  unfolding diagonal_round
  diagonal_lem one i m h f =
      set_one_lem l view ms one i (i + p.b) m (omega (arith, rows))
        (omega (arith, cols, valid.split, valid.lt_part)) f

  right_lem :
      (one : ℕ → ℕ → Bool) (i : ℕ) (m : Mem)
      → i < p.s
      → IsOnes l ms m one
      → (m' : Mem) × (right_round l p i m ≡ some m')
        × IsOnes l ms m' (λ r c. right_ones p i r c || one r c)
  unfolding right_round right_ones
  right_lem one i m h f =
      let col : (x : ℕ) → p.w + x % p.p < l.n_col = λ x.
        subst (λ n. p.w + x % p.p < n) (sym (cols ∙ valid.split))
          (omega (arith, mod-lt x {m = p.p} (omega (arith, valid.pi_part, valid.h_min)))) in
      let (m1, e1, f1) =
        set_one_lem l view ms one i (p.w + i % p.p) m (omega (arith, rows)) (col i) f in
      let (m2, e2, f2) =
        set_one_lem l view ms _ i (p.w + (i + 1) % p.p) m1 (omega (arith, rows)) (col (i + 1)) f1 in
      (
        m2,
        rw e1 e2,
        IsOnes-ext l view ms m2 _ _
            (λ r c.
              sym (
                or_assoc (cell i (p.w + (i + 1) % p.p) r c) (cell i (p.w + i % p.p) r c) (one r c)))
            f2,
      )

parts_lem :
    (l : M256v) (p : Parameters) (m m0 m1 m2 m3 : Mem)
    → l.n_row ≡ p.s
    → l.n_col ≡ p.l
    → clear l m ≡ some m0
    → for_range p.b 0 (left_round l p) m0 ≡ some m1
    → for_range p.s 0 (diagonal_round l p) m1 ≡ some m2
    → for_range p.s 0 (right_round l p) m2 ≡ some m3
    → ldpc_generate_mat l p m ≡ some m3
unfolding ldpc_generate_mat
parts_lem l p m m0 m1 m2 m3 rows cols e0 e1 e2 e3 =
    rw ((==_iff l.n_row p.s).1 rows, (==_iff l.n_col p.l).1 cols, e0) (rw e1 (rw e2 e3))

-- For valid parameters and a matrix of S rows and L columns, `ldpc_generate_mat` fails no assert,
-- and leaves 1 where one of its three parts has a one, 0 in every other element, and nothing changed
-- behind the elements.
pub ldpc_generate_mat_lem :
    (l : M256v) (p : Parameters) (m : Mem)
    → IsView l
    → IsValid p
    → l.n_row ≡ p.s
    → l.n_col ≡ p.l
    → IsBytes m
    → (m' : Mem) × (ldpc_generate_mat l p m ≡ some m') × IsOnes l m m' (ldpc_one p)
unfolding ldpc_one
ldpc_generate_mat_lem l p m view valid rows cols bytes =
    let (m0, e0, f0) = clear_lem l m view bytes in
    let (m1, e1, f1) =
      IsOnes-for_range l view m (left_round l p) (left_ones p) (λ r c. false) p.b 0 m0
        (λ one i m h g. left_lem l p _ view valid rows cols one i m (omega arith) g) f0 in
    let (m2, e2, f2) =
      IsOnes-for_range l view m (diagonal_round l p) (λ i r c. cell i (i + p.b) r c) _ p.s 0 m1
        (λ one i m h g. diagonal_lem l p _ view valid rows cols one i m (omega arith) g) f1 in
    let (m3, e3, f3) =
      IsOnes-for_range l view m (right_round l p) (right_ones p) _ p.s 0 m2
        (λ one i m h g. right_lem l p _ view valid rows cols one i m (omega arith) g) f2 in
    (m3, parts_lem l p m m0 m1 m2 m3 rows cols e0 e1 e2 e3, f3)
