-- ===== src/Lu/Rank.antt =====
-- The loop of `LU_decomp_inplace` of algebra/mv_generic.h, to its end.
use tv_rq.Prelude.{
  on_left, ℕ, zero, suc, ◌+◌, ◌-◌, ◌≤◌, ◌<◌, ◌≡◌, ◌≢◌, inl, inr, refl, ap, ap₂, sym, ◌∙◌, none,
  some, arith, min,
}
use tv_rq.Memory.{Mem}
use tv_rq.Memory.Sweep.{IsBytes}
use tv_rq.M256v.{M256v}
use tv_rq.M256v.Access.{IsView}
use tv_rq.Lu.{LuState, init_perm, find_pivot, move_pivot, eliminate, lu_rounds, lu_decomp_inplace}
use tv_rq.Lu.Value.{row_from_ext, value_start}
use tv_rq.Lu.Combine.{el}
use tv_rq.Lu.Eliminate.{eliminate_lem}
use tv_rq.Lu.Pivot.{find_pivot_lem, move_pivot_lem}
use tv_rq.Lu.Transpose.{init_perm_lem, init_perm-IsPermutation, transpose, transpose_left}
use tv_rq.Lu.Decomp.{Decomposed, Decomposed-next}

-- The end of the decomposition with a rank: nothing but zeros is left to decompose.
pub record Finished (mat : M256v) (m0 : Mem) (rank : ℕ) (st : LuState) : Type 0 where
  pub rows_bound : rank ≤ mat.n_row
  pub cols_bound : rank ≤ mat.n_col
  pub decomposed : Decomposed mat m0 rank st
  pub zeros :
      (r c : ℕ) → rank ≤ r → r < mat.n_row → rank ≤ c → c < mat.n_col → el mat st.mem r c ≡ 0

module _ (mat : M256v) (m0 : Mem) (view : IsView mat) where
  stop_step :
      (n s : ℕ) (st : LuState)
      → find_pivot (mat.n_col - s) s s mat st.mem ≡ some none
      → lu_rounds (suc n) s mat st ≡ some (s, st)
  unfolding lu_rounds
  stop_step n s st e = rw e refl

  round_step :
      (n s : ℕ) (st st1 : LuState) (p q : ℕ) (m : Mem)
      → find_pivot (mat.n_col - s) s s mat st.mem ≡ some (some (p, q))
      → move_pivot mat s p q st ≡ some st1
      → eliminate mat s st1.mem ≡ some m
      → lu_rounds (suc n) s mat st
        ≡ lu_rounds n (s + 1) mat (record { mem = m; rp = st1.rp; cp = st1.cp })
  unfolding lu_rounds
  round_step n s st st1 p q m e f g = rw e (on_left f _ ∙ on_left g _)

  -- From any state in which `s` rounds are done the loop fails no assert and ends, every round keeping
  -- the decomposition; it stops at a rank after which nothing but zeros is left.
  pub lu_rounds_lem :
      (n s : ℕ) (st : LuState)
      → s + n ≡ min mat.n_col mat.n_row
      → Decomposed mat m0 s st
      → (rank : ℕ) × (st' : LuState) × (lu_rounds n s mat st ≡ some (rank, st'))
        × Finished mat m0 rank st'
  lu_rounds_lem zero s st h d =
      unfold lu_rounds in
      (
        s,
        st,
        refl,
        record {
          rows_bound = omega arith;
          cols_bound = omega arith;
          decomposed = d;
          zeros = λ r c a b e f. absurd (omega arith);
        },
      )
  lu_rounds_lem (suc n) s st h d =
      elim (find_pivot_lem mat st.mem (mat.n_col - s) s s (omega arith) (omega arith)) [
        | inl (e, zeros) ↦ (
          s,
          st,
          stop_step n s st e,
          record {
            rows_bound = omega arith;
            cols_bound = omega arith;
            decomposed = d;
            zeros = λ r c a b f g. zeros r c a b f g;
          },
        )
        | inr (p, q, e, p_low, p_high, q_low, q_high, ne, before) ↦
            let (st1, f, moved, e_rp, e_cp) =
              move_pivot_lem mat view s p q st d.bytes (omega arith) p_high (omega arith) q_high in
            let pivot : el mat st1.mem s s ≢ 0 = λ z.
              ne (
                sym (moved_pivot st st1 p q (moved.entries s s (omega arith) (omega arith))) ∙ z) in
            let (m2, g, bytes2, iv, small, unit, round, off2) =
              eliminate_lem mat view s (omega arith) (omega arith) st1.mem moved.bytes pivot in
            let d2 =
              Decomposed-next mat m0 s (omega arith) (omega arith) st d p q p_low p_high q_low
                q_high ne before st1.mem moved st1.rp st1.cp e_rp e_cp iv small unit m2 bytes2 round
                off2 in
            let (rank, st', run, done) =
              lu_rounds_lem n (s + 1) (record { mem = m2; rp = st1.rp; cp = st1.cp }) (omega arith)
                d2 in
            (rank, st', round_step n s st st1 p q m2 e f g ∙ run, done)
      ]
    where
      moved_pivot :
          (st st1 : LuState) (p q : ℕ)
          → el mat st1.mem s s ≡ el mat st.mem (transpose s p s) (transpose s q s)
          → el mat st1.mem s s ≡ el mat st.mem p q
      moved_pivot st st1 p q e = e ∙ ap₂ (el mat st.mem) (transpose_left s p) (transpose_left s q)

-- The state before the first round.
pub Decomposed-start :
    (mat : M256v) (st : LuState)
    → IsBytes st.mem
    → Decomposed mat st.mem 0
        (record { mem = st.mem; rp = init_perm mat.n_row st.rp; cp = init_perm mat.n_col st.cp })
Decomposed-start mat st bytes = record {
  bytes = bytes;
  off = λ a away. refl;
  rows_perm = init_perm-IsPermutation mat.n_row st.rp;
  cols_perm = init_perm-IsPermutation mat.n_col st.cp;
  pivots = λ j h. absurd (omega arith);
  values = λ x r bx h.
      value_start mat.n_col (el mat st.mem) (λ k. x (init_perm mat.n_col st.cp k)) r
      ∙ row_from_ext mat.n_col (el mat st.mem) (el mat st.mem) _ x r (init_perm mat.n_row st.rp r) 0
          (λ c l u. (
            ap (λ r. el mat st.mem r c) (sym (init_perm_lem mat.n_row st.rp r h)),
            ap x (init_perm_lem mat.n_col st.cp c u),
          ));
  straight = inl (init_perm_lem mat.n_col st.cp);
}

-- `lu_decomp_inplace` fails no assert and ends with a rank at most the numbers of rows and of columns.
-- The arrays are permutations; the diagonal has no zero before the rank, and nothing but zeros is left
-- after it; L times U is the matrix at the start with its rows and columns in the order of the arrays;
-- and if columns have changed places, a column of zeros is left, so that the rank is not full.
pub lu_decomp_inplace_lem :
    (mat : M256v) (st : LuState)
    → IsView mat
    → IsBytes st.mem
    → (rank : ℕ) × (st' : LuState) × (lu_decomp_inplace mat st ≡ some (rank, st'))
      × Finished mat st.mem rank st'
unfolding lu_decomp_inplace
lu_decomp_inplace_lem mat st view bytes =
    lu_rounds_lem mat st.mem view (min mat.n_col mat.n_row) 0 _ (omega arith)
      (Decomposed-start mat st bytes)
