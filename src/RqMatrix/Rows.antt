-- ===== src/RqMatrix/Rows.antt =====
-- The matrix that `rq_matrix_generate` of tvrq/rq_matrix.c writes.
use tv_rq.Prelude.{
  ℕ, ◌+◌, ◌-◌, ◌%◌, ◌^◌, ◌<◌, ◌≤◌, ◌≡◌, ◌≢◌, ◌⊎◌, inl, inr, refl, ap, ap₂, sym, subst, ◌∙◌, Bool,
  Option, some, arith, ==_iff, ==_self, ltb, lt→ltb, le→ltb, le→leb, leb, false, if◌then◌else◌,
}
use native.Mathlib.Decide.{dec_lt}
use tv_rq.Memory.{Mem}
use tv_rq.Memory.Sweep.{IsBytes}
use tv_rq.Parameters.{Parameters}
use tv_rq.Parameters.Valid.{IsValid}
use tv_rq.M256v.{M256v, get_subview}
use tv_rq.M256v.Access.{at, IsView, get_subview_lem, at_injective}
use tv_rq.M256v.Fill.{Filled}
use tv_rq.Lt.{lt_generate_mat}
use tv_rq.Lt.Rows.{mark, lt_generate_mat_lem}
use tv_rq.Lt.Tuples.{isi_positions}
use tv_rq.Ldpc.{ldpc_generate_mat}
use tv_rq.Ldpc.Ones.{bit}
use tv_rq.Ldpc.Rows.{ldpc_one, ldpc_generate_mat_lem}
use tv_rq.Hdpc.{hdpc_generate_mat}
use tv_rq.Hdpc.Entries.{hdpc_entry}
use tv_rq.Hdpc.Rows.{hdpc_generate_mat_lem}
use tv_rq.RqMatrix.{rq_matrix_get_dim, isis_of, rq_matrix_generate}

-- RFC 6330, section 5.3.1 and 5.3.3: the internal symbol identifier of an LT row, apart from the code.
-- A symbol below K keeps its number, every other symbol that is sent stands behind the padding, and the
-- padding symbols are K to K' - 1.
unfoldable pub row_isi : Parameters → ℕ → (ℕ → ℕ) → ℕ → ℕ
row_isi p n_esis esis r =
    if ltb r n_esis
    then (if ltb (esis r) p.k then esis r else (esis r + (p.kprime - p.k)) % 2 ^ 32)
    else p.k + r - n_esis

-- `ISIs` holds these identifiers.
isis_of-row_isi :
    (p : Parameters) (n_esis : ℕ) (esis : ℕ → ℕ) (r : ℕ)
    → IsValid p
    → isis_of p n_esis esis r ≡ row_isi p n_esis esis r
unfolding isis_of row_isi
isis_of-row_isi p n_esis esis r valid = elim (dec_lt r n_esis) [
  | yes l ↦ elim (dec_lt (esis r) p.k) [
    | yes k ↦
        rw (lt→ltb r n_esis l, lt→ltb (esis r) p.k k, lt→leb (esis r) p.k k)
          (unmoved (esis r) (omega (arith, valid.padded, valid.kprime_max)))
    | no k ↦
        rw (lt→ltb r n_esis l, le→ltb (esis r) p.k (omega arith), le→leb p.k (esis r) (omega arith))
          refl
  ]
  | no l ↦ rw (le→ltb r n_esis (omega arith)) (omega arith)
]
  where
    lt→leb : (a b : ℕ) → a < b → leb b a ≡ false
    lt→leb a b h = ground arith

    unmoved : (n : ℕ) → n < 2 ^ 32 → (n + 0) % 2 ^ 32 ≡ n
    unmoved n h = omega arith

-- The element: LT rows for the identifiers, then the LDPC rows, then the HDPC rows.
unfoldable pub rq_entry : Parameters → ℕ → (ℕ → ℕ) → ℕ → ℕ → ℕ
rq_entry p n_esis esis r c =
    let n_isis = n_esis + (p.kprime - p.k) in
    if ltb r n_isis
    then mark c (isi_positions (row_isi p n_esis esis r) p) 0
    else (if ltb r (n_isis + p.s)
        then bit (ldpc_one p (r - n_isis) c)
        else hdpc_entry p (r - (n_isis + p.s)) c)

-- A band of `n` whole rows of a matrix from `top` on holds `val`, and no other element is changed.
record Band (mat : M256v) (m m' : Mem) (top n : ℕ) (val : ℕ → ℕ → ℕ) : Type 0 where
  pub bytes : IsBytes m'
  pub here : (r c : ℕ) → r < n → c < mat.n_col → m' (at mat (top + r) c) ≡ val r c
  pub off :
      (x : ℕ) → ((r c : ℕ) → top ≤ r → r < top + n → c < mat.n_col → x ≢ at mat r c) → m' x ≡ m x

-- Writing to the subview of a band is writing to the band.
band :
    (mat : M256v) (top n l : ℕ) (m : Mem) (val : ℕ → ℕ → ℕ) (write_to : M256v → Mem → Option Mem)
    → IsView mat
    → mat.n_col ≡ l
    → top < mat.n_row
    → top + n ≤ mat.n_row
    → ((sub : M256v)
        → IsView sub
        → sub.n_row ≡ n
        → sub.n_col ≡ l
        → (m' : Mem) × (write_to sub m ≡ some m') × Filled sub m m' sub.n_row val)
    → (sub : M256v) × (get_subview mat top 0 n l ≡ some sub)
      × (m' : Mem) × (write_to sub m ≡ some m')
      × Band mat m m' top n val
band mat top n l m val write_to view wide pos fits works =
    let (sub, e, v, rows, cols, a) =
      get_subview_lem mat top 0 n l view pos fits (omega (arith, wide)) in
    let (m', run, f) = works sub v rows cols in
    let same : (r c : ℕ) → at sub r c ≡ at mat (top + r) c =
      λ r c. a r c ∙ ap (at mat (top + r)) (zero_add c) in
    (
      sub,
      e,
      m',
      run,
      record {
        bytes = f.bytes;
        here = λ r c h k.
            ap m' (sym (same r c)) ∙ f.rows r c (omega (arith, rows)) (omega (arith, cols, wide));
        off = λ x away. f.off x (λ r c h k e.
            away (top + r) c (omega arith) (omega (arith, rows)) (omega (arith, cols, wide))
              (e ∙ same r c));
      },
    )
  where
    zero_add : (c : ℕ) → 0 + c ≡ c
    zero_add c = omega arith

module _ (mat : M256v) (p : Parameters) (n_esis : ℕ) (esis : ℕ → ℕ) (m : Mem) (view : IsView mat)
    (valid : IsValid p) (rows : mat.n_row ≡ n_esis + (p.kprime - p.k) + p.s + p.h)
    (cols : mat.n_col ≡ p.l) (bytes : IsBytes m) where
  abbrev n_isis : ℕ
  n_isis = n_esis + (p.kprime - p.k)

  lt-Band :
      (sub : M256v) × (get_subview mat 0 0 n_isis p.l ≡ some sub)
      × (m' : Mem) × (lt_generate_mat sub p n_isis (isis_of p n_esis esis) m ≡ some m')
      × Band mat m m' 0 n_isis (λ r c. mark c (isi_positions (isis_of p n_esis esis r) p) 0)
  lt-Band =
      band mat 0 n_isis p.l m _ (λ lt. lt_generate_mat lt p n_isis (isis_of p n_esis esis)) view
        cols (omega (arith, rows, valid.s_min)) (omega (arith, rows))
        (λ sub v sr sc.
          subst
            (λ n.
              (m' : Mem) × (lt_generate_mat sub p n (isis_of p n_esis esis) m ≡ some m')
              × Filled sub m m' sub.n_row
                  (λ r c. mark c (isi_positions (isis_of p n_esis esis r) p) 0))
            sr (lt_generate_mat_lem sub p (isis_of p n_esis esis) m v valid sc bytes))

  ldpc-Band :
      (m1 : Mem)
      → IsBytes m1
      → (sub : M256v) × (get_subview mat n_isis 0 p.s p.l ≡ some sub)
        × (m' : Mem) × (ldpc_generate_mat sub p m1 ≡ some m')
        × Band mat m1 m' n_isis p.s (λ r c. bit (ldpc_one p r c))
  ldpc-Band m1 b =
      band mat n_isis p.s p.l m1 _ (λ ldpc. ldpc_generate_mat ldpc p) view cols
        (omega (arith, rows, valid.s_min)) (omega (arith, rows))
        (λ sub v sr sc. ldpc_generate_mat_lem sub p m1 v valid sr sc b)

  hdpc-Band :
      (m1 : Mem)
      → IsBytes m1
      → (sub : M256v) × (get_subview mat (n_isis + p.s) 0 p.h p.l ≡ some sub)
        × (m' : Mem) × (hdpc_generate_mat sub p m1 ≡ some m')
        × Band mat m1 m' (n_isis + p.s) p.h (hdpc_entry p)
  hdpc-Band m1 b =
      band mat (n_isis + p.s) p.h p.l m1 _ (λ hdpc. hdpc_generate_mat hdpc p) view cols
        (omega (arith, rows, valid.h_min)) (omega (arith, rows))
        (λ sub v sr sc. hdpc_generate_mat_lem sub p m1 v valid sr sc b)

  -- Writing the band of other rows keeps an element.
  kept :
      (m m' : Mem) (top n : ℕ) (val : ℕ → ℕ → ℕ) (r c : ℕ)
      → Band mat m m' top n val
      → (r < top) ⊎ (top + n ≤ r)
      → c < mat.n_col
      → m' (at mat r c) ≡ m (at mat r c)
  kept m m' top n val r c f outside h = f.off (at mat r c) (λ i k lo hi l e. elim outside [
    | inl u ↦ absurd (omega (arith, u, (at_injective mat r c i k view h l e).0))
    | inr u ↦ absurd (omega (arith, u, (at_injective mat r c i k view h l e).0))
  ])

  compose :
      (lt ldpc hdpc : M256v) (m1 m2 m3 : Mem)
      → get_subview mat 0 0 n_isis p.l ≡ some lt
      → lt_generate_mat lt p n_isis (isis_of p n_esis esis) m ≡ some m1
      → get_subview mat n_isis 0 p.s p.l ≡ some ldpc
      → ldpc_generate_mat ldpc p m1 ≡ some m2
      → get_subview mat (n_isis + p.s) 0 p.h p.l ≡ some hdpc
      → hdpc_generate_mat hdpc p m2 ≡ some m3
      → rq_matrix_generate mat p n_esis esis m ≡ some m3
  unfolding rq_matrix_generate rq_matrix_get_dim
  compose lt ldpc hdpc m1 m2 m3 s1 e1 s2 e2 s3 e3 =
      rw
        (
          (==_iff (n_isis + p.s + p.h) mat.n_row).1 (sym rows),
          (==_iff p.l mat.n_col).1 (sym cols),
          s1,
          e1,
        )
        (rw (s2, e2) (rw (s3, e3, ==_self (n_isis + p.s + p.h)) refl))

  -- For valid parameters and a matrix of the dimension that `rq_matrix_get_dim` gives,
  -- `rq_matrix_generate` fails no assert, and leaves the LT rows of the identifiers and of the
  -- padding symbols, the LDPC rows and the HDPC rows, one below the other, and nothing changed
  -- behind the elements.
  pub rq_matrix_generate_lem :
      (m' : Mem) × (rq_matrix_generate mat p n_esis esis m ≡ some m')
      × Filled mat m m' mat.n_row (rq_entry p n_esis esis)
  unfolding rq_entry
  rq_matrix_generate_lem =
      let (lt, s1, m1, e1, f1) = lt-Band in
      let (ldpc, s2, m2, e2, f2) = ldpc-Band m1 f1.bytes in
      let (hdpc, s3, m3, e3, f3) = hdpc-Band m2 f2.bytes in
      let choose : ℕ → ℕ → Bool → Bool → ℕ = λ r c b b'.
        if b
        then mark c (isi_positions (row_isi p n_esis esis r) p) 0
        else (if b'
            then bit (ldpc_one p (r - n_isis) c)
            else hdpc_entry p (r - (n_isis + p.s)) c) in
      (
        m3,
        compose lt ldpc hdpc m1 m2 m3 s1 e1 s2 e2 s3 e3,
        record {
          bytes = f3.bytes;
          rows = λ r c hr hc. elim (dec_lt r n_isis) [
            | yes l ↦
                kept m2 m3 (n_isis + p.s) p.h _ r c f3 (inl (omega arith)) hc
                ∙ kept m1 m2 n_isis p.s _ r c f2 (inl l) hc
                ∙ ap (λ k. m1 (at mat k c)) (zero_add r)
                ∙ f1.here r c l hc
                ∙ ap (λ i. mark c (isi_positions i p) 0) (isis_of-row_isi p n_esis esis r valid)
                ∙ ap (λ b. choose r c b (ltb r (n_isis + p.s))) (sym (lt→ltb r n_isis l))
            | no n ↦ elim (dec_lt r (n_isis + p.s)) [
              | yes l ↦
                  kept m2 m3 (n_isis + p.s) p.h _ r c f3 (inl l) hc
                  ∙ ap (λ k. m2 (at mat k c)) (back n_isis r (omega arith))
                  ∙ f2.here (r - n_isis) c (omega arith) hc
                  ∙ sym (ap₂ (choose r c) (le→ltb r n_isis (omega arith)) (lt→ltb r _ l))
              | no k ↦
                  ap (λ k. m3 (at mat k c)) (back (n_isis + p.s) r (omega arith))
                  ∙ f3.here (r - (n_isis + p.s)) c (omega (arith, rows)) hc
                  ∙ sym (
                      ap₂ (choose r c) (le→ltb r n_isis (omega arith))
                        (le→ltb r (n_isis + p.s) (omega arith)))
            ]
          ];
          off = λ x away.
              f3.off x (λ i c lo hi l. away i c (omega (arith, rows)) l)
              ∙ f2.off x (λ i c lo hi l. away i c (omega (arith, rows)) l)
              ∙ f1.off x (λ i c lo hi l. away i c (omega (arith, rows)) l);
        },
      )
    where
      zero_add : (r : ℕ) → r ≡ 0 + r
      zero_add r = omega arith

      back : (n r : ℕ) → n ≤ r → r ≡ n + (r - n)
      back n r l = omega arith
