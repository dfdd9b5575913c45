-- ===== src/Api/Decode/Run.antt =====
-- What `RqInterExecute` of api/tvrq_api.c leaves in the intermediate block.
use tv_rq.Prelude.{
  on_left, ℕ, ◌*◌, ◌%◌, ◌^◌, ◌≤◌, ◌<◌, ◌≡◌, ◌≢◌, refl, ap, sym, ◌∙◌, none, some, arith, leb, le→ltb,
  le→leb, false, if◌then◌else◌,
}
use native.Mathlib.Decide.{dec_le}
use tv_rq.Memory.{Mem, for_range}
use tv_rq.Memory.Sweep.{IsBytes}
use tv_rq.M256v.{M256v, m256v_make}
use tv_rq.M256v.Access.{at, IsView}
use tv_rq.M256v.Rows.{Written, clear_row_lem, copy_row_lem}
use tv_rq.M256v.Fill.{Filled, fill_lem}
use tv_rq.Lu.{lu_invmult_inplace}
use tv_rq.Lu.Combine.{Disjoint, el}
use tv_rq.Lu.Solve.{lu_invmult_inplace_lem}
use tv_rq.Lu.Eliminate.{OffMatrix}
use tv_rq.Lu.Value.{value}
use tv_rq.Lu.Kernel.{value_ext}
use tv_rq.Api.{success}
use tv_rq.Api.Words.{width_small}
use tv_rq.Api.Compile.{RqInterProgram}
use tv_rq.Api.Decode.{load_row, rq_inter_execute}

-- The right-hand side of the equation of row `i`.
unfoldable pub right_side : RqInterProgram → M256v → Mem → ℕ → ℕ → ℕ
right_side program y m i c =
    if leb program.n_esi (program.rowperm i) then 0 else m (at y (program.rowperm i) c)

pub no_symbol :
    (program : RqInterProgram) (y : M256v) (m : Mem) (i c : ℕ)
    → program.n_esi ≤ program.rowperm i
    → 0 ≡ right_side program y m i c
unfolding right_side
no_symbol program y m i c h = rw (le→leb program.n_esi (program.rowperm i) h) refl

lt→leb : (a b : ℕ) → b < a → leb a b ≡ false
lt→leb a b h = ground arith

pub symbol :
    (program : RqInterProgram) (y : M256v) (m : Mem) (i c : ℕ)
    → program.rowperm i < program.n_esi
    → m (at y (program.rowperm i) c) ≡ right_side program y m i c
unfolding right_side
symbol program y m i c h = rw (lt→leb program.n_esi (program.rowperm i) h) refl

module _ (program : RqInterProgram) (y ib : M256v) (m : Mem) (view : IsView ib)
    (cols : y.n_col ≡ ib.n_col) (ids : y.n_row ≡ program.n_esi) (apart : Disjoint y ib) where
  load_row_lem :
      (i : ℕ) (m1 : Mem)
      → i < ib.n_row
      → Filled ib m m1 i (right_side program y m)
      → (m' : Mem) × (load_row program y ib i m1 ≡ some m')
        × Written m1 m' ib.n_col (at ib i) (right_side program y m i)
  unfolding load_row
  load_row_lem i m1 h f = elim (dec_le program.n_esi (program.rowperm i)) [
    | yes big ↦
        let (m', e, w) = clear_row_lem ib i m1 view h f.bytes in
        (
          m',
          rw (le→leb program.n_esi (program.rowperm i) big) e,
          record {
            bytes = w.bytes;
            here = λ c l. w.here c l ∙ no_symbol program y m i c big;
            off = w.off;
          },
        )
    | no small ↦
        let low : program.rowperm i < y.n_row = omega (arith, ids) in
        let (m', e, w) =
          copy_row_lem y (program.rowperm i) ib i m1 cols low h f.bytes
            (λ j k lj lk e. apart (program.rowperm i) k i j low (omega (arith, cols)) h lj e) in
        (
          m',
          rw (lt→leb program.n_esi (program.rowperm i) (omega arith)) e,
          record {
            bytes = w.bytes;
            here = λ c l.
                w.here c l
                ∙ f.off (at y (program.rowperm i) c) (λ j k lj lk.
                  apart (program.rowperm i) c j k low (omega (arith, cols)) (omega arith) lk)
                ∙ symbol program y m i c (omega arith);
            off = w.off;
          },
        )
  ]

  -- The right-hand sides are in place.
  load_lem :
      IsBytes m
      → (m' : Mem) × (for_range ib.n_row 0 (load_row program y ib) m ≡ some m')
        × Filled ib m m' ib.n_row (right_side program y m)
  load_lem bytes =
      fill_lem ib view m (right_side program y m) (load_row program y ib) ib.n_row load_row_lem
        bytes

-- The intermediate block solves the equations of the program for the symbols received.
pub record Executed (program : RqInterProgram) (y ib : M256v) (m m' : Mem) : Type 0 where
  pub bytes : IsBytes m'
  pub rows :
      (r c : ℕ)
      → r < program.lu.n_col
      → c < ib.n_col
      → value program.lu.n_col program.lu.n_col (el program.lu m) (λ k. el ib m' k c) r
        ≡ right_side program y m r c
  pub off : (a : ℕ) → OffMatrix ib a → m' a ≡ m a

abbrev pub block : RqInterProgram → ℕ → ℕ → M256v
block program sym_size inter_sym_mem = record {
  n_row = program.lu.n_col;
  n_col = sym_size;
  rstride = sym_size;
  e = inter_sym_mem;
}

abbrev pub received : RqInterProgram → ℕ → ℕ → M256v
received program sym_size in_sym_mem = record {
  n_row = program.n_esi;
  n_col = sym_size;
  rstride = sym_size;
  e = in_sym_mem;
}

module _ (program : RqInterProgram)
    (sym_size in_sym_mem inter_sym_mem inter_sym_mem_size rowbuf : ℕ) (m : Mem)
    (square : program.lu.n_row ≡ program.lu.n_col) (pos : 0 < program.lu.n_col)
    (pivots : (i : ℕ) → i < program.lu.n_col → el program.lu m i i ≢ 0) (narrow : sym_size < 2 ^ 31)
    (enough : program.lu.n_col * sym_size % 2 ^ 64 ≤ inter_sym_mem_size)
    (apart_y : Disjoint
      (received program sym_size in_sym_mem)
      (block program sym_size inter_sym_mem))
    (apart_lu : Disjoint program.lu (block program sym_size inter_sym_mem))
    (bytes : IsBytes m) where
  abbrev ib : M256v
  ib = block program sym_size inter_sym_mem

  abbrev y : M256v
  y = received program sym_size in_sym_mem

  steps :
      (m1 m2 : Mem)
      → for_range ib.n_row 0 (load_row program y ib) m ≡ some m1
      → lu_invmult_inplace program.lu none none none ib rowbuf m1 ≡ some m2
      → rq_inter_execute program sym_size in_sym_mem inter_sym_mem inter_sym_mem_size rowbuf m
        ≡ some (success, m2)
  unfolding rq_inter_execute m256v_make
  steps m1 m2 e f =
      rw
        (
          le→ltb inter_sym_mem_size (program.lu.n_col * sym_size % 2 ^ 64) enough,
          width_small sym_size narrow,
        )
        (on_left (ap (λ n. for_range n 0 (load_row program y ib) m) square ∙ e) _ ∙ on_left f _)

  -- For a program whose L and U are square with no zero on the diagonal of U, a symbol size below 2^31, enough memory, and an
  -- intermediate block that shares no byte with the symbols received and the program,
  -- `RqInterExecute` fails no assert and succeeds; the block then solves the equations for the
  -- symbols received, and nothing behind it changes.
  pub rq_inter_execute_lem :
      (m' : Mem) × (rq_inter_execute program sym_size in_sym_mem inter_sym_mem inter_sym_mem_size
          rowbuf m
        ≡ some (success, m'))
      × Executed program y ib m m'
  rq_inter_execute_lem =
      let (m1, e1, f) = load_lem program y ib m (omega arith) refl refl apart_y bytes in
      let kept : (r c : ℕ)
          → r < program.lu.n_col
          → c < program.lu.n_col
          → el program.lu m1 r c ≡ el program.lu m r c =
        λ r c h l.
          f.off (at program.lu r c)
            (λ i k hi hk. apart_lu r c i k (omega (arith, square)) l hi hk) in
      let (m2, e2, s) =
        lu_invmult_inplace_lem program.lu ib rowbuf m1 (omega arith) apart_lu square (omega arith)
          pos f.bytes (λ i h z. pivots i h (sym (kept i i h h) ∙ z)) in
      (
        m2,
        steps m1 m2 e1 e2,
        record {
          bytes = s.bytes;
          rows = λ r c h l.
              value_ext program.lu.n_col (el program.lu m) (el program.lu m1) _ r h
                (λ r c h l. sym (kept r c h l))
              ∙ s.rows r c h l
              ∙ f.rows r c h l;
          off = λ a away. s.off a away ∙ f.off a away;
        },
      )
