-- ===== src/Api/Execute/Compiled.antt =====
-- `RqOutCompile` of api/tvrq_api.c, and what `RqOutExecute` makes of the program that it leaves.
use tv_rq.Prelude.{
  ℕ, ◌+◌, ◌-◌, ◌*◌, ◌/◌, ◌%◌, ◌^◌, ◌≤◌, ◌<◌, ◌≡◌, refl, ap, fun_ext, none, some, arith, ltb, lt→ltb,
  le→ltb, if◌then◌else◌, ◌>>=◌,
}
use tv_rq.Memory.{Mem}
use tv_rq.Memory.Loop.{for_range_ext}
use tv_rq.Parameters.{Parameters}
use tv_rq.Tuple.{tuple_generate_from_esi}
use tv_rq.M256v.{M256v, copy_row, multadd_row}
use tv_rq.Lt.{walk}
use tv_rq.Api.{success, err_enomem}
use tv_rq.Api.Words.{width}
use tv_rq.Api.Out.{RqOutWorkMem, RqOutProgram, copy_program, rq_out_compile}
use tv_rq.Api.Execute.{out_symbol, rq_out_execute}

-- Two programs of which the parameters and the identifiers in use are the same.
record SameProgram (a b : RqOutProgram) : Type 0 where
  pub params : a.params ≡ b.params
  pub count : a.n_esi ≡ b.n_esi
  pub ids : (i : ℕ) → i < b.n_esi → a.esis i ≡ b.esis i

out_symbol_ext :
    (im o : M256v) (p : Parameters) (e f : Mem) (i : ℕ) (m : Mem)
    → e i ≡ f i
    → out_symbol im o p e i m ≡ out_symbol im o p f i m
unfolding out_symbol
out_symbol_ext im o p e f i m same =
    ap
      (λ x. tuple_generate_from_esi x p >>= λ t.
        walk (λ c. multadd_row im c 1 o i) t p (λ c. copy_row im c o i) m)
      same

-- The output depends on nothing else of a program.
rq_out_execute_ext :
    (a b : RqOutProgram) (sym_size inter out size : ℕ) (m : Mem)
    → SameProgram a b
    → rq_out_execute a sym_size inter out size m ≡ rq_out_execute b sym_size inter out size m
unfolding rq_out_execute
rq_out_execute_ext a b sym_size inter out size m same =
    rw (same.params, same.count)
      (ap
        (λ k.
          if ltb size (b.n_esi * sym_size % 2 ^ 64) then some (err_enomem, m) else b.params >>= k)
        (fun_ext (λ p.
          ap (λ o. o >>= λ m'. some (success, m'))
            (for_range_ext b.n_esi 0 _ _
              (λ i l h m.
                ap (λ k. width sym_size >>= k)
                  (fun_ext
                    (λ n_col. out_symbol_ext _ _ p a.esis b.esis i m (same.ids i (omega arith)))))
              m))))

copied :
    (w : RqOutWorkMem) (program : RqOutProgram)
    → (program' : RqOutProgram) × (copy_program w (52 + w.n_esi * 4) (52 + w.n_esi * 4) program
        ≡ some program')
      × SameProgram program' w
      × (program'.n_esi_max ≡ w.n_esi_max)
      × ((i : ℕ) → w.n_esi ≤ i → program'.esis i ≡ program.esis i)
unfolding copy_program
copied w program = (
  record {
    params = w.params;
    n_esi_max = w.n_esi_max;
    n_esi = w.n_esi;
    esis = λ i. if ltb i ((52 + w.n_esi * 4 - 52) / 4) then w.esis i else program.esis i;
  },
  rw (le→ltb (52 + w.n_esi * 4) (52 + w.n_esi * 4) (omega arith)) refl,
  record {
    params = refl;
    count = refl;
    ids = λ i h. rw (lt→ltb i ((52 + w.n_esi * 4 - 52) / 4) (omega arith)) refl;
  },
  refl,
  λ i h. rw (le→ltb i ((52 + w.n_esi * 4 - 52) / 4) (omega arith)) refl,
)

short_copy :
    (w : RqOutWorkMem) (n size : ℕ) (program : RqOutProgram)
    → size < n
    → copy_program w n size program ≡ none
unfolding copy_program
short_copy w n size program h = rw (lt→ltb size n h) refl

-- `RqOutCompile` into a program's memory of exactly the size of the header and the identifiers in use
-- succeeds. The program has the parameters, the counts and the identifiers of the work memory, the
-- memory behind these identifiers is as before, and `RqOutExecute` on it does just what it does on the
-- work memory, whatever the symbols. With every larger memory RqOutCompile refuses with RQ_ERR_ENOMEM
-- and leaves the program as it was, and with every smaller one it writes behind it.
pub rq_out_compile-rq_out_execute :
    (w : RqOutWorkMem) (program : RqOutProgram)
    → ((program' : RqOutProgram) × (rq_out_compile w (52 + w.n_esi * 4) program
          ≡ some (success, program'))
        × (program'.params ≡ w.params)
        × (program'.n_esi ≡ w.n_esi)
        × (program'.n_esi_max ≡ w.n_esi_max)
        × ((i : ℕ) → i < w.n_esi → program'.esis i ≡ w.esis i)
        × ((i : ℕ) → w.n_esi ≤ i → program'.esis i ≡ program.esis i)
        × ((sym_size inter out size : ℕ) (m : Mem)
            → rq_out_execute program' sym_size inter out size m
              ≡ rq_out_execute w sym_size inter out size m))
      × ((size : ℕ)
          → 52 + w.n_esi * 4 < size
          → rq_out_compile w size program ≡ some (err_enomem, program))
      × ((size : ℕ) → size < 52 + w.n_esi * 4 → rq_out_compile w size program ≡ none)
unfolding rq_out_compile
rq_out_compile-rq_out_execute w program =
    let sz = 52 + w.n_esi * 4 in
    let (program', e, same, max, behind) = copied w program in
    (
      (
        program',
        rw (le→ltb sz sz (omega arith), e) refl,
        same.params,
        same.count,
        max,
        same.ids,
        behind,
        λ sym_size inter out size m. rq_out_execute_ext program' w sym_size inter out size m same,
      ),
      λ size big. rw (lt→ltb sz size big) refl,
      λ size short. rw (le→ltb sz size (omega arith), short_copy w sz size program short) refl,
    )
