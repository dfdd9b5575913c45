-- ===== src/Api/Decode/Examples.antt =====
-- Decoding ten symbols, and the calls of a decoder for themselves.
use tv_rq.Prelude.{ℕ, ◌+◌, ◌*◌, ◌%◌, ◌<◌, ◌≤◌, ◌≡◌, ◌≢◌, ◌⊎◌, refl, sym, some, arith}
use tv_rq.Prelude.Int.{pos}
use tv_rq.Memory.{Mem}
use tv_rq.Memory.Sweep.{IsBytes}
use tv_rq.Gf256.Poly.{⊗-zero}
use tv_rq.Parameters.Examples.{ten, ten-IsValid}
use tv_rq.Lu.Sum.{sum_from_zero}
use tv_rq.Lu.Value.{row_from}
use tv_rq.Lu.Combine.{el}
use tv_rq.Api.{success, err_insuff_ids, WorkMem}
use tv_rq.Api.Compile.{RqInterProgram, mem_needed, rq_inter_compile}
use tv_rq.Api.Compile.Program.{Compiled, Insufficient, rq_inter_compile_lem}
use tv_rq.Api.Decode.{rq_inter_execute}
use tv_rq.Api.Decode.Run.{Executed, block, received, rq_inter_execute_lem}
use tv_rq.Api.Decode.Equations.{Explains}
use tv_rq.Api.Decode.Recover.{decode, view_of, decode_lem}

-- The identifiers 0, 2, …, 22.
abbrev ids : WorkMem
ids = record { params = some ten; n_esi_max = pos 20; n_esi = 12; esis = λ i. 2 * i }

abbrev blank : RqInterProgram
blank = record {
  lu = record { n_row = 0; n_col = 0; rstride = 0; e = 0 };
  n_esi = 0;
  lu_storage = 0;
  rowperm = λ i. 0;
}

abbrev zeros : Mem
zeros a = 0

zeros-IsBytes : IsBytes zeros
zeros-IsBytes a = omega arith

small : mem_needed 29 27 ≤ 1000
unfolding mem_needed
small = omega arith

rq_inter_compile_lem_example :
    (prog : RqInterProgram) × (m' : Mem) × (((rq_inter_compile ids 0 1000 blank (λ i. 0) zeros
          ≡ some (success, (prog, m')))
        × Compiled ten ids 0 zeros prog m')
      ⊎ ((rq_inter_compile ids 0 1000 blank (λ i. 0) zeros ≡ some (err_insuff_ids, (prog, m')))
          × Insufficient ten ids))
rq_inter_compile_lem_example =
    rq_inter_compile_lem ten ids 0 1000 blank (λ i. 0) zeros refl ten-IsValid (omega arith) small
      zeros-IsBytes

row_zero : (n : ℕ) (a : ℕ → ℕ → ℕ) (r lo : ℕ) → row_from n a (λ k. 0) r lo ≡ 0
unfolding row_from
row_zero n a r lo = sum_from_zero lo _ _ (λ k l u. ⊗-zero (a r k))

-- Symbols that are all zero are explained by intermediate symbols that are all zero.
zeros_explained : Explains ten ids (view_of 12 4 5000) zeros (λ k c. 0)
zeros_explained = record {
  bytes = λ k c. omega arith;
  symbols = λ i c h l. sym (row_zero 27 _ i 0);
  zeros = λ i c h u l. row_zero 27 _ i 0;
}

decode_lem_example :
    (m2 : Mem) × (((decode ids 0 1000 blank (λ i. 0) 4 5000 6000 200 9000 zeros
          ≡ some (success, m2))
        × ((k c : ℕ) → k < 27 → c < 4 → el (view_of 27 4 6000) m2 k c ≡ 0))
      ⊎ ((decode ids 0 1000 blank (λ i. 0) 4 5000 6000 200 9000 zeros ≡ some (err_insuff_ids, m2))
          × ((x' : ℕ → ℕ → ℕ) × Explains ten ids (view_of 12 4 5000) zeros x'
              × (k : ℕ) × (k < 27)
              × ((c : ℕ) → x' k c ≢ 0))))
decode_lem_example =
    decode_lem ten ids 0 1000 blank (λ i. 0) 4 5000 6000 200 9000 zeros refl ten-IsValid
      (omega arith) small (omega arith) (omega arith) (λ r c r' c' h l h' l' e. omega arith)
      (λ r c r' c' h l h' l' e. omega arith) (λ r c r' c' h l h' l' e. omega arith) zeros-IsBytes
      (λ k c. 0) zeros_explained

-- A program of two rows, which take the second symbol received and none.
abbrev two_rows : RqInterProgram
two_rows = record {
  lu = record { n_row = 2; n_col = 2; rstride = 2; e = 0 };
  n_esi = 2;
  lu_storage = 0;
  rowperm = λ i. i + 1;
}

abbrev from_one : Mem
from_one a = (a + 1) % 256

from_one-IsBytes : IsBytes from_one
from_one-IsBytes a = omega arith

rq_inter_execute_lem_example :
    (m' : Mem) × (rq_inter_execute two_rows 3 10 20 6 50 from_one ≡ some (success, m'))
    × Executed two_rows (received two_rows 3 10) (block two_rows 3 20) from_one m'
rq_inter_execute_lem_example =
    rq_inter_execute_lem two_rows 3 10 20 6 50 from_one refl (omega arith) (λ i h e. omega arith)
      (omega arith) (omega arith) (λ r c r' c' h l h' l' e. omega arith)
      (λ r c r' c' h l h' l' e. omega arith) from_one-IsBytes
