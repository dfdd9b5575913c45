-- ===== src/Lib.antt =====
-- TvRQ, a RaptorQ (RFC 6330) code by plain Gaussian elimination, in C.
--
-- The parts, and how they use one another. algebra/gf256.c computes in GF(256) by tables, and
-- algebra/m256v.c works on views of matrices over it. rfc6330_alg/parameters.c gives the parameters
-- of the code for K source symbols, rfc6330_alg/rand.c is the random number generator of the standard
-- and rfc6330_alg/tuple.c draws from it the tuple of a symbol. algebra/mv_generic.h builds operations on
-- whole matrices from those on rows, and the LU decomposition. tvrq/lt.c, tvrq/ldpc.c and tvrq/hdpc.c
-- write the rows of the constraint matrix, which tvrq/rq_matrix.c puts together, and api/tvrq_api.c is
-- the interface: its callers get sizes, prepare a work memory, add identifiers, compile it to a
-- program, which is the decomposition of the constraint matrix, and execute that on symbols.
--
-- Where each part is modelled:
--   Gf256        algebra/gf256.c: oct_exp, oct_log, gf256_add, gf256_log, gf256_exp, gf256_mul,
--                gf256_inv under their names. Gf256.Poly is the field as polynomials, independent of
--                the tables.
--   Parameters   rfc6330_alg/parameters.c: the table of rows (Parameters.Sets), parameters_get with
--                its loop as first_set and its assignments as complete and assign, nextprime with its
--                loop as next_in. A struct with a K of -1 is the constructor unsupported.
--   Rand         rfc6330_alg/rand.c: the four tables and Rand, as rand.
--   Tuple        rfc6330_alg/tuple.c: Deg with its loop as deg_from, both generators.
--   Memory       bytes at addresses, counted loops with a body that may fail an assert, and the laws
--                of a loop that writes one cell a round.
--   M256v        algebra/m256v.c and m256v.h: a view is a record of sizes, stride and the address of
--                its first element, and the functions go under their names, without the m256v_.
--   M256v.Whole  algebra/mv_generic.h for m256v: clear, iszero, copy, copy_submat, add, add_inplace and
--                mul, without the prefix. M256v.Fill is the law of a loop that fills a matrix row by row.
--   Lt           tvrq/lt.c: lt_generate_mat, with one symbol as lt_row. The walk over the positions
--                of a tuple is walk, with its loops walk_lt, walk_pi and skip_pi; RqOutExecute takes
--                the same walk. Lt.Positions lists the positions, the LT ones in closed form.
--   Ldpc         tvrq/ldpc.c: ldpc_generate_mat, with one round of each loop as left_round,
--                diagonal_round and right_round.
--   Lu           algebra/mv_generic.h for m256v: LU_decomp_inplace with its loops as lu_rounds, find_pivot
--                and find_row, L_invmult_inplace and U_invmult_inplace with their variants for rows that
--                are placed, permute_rows, LU_invmult_inplace; in Lu.Product L_mult_inplace,
--                U_mult_inplace and LU_mult_inplace. Lu.Value says what a matrix that is decomposed
--                in part stands for, and Lu.Kernel what a rank that is not full means.
--   Hdpc         tvrq/hdpc.c: hdpc_generate_mat_faster as hdpc_generate_mat, which tvrq/hdpc.h calls
--                so, and hdpc_generate_mat_specexact, with the addresses from malloc as arguments.
--                Hdpc.Entries has the matrix product of the RFC's definition, with the ones of MT written
--                down apart from mt_a, mt_b, flip_a and flip_b, the two routines' own.
--   RqMatrix     tvrq/rq_matrix.c: rq_matrix_get_dim and rq_matrix_generate, whose array ISIs is isis_of.
--                RqMatrix.Rows has the identifiers of the rows, row_isi, apart from it.
--   Api          api/tvrq_api.c and rq_api.h: WorkMem is the struct of the two work memories and of the
--                output program, which the source lays out alike. Api.Inter has RqInterGetMemSizes,
--                RqInterInit and RqInterAddIds, Api.Out has RqOutGetMemSizes, RqOutInit, RqOutAddIds and
--                RqOutCompile, Api.Execute has RqOutExecute, with Api.Execute.Compiled for the program that
--                RqOutCompile leaves, Api.Compile RqInterCompile and Api.Decode RqInterExecute, in snake case. Api.Decode.Recover has the two as a decoder calls them.
--                Api.Words has the conversions between int, uint32_t and size_t, and the overflow of int.
--
-- Conventions. A uint8_t is a number below 256 and a uint32_t one below 2^32, with the wrap written
-- out; an int that the code never makes negative is a number. A failed assert is the value none (or
-- the constructor aborted). The memory is a function from addresses to bytes, so that views may share
-- cells. Loops are recursion on the rounds left, and need no fuel, but for the loop of skip_pi, whose
-- fuel is P1: it steps through residues modulo P1 in one direction; and for that of permute_rows along a
-- cycle (cycle), whose fuel is the number of rows, as no row of a cycle comes twice. Trial division
-- (Prelude.Primes) takes the number itself as fuel, and a prime test that ran out of it would say no.
--
-- On the api's platform an int has 32 bits and a size_t 64; the sizes of the structs are those of the
-- usual 64-bit layout (52 bytes for the work memories, 40 for the intermediate program). An overflow of
-- int and a write behind a given memory are the value none too. The symbol size is a size_t that
-- m256v_make takes as an int: Api.Words.width converts it, and a negative one is none. The calls
-- of malloc in hdpc.c are taken to succeed, but an overflow of the size asked for is none. With no identifier and no padding symbol the
-- array ISIs of rq_matrix_generate has length 0, which C leaves undefined; here it is empty. In Deg the
-- difference W - 2 stops at 0, as every W of the table is at least 17.
--
-- Not modelled: parameters_dump, which prints; of algebra/mv_generic.h permute_cols, LU_det, and LU_mult
-- and LU_invmult, which write to another matrix; the views over GF(2) of algebra/m2v.c; the tools,
-- samples and tests. LU_invmult_inplace and LU_mult_inplace are the subject of theorems where no
-- permutation is given, which is how RqInterExecute calls the first.
pub mod Prelude
pub mod Gf256
pub mod Parameters
pub mod Rand
pub mod Tuple
pub mod Memory
pub mod M256v
pub mod Lu
pub mod Lt
pub mod Ldpc
pub mod Hdpc
pub mod RqMatrix
pub mod Api
