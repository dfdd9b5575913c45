-- ===== src/Gf256/Examples.antt =====
-- Runs of the arithmetic of algebra/gf256.c, and its theorems at concrete bytes.
use tv_rq.Prelude.{ℕ, ◌<◌, ◌≡◌, refl, none, some, ◌>>=◌, arith}
use tv_rq.Prelude.Int.{pos, negsuc}
use tv_rq.Gf256.{oct_exp, oct_log, gf256_add, gf256_log, gf256_exp, gf256_mul, gf256_inv}
use tv_rq.Gf256.Poly.{◌⊗◌}
use tv_rq.Gf256.Field.{gf256_mul-eq-⊗, gf256_mul_laws, gf256_mul-inv, gf256_exp-log}

mul_runs : gf256_mul 7 11 ≡ some 49
unfolding gf256_mul gf256_exp gf256_log oct_exp oct_log
mul_runs = refl

log_zero : gf256_log 0 ≡ negsuc 0
unfolding gf256_log
log_zero = refl

inv_zero : gf256_inv 0 ≡ none
unfolding gf256_inv
inv_zero = refl

gf256_mul-eq-⊗_example : gf256_mul 200 77 ≡ some (200 ⊗ 77)
gf256_mul-eq-⊗_example = gf256_mul-eq-⊗ 200 77 (omega arith) (omega arith)

gf256_mul_laws_example :
    (gf256_mul 3 200 ≡ gf256_mul 200 3)
    × ((gf256_mul 3 200 >>= λ p. gf256_mul p 77) ≡ (gf256_mul 200 77 >>= λ q. gf256_mul 3 q))
    × (gf256_mul 3 (gf256_add 200 77)
        ≡ (gf256_mul 3 200 >>= λ p. gf256_mul 3 77 >>= λ q. some (gf256_add p q)))
gf256_mul_laws_example = gf256_mul_laws 3 200 77 (omega arith) (omega arith) (omega arith)

gf256_mul-inv_example : (w : ℕ) × (gf256_inv 29 ≡ some w) × (w < 256) × (gf256_mul 29 w ≡ some 1)
gf256_mul-inv_example = gf256_mul-inv 29 (omega arith) (omega arith)

gf256_exp-log_example :
    (gf256_exp (gf256_log 29) ≡ some 29)
    × ((gf256_exp (pos 254) >>= λ w. some (gf256_log w)) ≡ some (pos 254))
gf256_exp-log_example = gf256_exp-log 29 254 (omega arith) (omega arith) (omega arith)
