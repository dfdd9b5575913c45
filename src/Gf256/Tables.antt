-- ===== src/Gf256/Tables.antt =====
-- What the two tables of algebra/gf256.c hold: the powers of x, twice round, and their inverse.
use tv_rq.Prelude.{
  ltb→lt, some, get_elem?-eq-get_or, ℕ, ◌+◌, ◌<◌, ◌≡◌, refl, Bool, true, ◌&&◌, ◌||◌, ◌==◌, ==_iff,
  ltb, arith, get_or, length, all_below, all_below_sound,
}
use tv_rq.Prelude.Int.{pos}
use tv_rq.Gf256.{oct_exp, oct_log, gf256_exp, gf256_log}
use tv_rq.Gf256.Poly.{times_x}

pub exp_at : ℕ → ℕ
exp_at e = get_or oct_exp e 0

pub log_at : ℕ → ℕ
log_at v = get_or oct_log v 0

length-oct_exp : length oct_exp ≡ 510
unfolding oct_exp
length-oct_exp = refl

pub exp_at_zero : exp_at 0 ≡ 1
unfolding exp_at oct_exp
exp_at_zero = refl

pub exp_at_255 : exp_at 255 ≡ 1
unfolding exp_at oct_exp
exp_at_255 = refl

abbrev next_ok : ℕ → Bool
next_ok e = exp_at (e + 1) == times_x (exp_at e)

exp_table : all_below 509 next_ok ≡ true
unfolding all_below exp_at oct_exp times_x
exp_table = refl

pub exp_at-suc : (e : ℕ) → e < 509 → exp_at (e + 1) ≡ times_x (exp_at e)
exp_at-suc e h = (==_iff _ _).0 (all_below_sound 509 next_ok e exp_table h)

abbrev log_ok : ℕ → Bool
log_ok v = v == 0 || exp_at (log_at v) == v && ltb (log_at v) 255

log_table : all_below 256 log_ok ≡ true
unfolding all_below exp_at oct_exp log_at oct_log
log_table = refl

pub exp_at-log_at : (v : ℕ) → 0 < v → v < 256 → exp_at (log_at v) ≡ v
exp_at-log_at v h k = ground (arith, all_below_sound 256 log_ok v log_table k)

pub log_at-lt : (v : ℕ) → 0 < v → v < 256 → log_at v < 255
log_at-lt v h k = ground (arith, all_below_sound 256 log_ok v log_table k)

abbrev exp_ok : ℕ → Bool
exp_ok e = log_at (exp_at e) == e && ltb 0 (exp_at e) && ltb (exp_at e) 256

exp_range_table : all_below 255 exp_ok ≡ true
unfolding all_below exp_at oct_exp log_at oct_log
exp_range_table = refl

pub log_at-exp_at : (e : ℕ) → e < 255 → log_at (exp_at e) ≡ e
log_at-exp_at e h = ground (arith, all_below_sound 255 exp_ok e exp_range_table h)

exp_bytes_table : all_below 510 (λ e. ltb (exp_at e) 256) ≡ true
unfolding all_below exp_at oct_exp
exp_bytes_table = refl

pub exp_at-lt : (e : ℕ) → e < 510 → exp_at e < 256
exp_at-lt e h = ltb→lt _ _ (all_below_sound 510 (λ e. ltb (exp_at e) 256) e exp_bytes_table h)

pub exp_at-pos : (e : ℕ) → e < 255 → 0 < exp_at e
exp_at-pos e h = ground (arith, all_below_sound 255 exp_ok e exp_range_table h)

pub gf256_exp_lem : (e : ℕ) → e < 510 → gf256_exp (pos e) ≡ some (exp_at e)
unfolding gf256_exp exp_at
gf256_exp_lem e h = get_elem?-eq-get_or oct_exp e 0 (omega (arith, length-oct_exp))

pub gf256_log_lem : (v : ℕ) → 0 < v → gf256_log v ≡ pos (log_at v)
unfolding gf256_log log_at
gf256_log_lem v h = ground arith
