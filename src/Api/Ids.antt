-- ===== src/Api/Ids.antt =====
-- The loop that appends identifiers to the work memory.
use tv_rq.Prelude.{
  ◌%◌, ℕ, zero, suc, ◌+◌, ◌^◌, ◌≤◌, ◌<◌, ◌≡◌, refl, ap, subst, min, leb, ◌-◌, if◌then◌else◌,
  Bool-cases, true, false, le→leb, lt→ltb, le→ltb, inl, inr, some, arith, ◌∙◌, Option, ◌>>=◌,
}
use tv_rq.Prelude.Int.{ℤ, pos, negsuc, pos_part, neg_part, ◌+ℤ◌, ◌-ℤ◌, ltb_ℤ}
use tv_rq.Memory.{for_range, write}
use tv_rq.Memory.Sweep.{write_same, write_other}
use tv_rq.Api.Words.{int32, int32_sum}
use tv_rq.Api.{WorkMem, Status, success, err_max_ids_reached, push_id, push_ids}
use native.Mathlib.Nat.{mod-eq_of_lt}

add_zero : (n : ℕ) → n + 0 ≡ n
add_zero n = omega arith

add_suc : (n j : ℕ) → n + suc j ≡ suc n + j
add_suc n j = omega arith

-- The work memory has room for `max` identifiers, a number that fits an `int`, and holds no more.
pub record Holds (w : WorkMem) (max : ℕ) : Type 0 where
  pub room : w.n_esi_max ≡ pos max
  pub inside : w.n_esi ≤ max
  pub max_int : max < 2 ^ 31

-- `w'` is `w` with the `n` identifiers from `beg` on appended, and nothing written elsewhere.
pub record Appended (w w' : WorkMem) (beg n : ℕ) : Type 0 where
  pub params : w'.params ≡ w.params
  pub n_esi_max : w'.n_esi_max ≡ w.n_esi_max
  pub n_esi : w'.n_esi ≡ w.n_esi + n
  pub kept : (j : ℕ) → j < w.n_esi → w'.esis j ≡ w.esis j
  pub added : (j : ℕ) → j < n → w'.esis (w.n_esi + j) ≡ beg + j
  pub behind : (j : ℕ) → w.n_esi + n ≤ j → w'.esis j ≡ w.esis j

-- The work memory after a round.
pushed : ℕ → ℕ → WorkMem → WorkMem
pushed beg i w = record {
  params = w.params;
  n_esi_max = w.n_esi_max;
  n_esi = suc w.n_esi;
  esis = write w.esis w.n_esi (beg + i);
}

push_id_step :
    (beg i : ℕ) (w : WorkMem) → beg + i < 2 ^ 31 → push_id (pos beg) i w ≡ some (pushed beg i w)
unfolding push_id pushed
push_id_step beg i w h =
    let small : (beg + i) % 2 ^ 32 ≡ beg + i = mod-eq_of_lt (omega arith) in
    rw (int32_sum beg i h, small)

first_id :
    (n beg i : ℕ) (w w' : WorkMem)
    → Appended (pushed beg i w) w' (beg + (i + 1)) n
    → (j : ℕ) → j < suc n
    → w'.esis (w.n_esi + j) ≡ beg + i + j
unfolding pushed
first_id n beg i w w' app zero l =
    ap w'.esis (add_zero w.n_esi)
    ∙ app.kept w.n_esi (omega arith)
    ∙ write_same w.esis w.n_esi (beg + i)
    ∙ omega arith
first_id n beg i w w' app (suc j) l =
    ap w'.esis (add_suc w.n_esi j) ∙ app.added j (omega arith) ∙ omega arith

appended :
    (n beg i : ℕ) (w w' : WorkMem)
    → Appended (pushed beg i w) w' (beg + (i + 1)) n
    → Appended w w' (beg + i) (suc n)
unfolding pushed
appended n beg i w w' app = record {
  params = app.params;
  n_esi_max = app.n_esi_max;
  n_esi = app.n_esi ∙ omega arith;
  kept = λ j l. app.kept j (omega arith) ∙ write_other w.esis w.n_esi (beg + i) j (omega arith);
  added = first_id n beg i w w' app;
  behind = λ j l. app.behind j (omega arith) ∙ write_other w.esis w.n_esi (beg + i) j (omega arith);
}

pub for_range-push_id :
    (n beg i : ℕ) (w : WorkMem)
    → beg + i + n ≤ 2 ^ 31
    → (w' : WorkMem) × (for_range n i (push_id (pos beg)) w ≡ some w') × Appended w w' (beg + i) n
unfolding for_range push_id
for_range-push_id zero beg i w h = (
  w,
  refl,
  record {
    params = refl;
    n_esi_max = refl;
    n_esi = omega arith;
    kept = λ j _. refl;
    added = λ j l. absurd (omega arith);
    behind = λ j _. refl;
  },
)
for_range-push_id (suc n) beg i w h =
    let (w', run, app) = for_range-push_id n beg (i + 1) (pushed beg i w) (omega arith) in
    (
      w',
      ap (λ o. o >>= for_range n (i + 1) (push_id (pos beg))) (push_id_step beg i w (omega arith))
          ∙ run,
      appended n beg i w w' app,
    )

pub push_ids_lem :
    (w : WorkMem) (max beg n : ℕ) (ret : Status)
    → Holds w max
    → beg + n ≤ 2 ^ 31
    → w.n_esi + n ≤ max
    → (w' : WorkMem) × (push_ids (pos beg) (pos n) ret w ≡ some (ret, w'))
      × Appended w w' beg n
      × Holds w' max
unfolding push_ids
push_ids_lem w max beg n ret holds ids fits =
    let (w', run, app) = for_range-push_id n beg 0 w (omega arith) in
    let app' : Appended w w' beg n = subst (λ b. Appended w w' b n) (add_zero beg) app in
    (
      w',
      ap (λ o. o >>= λ w'. some (ret, w')) run,
      app',
      record {
        room = app'.n_esi_max ∙ holds.room;
        inside = omega (arith, app'.n_esi);
        max_int = holds.max_int;
      },
    )

-- What the two calls that append identifiers do when there is room for `room`.
abbrev pub add_within : ℤ → WorkMem → ℤ → ℤ → Option (Status × WorkMem)
add_within room w beg add = int32 (pos w.n_esi +ℤ add) >>= λ total.
    if ltb_ℤ room total
    then push_ids beg (room -ℤ pos w.n_esi) err_max_ids_reached w
    else push_ids beg add success w

pub over_lem : (a b : ℕ) → a < b → ltb_ℤ (pos a) (pos b) ≡ true
over_lem a b h = lt→ltb (a + 0) (b + 0) (omega arith)

pub fits_lem : (a b : ℕ) → b ≤ a → ltb_ℤ (pos a) (pos b) ≡ false
fits_lem a b h = le→ltb (a + 0) (b + 0) (omega arith)

diff_pos : (a b : ℕ) → b ≤ a → pos a -ℤ pos b ≡ pos (a - b)
diff_pos a b h = rw (le→leb (0 + b) (a + 0) (omega arith)) (ap pos (omega arith))

-- The call's status, and the number of identifiers that it appends.
abbrev pub add_status : WorkMem → ℕ → ℕ → Status
add_status w max n = if leb (w.n_esi + n) max then success else err_max_ids_reached

add_within_over :
    (w : WorkMem) (max beg n : ℕ)
    → w.n_esi ≤ max
    → w.n_esi + n < 2 ^ 31
    → max < w.n_esi + n
    → (add_within (pos max) w (pos beg) (pos n)
        ≡ push_ids (pos beg) (pos (max - w.n_esi)) err_max_ids_reached w)
add_within_over w max beg n inside sum over =
    rw (int32_sum w.n_esi n sum, over_lem max (w.n_esi + n) over, diff_pos max w.n_esi inside) refl

add_within_fits :
    (w : WorkMem) (max beg n : ℕ)
    → w.n_esi + n < 2 ^ 31
    → w.n_esi + n ≤ max
    → (add_within (pos max) w (pos beg) (pos n) ≡ push_ids (pos beg) (pos n) success w)
add_within_fits w max beg n sum fits =
    rw (int32_sum w.n_esi n sum, fits_lem max (w.n_esi + n) fits) refl

add_within_neg :
    (w : WorkMem) (max beg n : ℕ)
    → w.n_esi ≤ max
    → max < 2 ^ 31
    → n < 2 ^ 31
    → (add_within (pos max) w (pos beg) (negsuc n) ≡ push_ids (pos beg) (negsuc n) success w)
add_within_neg w max beg n inside max_int low = elim (Bool-cases (leb (0 + suc n) (w.n_esi + 0))) [
  | inl t ↦
      rw
        (
          t,
          lt→ltb (w.n_esi + 0 - (0 + suc n)) (2 ^ 31) (omega arith),
          le→ltb (max + 0) (w.n_esi + 0 - (0 + suc n) + 0) (omega arith),
        )
        refl
  | inr f ↦
      rw
        (
          f,
          lt→ltb (0 + suc n - (w.n_esi + 0) - 1) (2 ^ 31) (omega arith),
          le→ltb (max + suc (0 + suc n - (w.n_esi + 0) - 1)) (0 + 0) (omega arith),
        )
        refl
]

-- A negative count is as good as none.
push_none :
    (beg n : ℕ) (w w' : WorkMem)
    → push_ids (pos beg) (pos 0) success w ≡ some (success, w')
    → push_ids (pos beg) (negsuc n) success w ≡ some (success, w')
unfolding push_ids
push_none beg n w w' e = e

pub add_within_lem :
    (w : WorkMem) (max beg : ℕ) (add : ℤ)
    → Holds w max
    → w.n_esi + pos_part add < 2 ^ 31
    → neg_part add ≤ 2 ^ 31
    → beg + pos_part add ≤ 2 ^ 31
    → (w' : WorkMem) × (add_within w.n_esi_max w (pos beg) add
        ≡ some (add_status w max (pos_part add), w'))
      × Appended w w' beg (min (pos_part add) (max - w.n_esi))
      × Holds w' max
add_within_lem w max beg (pos n) holds sum low ids = elim (Bool-cases (leb (w.n_esi + n) max)) [
  | inl fits ↦
      let (w', run, app, after) = push_ids_lem w max beg n success holds ids (ground arith) in
      (
        w',
        ap (λ m. add_within m w (pos beg) (pos n)) holds.room
            ∙ add_within_fits w max beg n sum (ground arith)
            ∙ run
            ∙ ap (λ r. some (r, w')) (rw fits refl),
        subst (Appended w w' beg) (ground arith) app,
        after,
      )
  | inr over ↦
      let (w', run, app, after) =
        push_ids_lem w max beg (max - w.n_esi) err_max_ids_reached holds
          (ground (arith, holds.inside)) (omega (arith, holds.inside)) in
      (
        w',
        ap (λ m. add_within m w (pos beg) (pos n)) holds.room
            ∙ add_within_over w max beg n holds.inside sum (ground arith)
            ∙ run
            ∙ ap (λ r. some (r, w')) (rw over refl),
        subst (Appended w w' beg) (ground arith) app,
        after,
      )
]
add_within_lem w max beg (negsuc n) holds sum low ids =
    let (w', run, app, after) =
      push_ids_lem w max beg 0 success holds (omega arith) (omega (arith, holds.inside)) in
    (
      w',
      ap (λ m. add_within m w (pos beg) (negsuc n)) holds.room
          ∙ add_within_neg w max beg n holds.inside holds.max_int (omega arith)
          ∙ push_none beg n w w' run
          ∙ ap (λ r. some (r, w'))
              (rw (le→leb (w.n_esi + 0) max (omega (arith, holds.inside))) refl),
      subst (Appended w w' beg) (omega arith) app,
      after,
    )
