-- ===== src/App/Restart.antt =====
-- redog/src/main.rs: `run_listener_with_restart`. The outcomes of the listener are a function: the
-- one of the call after `n` failed ones is at `n`. The run is described by the delays that it
-- sleeps, in milliseconds, and by its end.
use redog.Common.{
  ℕ, zero, suc, ◌+◌, ◌*◌, ◌^◌, ◌-◌, ◌≤◌, false, List, [], ◌∷◌, Option, none, some, ltb,
  if◌then◌else◌, ◌≡◌, refl, ap, ◌∙◌, arith, ◌⊎◌, inl, inr, Bool-cases,
}
use redog.Common.Masks.{two_pow-suc}
use redog.Core.Error.{Error, Result, ok, err, Result-cases}

abbrev pub max_listener_retries : ℕ
max_listener_retries = 10

abbrev pub listener_retry_base_delay_ms : ℕ
listener_retry_base_delay_ms = 500

pub data Ending : Type 0 where
  exited_normally gave_up : Ending

-- `2u64.saturating_pow(n)`
unfoldable pub saturating_pow_two : ℕ → ℕ
saturating_pow_two n = if ltb (2 ^ n) 18446744073709551616 then 2 ^ n else 18446744073709551615

abbrev slept : ℕ → Option (List ℕ × Ending) → Option (List ℕ × Ending)
slept delay none = none
slept delay (some (delays, ending)) = some (delay ∷ delays, ending)

-- The loop, with `retries` failures behind it; `none` where the fuel ends.
unfoldable pub run_listener_with_restart :
    ℕ → (ℕ → Result (Unit {0})) → ℕ → Option (List ℕ × Ending)
unfolding saturating_pow_two
run_listener_with_restart zero make_listener retries = none
run_listener_with_restart (suc fuel) make_listener retries =
    let rest = run_listener_with_restart fuel make_listener (retries + 1) in
    elim (make_listener retries) [
      | ok _ ↦ some ([], exited_normally)
      | err e ↦
          if ltb max_listener_retries (retries + 1)
          then some ([], gave_up)
          else slept (listener_retry_base_delay_ms * saturating_pow_two (retries + 1 - 1)) rest
    ]

-- The delays before the next `n` calls, `from` failures having gone before.
abbrev pub doubling : ℕ → ℕ → List ℕ
doubling from zero = []
doubling from (suc n) = 500 * 2 ^ from ∷ doubling (suc from) n

-- The calls after `from` up to, and not with, the one after `n` more all fail.
abbrev pub Failed : (ℕ → Result (Unit {0})) → ℕ → ℕ → Type 0
Failed make from zero = Unit
Failed make from (suc n) = ((e : Error) × (make from ≡ err e)) × Failed make (suc from) n

-- A run from `from` failures on: some calls fail, each followed by a delay twice the one before,
-- and then one exits, or the eleventh failure ends it.
pub record RunsTo (make : ℕ → Result (Unit {0})) (from : ℕ) (run : Option (List ℕ × Ending))
    : Type 0 where
  pub failures : ℕ
  pub bounded : from + failures ≤ 10
  pub ending : Ending
  pub returns : run ≡ some (doubling from failures, ending)
  pub failed : Failed make from failures
  pub ends :
      ((ending ≡ exited_normally) × (make (from + failures) ≡ ok tt))
      ⊎ ((ending ≡ gave_up)
          × (from + failures ≡ 10)
          × ((e : Error) × (make (from + failures) ≡ err e)))

two_pow_le : (n k : ℕ) → 2 ^ n ≤ 2 ^ (n + k)
two_pow_le n zero = omega (arith, ap (λ (t : ℕ). 2 ^ t) (let e : n + 0 ≡ n = omega arith in e))
two_pow_le n (suc k) =
    let e : 2 ^ (n + suc k) ≡ 2 ^ suc (n + k) = ap (λ (t : ℕ). 2 ^ t) (omega arith) in
    omega (arith, two_pow_le n k, two_pow-suc (n + k), e)

power_fits : (n : ℕ) → n ≤ 10 → saturating_pow_two n ≡ 2 ^ n
unfolding saturating_pow_two
power_fits n h =
    let whole : n + (10 - n) ≡ 10 = omega arith in
    let e : 2 ^ (n + (10 - n)) ≡ 2 ^ 10 = ap (λ (t : ℕ). 2 ^ t) whole in
    let low : 2 ^ n ≤ 1024 = omega (arith, two_pow_le n (10 - n), e) in ground (arith, low)

-- One more failure in front of a run that goes on.
fails_first :
    (make : ℕ → Result (Unit {0})) (fuel from : ℕ) {x : Error}
    → make from ≡ err x
    → from + 1 ≤ 10
    → run_listener_with_restart (suc fuel) make from
      ≡ slept (500 * 2 ^ from) (run_listener_with_restart fuel make (suc from))
unfolding run_listener_with_restart
fails_first make fuel from fails h =
    let more : ltb 10 (from + 1) ≡ false = ground arith in
    let one : from + 1 ≡ suc from = omega arith in
    let back : suc from - 1 ≡ from = omega arith in
    rw (fails, run_listener_with_restart)
      (rw more (rw one (rw back (rw (power_fits from (omega arith)) refl))))

run_from :
    (make : ℕ → Result (Unit {0})) (fuel from : ℕ)
    → from + fuel ≡ 11
    → from ≤ 10
    → RunsTo make from (run_listener_with_restart fuel make from)
unfolding run_listener_with_restart
run_from make zero from e h = absurd (omega arith)
run_from make (suc fuel) from e h = elim (Result-cases (make from)) [
  | inl (done, exits) ↦
      rw (exits, run_listener_with_restart)
        (record {
          failures = 0;
          bounded = omega arith;
          ending = exited_normally;
          returns = refl;
          failed = tt;
          ends = inl (refl, ap make (omega arith) ∙ exits);
        })
  | inr (x, fails) ↦ elim (Bool-cases (ltb 10 (from + 1))) [
    | inl last ↦
        rw (fails, run_listener_with_restart)
          (rw last (record {
            failures = 0;
            bounded = omega arith;
            ending = gave_up;
            returns = refl;
            failed = tt;
            ends = inr (refl, ground arith, (x, ap make (omega arith) ∙ fails));
          }))
    | inr more ↦
        let ih = run_from make fuel (suc from) (omega arith) (ground arith) in
        rw (fails_first make fuel from fails (ground arith)) (record {
          failures = suc ih.failures;
          bounded = omega (arith, ih.bounded);
          ending = ih.ending;
          returns = rw ih.returns refl;
          failed = ((x, fails), ih.failed);
          ends =
              let shift : from + suc ih.failures ≡ suc from + ih.failures = omega arith in
              rw shift ih.ends;
        })
  ]
]

-- Whatever the outcomes of the listener, a run returns with fuel for eleven calls: some calls
-- fail, ten at most followed by a delay, the first of 500 milliseconds and each twice the one
-- before; then a call exits normally and the run with it, or the eleventh call in a row fails and
-- the run gives up.
pub run_listener_with_restart-RunsTo :
    (make : ℕ → Result (Unit {0})) → RunsTo make 0 (run_listener_with_restart 11 make 0)
run_listener_with_restart-RunsTo make = run_from make 11 0 (omega arith) (omega arith)
