-- ===== src/Harness/Breaker/States.antt =====
-- The states of CircuitBreaker: what its counters say in each, and how it recovers.
use vault_autounseal_operato.Prelude.{
  ℕ, zero, suc, ◌+◌, ◌≡◌, ◌≢◌, refl, ap, ◌∙◌, if_false, true, false, ◌&&◌, List, [], ◌∷◌, ℤ, pos,
  ltb_ℤ, leb_ℤ, All, length, Bool-cases, inl, inr, arith,
}
use vault_autounseal_operato.GoLib.Outcome.{Outcome, ok, err, panic}
use vault_autounseal_operato.Errors.{Err}
use vault_autounseal_operato.Strategy.World.{World}
use vault_autounseal_operato.Harness.Breaker.{
  CircuitBreaker, CircuitState, circuit_closed, circuit_open, circuit_half_open, record_failure,
  record_success, is_cooling, is_open, admitting, Operation, Executed, after_operation, execute,
  execute_each,
}

-- Closed: fewer failures than the threshold. Open: at least as many, and no success since. Half
-- open: at least as many failures, and fewer successes than close it again.
abbrev pub Fits : CircuitState → ℕ → ℕ → ℤ → ℤ → Type 0
Fits circuit_closed failures successes most least = ltb_ℤ (pos failures) most ≡ true
Fits circuit_open failures successes most least =
    (leb_ℤ most (pos failures) ≡ true) × (successes ≡ 0)
Fits circuit_half_open failures successes most least =
    (leb_ℤ most (pos failures) ≡ true) × (ltb_ℤ (pos successes) least ≡ true)

abbrev pub IsSane : CircuitBreaker → Type 0
IsSane cb = Fits cb.state cb.failures cb.successes cb.failure_threshold cb.success_threshold

-- Both thresholds are positive.
abbrev pub HasThresholds : CircuitBreaker → Type 0
HasThresholds cb =
    (ltb_ℤ (pos 0) cb.failure_threshold ≡ true) × (ltb_ℤ (pos 0) cb.success_threshold ≡ true)

record_failure-IsSane :
    (now : ℕ) (cb : CircuitBreaker)
    → IsSane cb
    → HasThresholds cb
    → IsSane (record_failure now cb) × HasThresholds (record_failure now cb)
unfolding record_failure
record_failure-IsSane now cb sane positive = ground arith

record_success-IsSane :
    (cb : CircuitBreaker)
    → cb.state ≢ circuit_open
    → IsSane cb
    → HasThresholds cb
    → IsSane (record_success cb) × HasThresholds (record_success cb)
unfolding record_success
record_success-IsSane cb closed sane positive = ground arith

abbrev pub Holds : CircuitBreaker → Type 0
Holds cb = IsSane cb × HasThresholds cb

admitting-working : (cb : CircuitBreaker) → (admitting cb).state ≢ circuit_open
admitting-working cb = ground arith

admitting-IsSane : (cb : CircuitBreaker) → Holds cb → Holds (admitting cb)
admitting-IsSane cb sane = ground arith

module _ {S : Type 0} where
  after_operation-IsSane :
      (cb : CircuitBreaker) (out : Outcome Err (Unit {0}) × World S)
      → cb.state ≢ circuit_open
      → Holds cb
      → Holds (after_operation cb out).1
  unfolding after_operation
  after_operation-IsSane cb (ok _, w) working (sane, positive) =
      record_success-IsSane cb working sane positive
  after_operation-IsSane cb (err e, w) working (sane, positive) =
      record_failure-IsSane w.now cb sane positive
  after_operation-IsSane cb (panic, w) working sane = sane

  pub execute-IsSane :
      (cb : CircuitBreaker) (operation : Operation S) (w : World S)
      → Holds cb
      → Holds (execute cb operation w).1
  unfolding execute
  execute-IsSane cb operation w sane = elim (Bool-cases (is_open cb && is_cooling w.now cb)) [
    | inl q ↦ rw q sane
    | inr q ↦ rw q (
        after_operation-IsSane (admitting cb) (operation w) (admitting-working cb)
          (admitting-IsSane cb sane))
  ]

-- Half open, with `done` successes and `left` to go.
record Recovering (left : ℕ) (cb : CircuitBreaker) : Type 0 where
  half_open : cb.state ≡ circuit_half_open
  to_go : cb.success_threshold ≡ pos (cb.successes + left)

one_success :
    (left : ℕ) (cb : CircuitBreaker)
    → Recovering (suc (suc left)) cb
    → Recovering (suc left) (record_success cb)
unfolding record_success
one_success left cb r = record {
  half_open = ground (arith, r.half_open, r.to_go);
  to_go = ground (arith, r.half_open, r.to_go);
}

last_success :
    (cb : CircuitBreaker)
    → Recovering 1 cb
    → ((record_success cb).state ≡ circuit_closed) × ((record_success cb).failures ≡ 0)
unfolding record_success
last_success cb r = ground (arith, r.half_open, r.to_go)

not_open : (cb : CircuitBreaker) → cb.state ≡ circuit_half_open → is_open cb ≡ false
not_open cb half = ground (arith, half)

-- The first call after the cooldown.
starts :
    (least : ℕ) (cb : CircuitBreaker)
    → cb.state ≡ circuit_open
    → IsSane cb
    → cb.success_threshold ≡ pos (suc least)
    → Recovering (suc least) (admitting cb)
starts least cb opened sane enough = record {
  half_open = ground (arith, opened);
  to_go = ground (arith, opened, sane, enough);
}

module _ {S : Type 0} where
  -- The operation returns nil, whatever the world is.
  abbrev pub Succeeds : Operation S → Type 0
  Succeeds operation = (w : World S) → (operation w).0 ≡ ok tt

  after_success :
      (cb : CircuitBreaker) (out : Outcome Err (Unit {0}) × World S)
      → out.0 ≡ ok tt
      → (after_operation cb out).1 ≡ record_success cb
  unfolding after_operation
  after_success cb (ok _, w) e = refl
  after_success cb (err x, w) e = ground (arith, e)
  after_success cb (panic, w) e = ground (arith, e)

  -- A call that is not refused, of an operation that succeeds.
  runs :
      (cb : CircuitBreaker) (operation : Operation S) (w : World S)
      → (is_open cb && is_cooling w.now cb) ≡ false
      → Succeeds operation
      → (execute cb operation w).1 ≡ record_success (admitting cb)
  unfolding execute
  runs cb operation w admitted works =
      ap (λ (out : Executed S). out.1) (if_false (is_open cb && is_cooling w.now cb) _ _ admitted)
      ∙ after_success (admitting cb) (operation w) (works w)

  half_open-runs :
      (cb : CircuitBreaker) (operation : Operation S) (w : World S)
      → cb.state ≡ circuit_half_open
      → Succeeds operation
      → (execute cb operation w).1 ≡ record_success cb
  half_open-runs cb operation w half works =
      let shut = not_open cb half in
      runs cb operation w (ap (λ b. b && is_cooling w.now cb) shut) works
      ∙ ap record_success (if_false (is_open cb) _ cb shut)

  recovers :
      (left : ℕ) (cb : CircuitBreaker) (operations : List (Operation S)) (w : World S)
      → Recovering (suc left) cb
      → All Succeeds operations
      → length operations ≡ suc left
      → let cb' = (execute_each cb operations w).0 in
        (cb'.state ≡ circuit_closed) × (cb'.failures ≡ 0)
  unfolding execute_each
  recovers left cb [] w r works h = absurd (omega arith)
  recovers zero cb (o ∷ []) w r works h =
      rw (half_open-runs cb o w r.half_open works.0) (last_success cb r)
  recovers zero cb (o ∷ p ∷ os) w r works h = absurd (omega arith)
  recovers (suc left) cb (o ∷ os) w r works h =
      recovers left (execute cb o w).1 os (execute cb o w).2
        (rw (half_open-runs cb o w r.half_open works.0) (one_success left cb r)) works.1
        (omega arith)

  open-runs :
      (cb : CircuitBreaker) (operation : Operation S) (w : World S)
      → cb.state ≡ circuit_open
      → is_cooling w.now cb ≡ false
      → Succeeds operation
      → (execute cb operation w).1 ≡ record_success (admitting cb)
  open-runs cb operation w opened over works =
      runs cb operation w (ground (arith, opened, over)) works

  -- An open breaker recovers: if the cooldown is over, then as many operations as the success threshold
  -- says, all of which succeed, leave it closed, with no failures counted.
  pub execute_each-recovers :
      (least : ℕ) (cb : CircuitBreaker) (operations : List (Operation S)) (w : World S)
      → cb.state ≡ circuit_open
      → IsSane cb
      → cb.success_threshold ≡ pos (suc least)
      → is_cooling w.now cb ≡ false
      → All Succeeds operations
      → length operations ≡ suc least
      → let cb' = (execute_each cb operations w).0 in
        (cb'.state ≡ circuit_closed) × (cb'.failures ≡ 0)
  unfolding execute_each
  execute_each-recovers least cb [] w opened sane enough over works h = absurd (omega arith)
  execute_each-recovers zero cb (o ∷ []) w opened sane enough over works h =
      rw (open-runs cb o w opened over works.0)
        (last_success (admitting cb) (starts 0 cb opened sane enough))
  execute_each-recovers zero cb (o ∷ p ∷ os) w opened sane enough over works h =
      absurd (omega arith)
  execute_each-recovers (suc least) cb (o ∷ os) w opened sane enough over works h =
      recovers least (execute cb o w).1 os (execute cb o w).2
        (rw (open-runs cb o w opened over works.0)
          (one_success least (admitting cb) (starts (suc least) cb opened sane enough)))
        works.1 (omega arith)
