-- ===== src/Harness/Breaker/Tally.antt =====
-- CircuitBreaker of pkg/vault/integration_framework.go: its state against what its calls have returned.
use vault_autounseal_operato.Prelude.{
  ℕ, suc, ◌≡◌, refl, ap, ◌∙◌, true, false, Bool, not, ◌&&◌, List, [], ◌∷◌, ℤ, pos, ltb_ℤ,
  Bool-cases, inl, inr, arith, if◌then◌else◌,
}
use vault_autounseal_operato.GoLib.Strings.{Bytes}
use vault_autounseal_operato.GoLib.Outcome.{Outcome, ok, err, panic}
use vault_autounseal_operato.Errors.{Err}
use vault_autounseal_operato.Strategy.World.{World}
use vault_autounseal_operato.Harness.Breaker.{
  IntegrationTestConfig, CircuitBreaker, CircuitState, circuit_closed, circuit_open, BreakerError,
  failing_fast, operation_failed, new_circuit_breaker, record_failure, record_success, is_cooling,
  is_open, admitting, Operation, after_operation, execute, execute_each,
}
use vault_autounseal_operato.Harness.Breaker.States.{Fits, Holds, execute-IsSane}

-- What a call returned, and the state in which it left the breaker.
abbrev pub Entry : Type 0
Entry = Outcome BreakerError (Unit {0}) × CircuitState

-- The entries of a sequence of calls, oldest first.
unfoldable pub log : {S : Type 0} → CircuitBreaker → List (Operation S) → World S → List Entry
unfolding execute
log cb [] w = []
log cb (operation ∷ operations) w =
    let (o, cb', w') = execute cb operation w in (o, cb'.state) ∷ log cb' operations w'

abbrev pub is_closed : CircuitState → Bool
is_closed circuit_closed = true
is_closed _ = false

abbrev pub is_opened : CircuitState → Bool
is_opened circuit_open = true
is_opened _ = false

-- The operations that failed since the breaker was last closed: a success that closes it starts the
-- count again, and a call that is refused or panics does not count.
abbrev pub count_failed : CircuitState → Entry → ℕ → ℕ
count_failed before (ok _, after) n = if not (is_closed before) && is_closed after then 0 else n
count_failed before (err (operation_failed e), after) n = suc n
count_failed before (err (failing_fast name), after) n = n
count_failed before (panic, after) n = n

-- Those that succeeded since it was last opened.
abbrev pub count_succeeded : Entry → ℕ → ℕ
count_succeeded (ok _, after) n = suc n
count_succeeded (err (operation_failed e), after) n = if is_opened after then 0 else n
count_succeeded (err (failing_fast name), after) n = n
count_succeeded (panic, after) n = n

unfoldable pub failed_since : CircuitState → ℕ → List Entry → ℕ
failed_since before n [] = n
failed_since before n (e ∷ es) = failed_since e.1 (count_failed before e n) es

unfoldable pub succeeded_since : ℕ → List Entry → ℕ
succeeded_since n [] = n
succeeded_since n (e ∷ es) = succeeded_since (count_succeeded e n) es

-- What a call does to the counters is what its entry says, and the thresholds stay.
record Told (cb cb' : CircuitBreaker) (o : Outcome BreakerError (Unit {0})) : Type 0 where
  failed : count_failed cb.state (o, cb'.state) cb.failures ≡ cb'.failures
  succeeded : count_succeeded (o, cb'.state) cb.successes ≡ cb'.successes
  most : cb'.failure_threshold ≡ cb.failure_threshold
  least : cb'.success_threshold ≡ cb.success_threshold

success-Told : (cb : CircuitBreaker) → Told cb (record_success (admitting cb)) (ok tt)
unfolding record_success
success-Told cb = record {
  failed = ground arith;
  succeeded = ground arith;
  most = ground arith;
  least = ground arith;
}

failure-Told :
    (now : ℕ) (cb : CircuitBreaker) (e : Err)
    → Holds cb
    → Told cb (record_failure now (admitting cb)) (err (operation_failed e))
unfolding record_failure
failure-Told now cb e (sane, positive) = record {
  failed = ground arith;
  succeeded = ground (arith, sane);
  most = ground arith;
  least = ground arith;
}

panic-Told : (cb : CircuitBreaker) → Told cb (admitting cb) panic
panic-Told cb = record {
  failed = ground arith;
  succeeded = ground arith;
  most = ground arith;
  least = ground arith;
}

module _ {S : Type 0} where
  after_operation-Told :
      (cb : CircuitBreaker) (out : Outcome Err (Unit {0}) × World S)
      → Holds cb
      → let (o, cb', w') = after_operation (admitting cb) out in Told cb cb' o
  unfolding after_operation
  after_operation-Told cb (ok _, w) sane = success-Told cb
  after_operation-Told cb (err e, w) sane = failure-Told w.now cb e sane
  after_operation-Told cb (panic, w) sane = panic-Told cb

  execute-Told :
      (cb : CircuitBreaker) (operation : Operation S) (w : World S)
      → Holds cb
      → let (o, cb', w') = execute cb operation w in Told cb cb' o
  unfolding execute
  execute-Told cb operation w sane = elim (Bool-cases (is_open cb && is_cooling w.now cb)) [
    | inl q ↦ rw q (record { failed = refl; succeeded = refl; most = refl; least = refl })
    | inr q ↦ rw q (after_operation-Told cb (operation w) sane)
  ]

  each-Fits :
      (cb : CircuitBreaker) (operations : List (Operation S)) (w : World S) (n m : ℕ)
      (most least : ℤ)
      → n ≡ cb.failures
      → m ≡ cb.successes
      → cb.failure_threshold ≡ most
      → cb.success_threshold ≡ least
      → Holds cb
      → Fits
          (execute_each cb operations w).0.state
          (failed_since cb.state n (log cb operations w))
          (succeeded_since m (log cb operations w))
          most
          least
  unfolding execute_each log failed_since succeeded_since
  each-Fits cb [] w n m most least en em e1 e2 (sane, positive) =
      ground (arith, sane, en, em, e1, e2)
  each-Fits cb (operation ∷ operations) w n m most least en em e1 e2 sane =
      let (o, cb', w') = execute cb operation w in
      let told = execute-Told cb operation w sane in
      each-Fits cb' operations w' (count_failed cb.state (o, cb'.state) n)
        (count_succeeded (o, cb'.state) m) most least
        (ap (count_failed cb.state (o, cb'.state)) en ∙ told.failed)
        (ap (count_succeeded (o, cb'.state)) em ∙ told.succeeded) (told.most ∙ e1) (told.least ∙ e2)
        (execute-IsSane cb operation w sane)

  -- Whatever operations a new breaker has run, whether they succeeded, failed or panicked, the log of
  -- what its calls returned tells its state: while it is closed, fewer operations have failed since it
  -- was last closed than the failure threshold says; while it is open, at least as many have, and none
  -- has succeeded since it was opened; while it is half open, at least as many have failed, and fewer
  -- have succeeded since it was opened than the success threshold says. Both thresholds are positive.
  pub execute_each-Fits :
      (name : Bytes) (config : IntegrationTestConfig) (operations : List (Operation S))
      (w : World S)
      → ltb_ℤ (pos 0) config.failure_threshold ≡ true
      → ltb_ℤ (pos 0) config.success_threshold ≡ true
      → let entries = log (new_circuit_breaker name config) operations w in
        Fits
          (execute_each (new_circuit_breaker name config) operations w).0.state
          (failed_since circuit_closed 0 entries)
          (succeeded_since 0 entries)
          config.failure_threshold
          config.success_threshold
  execute_each-Fits name config operations w most least =
      each-Fits (new_circuit_breaker name config) operations w 0 0 config.failure_threshold
        config.success_threshold refl refl refl refl (most, (most, least))
