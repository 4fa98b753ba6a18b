-- ===== src/Harness/Breaker.antt =====
-- CircuitBreaker of pkg/vault/integration_framework.go. Execute holds the mutex throughout, so that calls
-- come one at a time. The operation is a function on a world, of which only the clock is looked at.
pub mod States
pub mod Tally
use vault_autounseal_operato.Prelude.{
  ℕ, suc, ◌+◌, ◌-◌, Bool, true, false, ◌&&◌, List, [], ◌∷◌, ℤ, pos, ltb_ℤ, leb_ℤ, if◌then◌else◌,
}
use vault_autounseal_operato.GoLib.Strings.{Bytes}
use vault_autounseal_operato.GoLib.Outcome.{Outcome, ok, err, panic}
use vault_autounseal_operato.Errors.{Err}
use vault_autounseal_operato.Strategy.World.{World}

-- The fields of IntegrationTestConfig, durations in nanoseconds.
pub record IntegrationTestConfig : Type 0 where
  pub quick_timeout : ℕ
  pub operation_timeout : ℕ
  pub max_total_time : ℕ
  pub failure_threshold : ℤ
  pub success_threshold : ℤ
  pub cooldown_period : ℤ
  pub health_check_interval : ℕ
  pub max_unhealthy_time : ℕ
  pub max_concurrency : ℤ

abbrev pub default_integration_config : IntegrationTestConfig
default_integration_config = record {
  quick_timeout = 2_000_000_000;
  operation_timeout = 5_000_000_000;
  max_total_time = 30_000_000_000;
  failure_threshold = pos 3;
  success_threshold = pos 2;
  cooldown_period = pos 1_000_000_000;
  health_check_interval = 500_000_000;
  max_unhealthy_time = 10_000_000_000;
  max_concurrency = pos 5;
}

pub data CircuitState : Type 0 where
  circuit_closed circuit_open circuit_half_open : CircuitState

-- The two counters do not reach 2^63.
pub record CircuitBreaker : Type 0 where
  pub name : Bytes
  pub failures : ℕ
  pub successes : ℕ
  pub last_failure_time : ℕ
  pub state : CircuitState
  pub failure_threshold : ℤ
  pub success_threshold : ℤ
  pub cooldown_period : ℤ

abbrev pub new_circuit_breaker : Bytes → IntegrationTestConfig → CircuitBreaker
new_circuit_breaker name config = record {
  name = name;
  failures = 0;
  successes = 0;
  last_failure_time = 0;
  state = circuit_closed;
  failure_threshold = config.failure_threshold;
  success_threshold = config.success_threshold;
  cooldown_period = config.cooldown_period;
}

-- The errors of Execute, with the breaker's name or the operation's error.
pub data BreakerError : Type 0 where
  failing_fast : Bytes → BreakerError
  operation_failed : Err → BreakerError

abbrev pub is_open : CircuitBreaker → Bool
is_open cb = elim cb.state [
  | circuit_open ↦ true
  | circuit_closed ↦ false
  | circuit_half_open ↦ false
]

abbrev pub is_half_open : CircuitBreaker → Bool
is_half_open cb = elim cb.state [
  | circuit_open ↦ false
  | circuit_closed ↦ false
  | circuit_half_open ↦ true
]

unfoldable pub record_failure : ℕ → CircuitBreaker → CircuitBreaker
record_failure now cb =
    let cb' = record cb { failures = suc cb.failures; last_failure_time = now } in
    if leb_ℤ cb.failure_threshold (pos (suc cb.failures))
    then record cb' { state = circuit_open; successes = 0 }
    else cb'

unfoldable pub record_success : CircuitBreaker → CircuitBreaker
record_success cb =
    let cb' = record cb { successes = suc cb.successes } in
    if is_half_open cb && leb_ℤ cb.success_threshold (pos (suc cb.successes))
    then record cb' { state = circuit_closed; failures = 0 }
    else cb'

-- `time.Since(cb.lastFailureTime) < cb.cooldownPeriod`; the clock does not run backwards.
unfoldable pub is_cooling : ℕ → CircuitBreaker → Bool
is_cooling now cb = ltb_ℤ (pos (now - cb.last_failure_time)) cb.cooldown_period

abbrev pub Operation : Type 0 → Type 0
Operation S = World S → Outcome Err (Unit {0}) × World S

-- What Execute leaves: the result, the breaker and the world.
abbrev pub Executed : Type 0 → Type 0
Executed S = Outcome BreakerError (Unit {0}) × CircuitBreaker × World S

-- The breaker under which an operation is run: an open one becomes half open.
abbrev pub admitting : CircuitBreaker → CircuitBreaker
admitting cb = if is_open cb then record cb { state = circuit_half_open } else cb

module _ {S : Type 0} where
  -- After the operation. A panic of it leaves the breaker as it is.
  unfoldable pub after_operation : CircuitBreaker → Outcome Err (Unit {0}) × World S → Executed S
  unfolding record_failure record_success
  after_operation cb (ok _, w) = (ok tt, record_success cb, w)
  after_operation cb (err e, w) = (err (operation_failed e), record_failure w.now cb, w)
  after_operation cb (panic, w) = (panic, cb, w)

  unfoldable pub execute : CircuitBreaker → Operation S → World S → Executed S
  unfolding after_operation is_cooling
  execute cb operation w =
      if is_open cb && is_cooling w.now cb
      then (err (failing_fast cb.name), cb, w)
      else after_operation (admitting cb) (operation w)

  -- A sequence of calls.
  unfoldable pub execute_each :
      CircuitBreaker → List (Operation S) → World S → CircuitBreaker × World S
  unfolding execute
  execute_each cb [] w = (cb, w)
  execute_each cb (operation ∷ operations) w =
      let (_, cb', w') = execute cb operation w in execute_each cb' operations w'
