-- ===== src/Tests/Harness.antt =====
-- The harness of the integration tests at concrete inputs.
use vault_autounseal_operato.Prelude.{ℕ, ◌≡◌, refl, true, false, List, [], ◌∷◌, length, pos, arith}
use vault_autounseal_operato.GoLib.Strings.{codes}
use vault_autounseal_operato.GoLib.Outcome.{ok, err}
use vault_autounseal_operato.Errors.{nil, external}
use vault_autounseal_operato.Strategy.World.{World, sleep}
use vault_autounseal_operato.Harness.Breaker.{
  CircuitBreaker, default_integration_config, new_circuit_breaker, circuit_closed, circuit_open,
  Operation, execute_each, is_cooling,
}
use vault_autounseal_operato.Harness.Breaker.States.{Fits, execute_each-recovers}
use vault_autounseal_operato.Harness.Breaker.Tally.{
  log, failed_since, succeeded_since, execute_each-Fits,
}
use vault_autounseal_operato.Harness.Health.{HealthChecker, wait_for_healthy, get_healthy_clients}
use vault_autounseal_operato.Harness.Health.Waiting.{Answered, wait_for_healthy-Answered}
use vault_autounseal_operato.Tests.Fixtures.{forever, sealed_world}

abbrev works : Operation ℕ
works w = (ok tt, sleep 10 w)

abbrev fails : Operation ℕ
fails w = (err (external 1), sleep 10 w)

abbrev breaker : CircuitBreaker
breaker = new_circuit_breaker (codes "demo") default_integration_config

-- Three failures open a new breaker, with successes between them too.
third_failure_opens :
    (execute_each breaker (fails ∷ works ∷ fails ∷ works ∷ fails ∷ []) sealed_world).0.state
    ≡ circuit_open
unfolding execute_each
third_failure_opens = refl

abbrev ups_and_downs : List (Operation ℕ)
ups_and_downs = fails ∷ works ∷ fails ∷ fails ∷ works ∷ []

execute_each-Fits_example :
    let entries = log breaker ups_and_downs sealed_world in
    Fits
      (execute_each breaker ups_and_downs sealed_world).0.state
      (failed_since circuit_closed 0 entries)
      (succeeded_since 0 entries)
      (pos 3)
      (pos 2)
execute_each-Fits_example =
    execute_each-Fits (codes "demo") default_integration_config ups_and_downs sealed_world refl refl

abbrev tripped : CircuitBreaker
tripped = record breaker { failures = 3; last_failure_time = 5; state = circuit_open }

abbrev later_world : World ℕ
later_world = record sealed_world { now = 2_000_000_000 }

cooled : is_cooling 2_000_000_000 tripped ≡ false
unfolding is_cooling
cooled = refl

execute_each-recovers_example :
    ((execute_each tripped (works ∷ works ∷ []) later_world).0.state ≡ circuit_closed)
    × ((execute_each tripped (works ∷ works ∷ []) later_world).0.failures ≡ 0)
execute_each-recovers_example =
    execute_each-recovers 1 tripped (works ∷ works ∷ []) later_world refl (refl, refl) refl cooled
      ((λ w. refl), ((λ w. refl), tt)) refl

abbrev two_clients : HealthChecker ℕ
two_clients = record {
  config = default_integration_config;
  entries =
      record { name = codes "a"; client = λ ctx w. (external 2, w); healthy = true }
      ∷ record { name = codes "b"; client = λ ctx w. (nil, sleep 3 w); healthy = false }
      ∷ [];
}

wait_for_healthy-Answered_example :
    let out = wait_for_healthy (external 9) forever two_clients sealed_world in
    Answered out.0 (length (get_healthy_clients out.1.entries)) (length two_clients.entries)
wait_for_healthy-Answered_example =
    wait_for_healthy-Answered (external 9) forever two_clients sealed_world (omega arith)
