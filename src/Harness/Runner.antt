-- ===== src/Harness/Runner.antt =====
-- IntegrationTestRunner of pkg/vault/integration_framework.go. Tests come one at a time, so that a slot
-- of the semaphore is free if it has any.
use vault_autounseal_operato.Prelude.{
  ◌+◌, Bool, ◌&&◌, not, Option, none, some, List, [], ◌∷◌, ℤ, pos, ltb_ℤ, max, if◌then◌else◌,
}
use vault_autounseal_operato.GoLib.Strings.{Bytes, codes}
use vault_autounseal_operato.GoLib.Outcome.{Outcome, ok, err, panic}
use vault_autounseal_operato.Errors.{Err}
use vault_autounseal_operato.Strategy.World.{World, Ctx, clamp, is_done}
use vault_autounseal_operato.Controller.Reconcile.{earlier}
use vault_autounseal_operato.Harness.Breaker.{
  IntegrationTestConfig, default_integration_config, CircuitBreaker, new_circuit_breaker, is_open,
  Operation, Executed, BreakerError, execute,
}
use vault_autounseal_operato.Harness.Health.{
  HealthChecker, Waited, became_healthy, context_ended, timed_out, ticker_panicked, out_of_fuel,
  wait_for_healthy,
}

pub record IntegrationTestRunner (S : Type 0) : Type 0 where
  pub config : IntegrationTestConfig
  pub checker : HealthChecker S
  pub breaker : CircuitBreaker

-- NewIntegrationTestRunner: the default configuration for nil.
unfoldable pub new_integration_test_runner :
    {S : Type 0} → Option IntegrationTestConfig → IntegrationTestRunner S
new_integration_test_runner none = record {
  config = default_integration_config;
  checker = record { config = default_integration_config; entries = [] };
  breaker = new_circuit_breaker (codes "integration-tests") default_integration_config;
}
new_integration_test_runner (some config) = record {
  config = config;
  checker = record { config = config; entries = [] };
  breaker = new_circuit_breaker (codes "integration-tests") config;
}

-- The errors of RunTest and RunScenarios, with the name of the test or the scenario.
pub data RunnerError : Type 0 where
  no_healthy_clients : Bytes → Waited → RunnerError
  no_slot : Bytes → RunnerError
  by_breaker : BreakerError → RunnerError
  breaker_is_open : Bytes → RunnerError
  setup_failed : Bytes → Err → RunnerError
  cleanup_failed : Bytes → Err → RunnerError
  error_expected : Bytes → RunnerError
  scenario_failed : Bytes → RunnerError → RunnerError

-- What a run leaves.
abbrev pub Ran : Type 0 → Type 0
Ran S = Outcome RunnerError (Unit {0}) × IntegrationTestRunner S × World S

-- A step of a test or a scenario, under a context.
abbrev pub Step : Type 0 → Type 0
Step S = Ctx → Operation S

pub record TestScenario (S : Type 0) : Type 0 where
  pub name : Bytes
  pub setup : Option (Step S)
  pub run : Step S
  pub cleanup : Option (Step S)
  pub expect_error : Bool
  pub timeout : ℤ

module _ {S : Type 0} (deadline_exceeded : Err) where
  abbrev pub of_breaker : IntegrationTestRunner S → Executed S → Ran S
  of_breaker itr (ok _, cb, w) = (ok tt, record itr { breaker = cb }, w)
  of_breaker itr (err e, cb, w) = (err (by_breaker e), record itr { breaker = cb }, w)
  of_breaker itr (panic, cb, w) = (panic, record itr { breaker = cb }, w)

  -- From the semaphore on. Without a slot the `select` waits for the end of the context; with both
  -- ready it picks one.
  unfoldable pub in_slot : Bytes → Step S → Ctx → IntegrationTestRunner S → World S → Ran S
  in_slot name test ctx itr w =
      let timed : Operation S =
        λ w1. test (earlier ctx (w1.now + itr.config.operation_timeout) deadline_exceeded) w1 in
      let ended : World S = elim ctx.done_at [
        | none ↦ w
        | some d ↦ record w { now = max d w.now }
      ] in
      if not (ltb_ℤ (pos 0) itr.config.max_concurrency)
      then (err (no_slot name), itr, ended)
      else if is_done ctx w && ctx.prefers_done
      then (err (no_slot name), itr, w)
      else of_breaker itr (execute itr.breaker timed w)

  abbrev pub after_wait :
      Bytes → Step S → Ctx → IntegrationTestRunner S → Waited × HealthChecker S × World S → Ran S
  after_wait name test ctx itr (became_healthy, hc, w) =
      in_slot name test ctx (record itr { checker = hc }) w
  after_wait name test ctx itr (ticker_panicked, hc, w) = (panic, record itr { checker = hc }, w)
  after_wait name test ctx itr (context_ended e, hc, w) =
      (err (no_healthy_clients name (context_ended e)), record itr { checker = hc }, w)
  after_wait name test ctx itr (timed_out d, hc, w) =
      (err (no_healthy_clients name (timed_out d)), record itr { checker = hc }, w)
  after_wait name test ctx itr (out_of_fuel, hc, w) =
      (err (no_healthy_clients name out_of_fuel), record itr { checker = hc }, w)

  unfoldable pub run_test : Bytes → Step S → Ctx → IntegrationTestRunner S → World S → Ran S
  unfolding in_slot
  run_test name test ctx itr w =
      let test_ctx = earlier ctx (w.now + itr.config.max_total_time) deadline_exceeded in
      after_wait name test test_ctx itr (wait_for_healthy deadline_exceeded test_ctx itr.checker w)

  abbrev pub scenario_ctx : Ctx → TestScenario S → World S → Ctx
  scenario_ctx ctx s w =
      if ltb_ℤ (pos 0) s.timeout
      then earlier ctx (w.now + clamp s.timeout) deadline_exceeded
      else ctx

  -- `Setup` or `Cleanup`, if there is one.
  abbrev pub optional_step : Option (Step S) → Ctx → World S → Outcome Err (Unit {0}) × World S
  optional_step none ctx w = (ok tt, w)
  optional_step (some step) ctx w = step ctx w

  -- An error of Cleanup counts where the test had none.
  abbrev pub with_cleanup :
      TestScenario S
      → Outcome RunnerError (Unit {0})
      → Outcome Err (Unit {0})
      → Outcome RunnerError (Unit {0})
  with_cleanup s panic c = panic
  with_cleanup s (err e) panic = panic
  with_cleanup s (err e) (ok _) = err e
  with_cleanup s (err e) (err c) = err e
  with_cleanup s (ok _) panic = panic
  with_cleanup s (ok _) (ok _) = ok tt
  with_cleanup s (ok _) (err c) = err (cleanup_failed s.name c)

  -- Whether the error is what the scenario expects.
  abbrev pub as_expected :
      TestScenario S → Outcome RunnerError (Unit {0}) → Outcome RunnerError (Unit {0})
  as_expected s panic = panic
  as_expected s (ok _) = if s.expect_error then err (error_expected s.name) else ok tt
  as_expected s (err e) = if s.expect_error then ok tt else err (scenario_failed s.name e)

  -- The test of a scenario and its cleanup, which a panic of the test leaves out.
  abbrev pub then_cleanup : TestScenario S → Ctx → Ran S → Ran S
  then_cleanup s ctx (panic, itr, w) = (panic, itr, w)
  then_cleanup s ctx (ok _, itr, w) =
      let (c, w1) = optional_step s.cleanup ctx w in
      (as_expected s (with_cleanup s (ok tt) c), itr, w1)
  then_cleanup s ctx (err e, itr, w) =
      let (c, w1) = optional_step s.cleanup ctx w in
      (as_expected s (with_cleanup s (err e) c), itr, w1)

  abbrev pub after_setup :
      TestScenario S → Ctx → IntegrationTestRunner S → Outcome Err (Unit {0}) × World S → Ran S
  after_setup s ctx itr (ok _, w) = then_cleanup s ctx (run_test s.name s.run ctx itr w)
  after_setup s ctx itr (err e, w) = (err (setup_failed s.name e), itr, w)
  after_setup s ctx itr (panic, w) = (panic, itr, w)

  -- One scenario.
  unfoldable pub run_scenario : Ctx → TestScenario S → IntegrationTestRunner S → World S → Ran S
  unfolding run_test
  run_scenario ctx s itr w =
      if is_open itr.breaker
      then (err (breaker_is_open s.name), itr, w)
      else let c = scenario_ctx ctx s w in after_setup s c itr (optional_step s.setup c w)

  abbrev pub go_on : (IntegrationTestRunner S → World S → Ran S) → Ran S → Ran S
  go_on next (ok _, itr, w) = next itr w
  go_on next (err e, itr, w) = (err e, itr, w)
  go_on next (panic, itr, w) = (panic, itr, w)

  unfoldable pub run_scenarios :
      Ctx → List (TestScenario S) → IntegrationTestRunner S → World S → Ran S
  unfolding run_scenario
  run_scenarios ctx [] itr w = (ok tt, itr, w)
  run_scenarios ctx (s ∷ ss) itr w =
      go_on (λ itr' w'. run_scenarios ctx ss itr' w') (run_scenario ctx s itr w)
