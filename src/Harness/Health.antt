-- ===== src/Harness/Health.antt =====
-- HealthChecker of pkg/vault/integration_framework.go. Its two maps have the same keys, so that one list of
-- entries holds both; its order is that in which `range` takes them.
pub mod Waiting
use vault_autounseal_operato.Prelude.{
  ℕ, zero, suc, ◌+◌, ◌-◌, ◌*◌, ◌/◌, Bool, true, false, ◌&&◌, not, List, [], ◌∷◌, length, ltb, ◌==◌,
  max, if◌then◌else◌,
}
use vault_autounseal_operato.GoLib.Strings.{Bytes, bytes_eq}
use vault_autounseal_operato.Errors.{Err, nil, is_nil}
use vault_autounseal_operato.Strategy.World.{World, Ctx, race}
use vault_autounseal_operato.Controller.Reconcile.{earlier}
use vault_autounseal_operato.Harness.Breaker.{IntegrationTestConfig}

-- The error of HealthCheck of a client.
abbrev pub HealthCheck : Type 0 → Type 0
HealthCheck S = Ctx → World S → Err × World S

pub record Entry (S : Type 0) : Type 0 where
  pub name : Bytes
  pub client : HealthCheck S
  pub healthy : Bool

-- NewHealthChecker has no entries.
pub record HealthChecker (S : Type 0) : Type 0 where
  pub config : IntegrationTestConfig
  pub entries : List (Entry S)

-- The error of WaitForHealthy: of the context, after the time that it waited, or a panic of NewTicker.
-- `out_of_fuel` is not one of them.
pub data Waited : Type 0 where
  became_healthy : Waited
  context_ended : Err → Waited
  timed_out : ℕ → Waited
  ticker_panicked : Waited
  out_of_fuel : Waited

-- The first tick after `now` of a ticker that was to tick at `next`, at or before `now`.
abbrev pub tick_after : ℕ → ℕ → ℕ → ℕ
tick_after interval next now = next + interval + interval * ((now - next) / interval)

module _ {S : Type 0} where
  unfoldable pub put_entry : Entry S → List (Entry S) → List (Entry S)
  put_entry e [] = e ∷ []
  put_entry e (x ∷ xs) = if bytes_eq x.name e.name then e ∷ xs else x ∷ put_entry e xs

  unfoldable pub register_client : Bytes → HealthCheck S → HealthChecker S → HealthChecker S
  unfolding put_entry
  register_client name client hc = record hc {
    entries = put_entry (record { name = name; client = client; healthy = false }) hc.entries;
  }

  module _ (deadline_exceeded : Err) (ctx : Ctx) where
    -- context.WithTimeout for one check.
    abbrev pub quick_ctx : ℕ → World S → Ctx
    quick_ctx quick_timeout w = earlier ctx (w.now + quick_timeout) deadline_exceeded

    -- The loop of CheckHealth: the entries after it, how many are healthy, and the world.
    unfoldable pub check_each : ℕ → List (Entry S) → World S → List (Entry S) × ℕ × World S
    check_each quick_timeout [] w = ([], 0, w)
    check_each quick_timeout (e ∷ es) w =
        let (error, w1) = e.client (quick_ctx quick_timeout w) w in
        let (es', count, w2) = check_each quick_timeout es w1 in
        (record e { healthy = is_nil error } ∷ es', (if is_nil error then suc count else count), w2)

    -- Whether CheckHealth returns nil, the checker and the world.
    unfoldable pub check_health : HealthChecker S → World S → Bool × HealthChecker S × World S
    unfolding check_each
    check_health hc w =
        let (es, count, w') = check_each hc.config.quick_timeout hc.entries w in
        (not (count == 0 && ltb 0 (length hc.entries)), record hc { entries = es }, w')

    -- The loop of WaitForHealthy: `next` is the next tick.
    unfoldable pub wait_from :
        ℕ → ℕ → ℕ → HealthChecker S → World S → Waited × HealthChecker S × World S
    unfolding check_health
    wait_from zero deadline next hc w = (out_of_fuel, hc, w)
    wait_from (suc fuel) deadline next hc w =
        let (done, t) = race ctx w.now (max w.now next) in
        let w1 = record w { now = t } in
        let (fine, hc', w2) = check_health hc w1 in
        let rest =
          wait_from fuel deadline (tick_after hc.config.health_check_interval next t) hc' w2 in
        if done
        then (context_ended ctx.cause, hc, w1)
        else if ltb deadline t
        then (timed_out hc.config.max_unhealthy_time, hc, w1)
        else if fine
        then (became_healthy, hc', w2)
        else rest

    -- Each tick is later than the one before, so the deadline is passed within as many rounds as it is
    -- nanoseconds away.
    unfoldable pub wait_for_healthy : HealthChecker S → World S → Waited × HealthChecker S × World S
    unfolding wait_from
    wait_for_healthy hc w =
        if hc.config.health_check_interval == 0
        then (ticker_panicked, hc, w)
        else wait_from (suc hc.config.max_unhealthy_time) (w.now + hc.config.max_unhealthy_time)
            (w.now + hc.config.health_check_interval) hc w

  unfoldable pub get_healthy_clients : List (Entry S) → List Bytes
  get_healthy_clients [] = []
  get_healthy_clients (e ∷ es) =
      let rest = get_healthy_clients es in if e.healthy then e.name ∷ rest else rest
