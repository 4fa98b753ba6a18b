-- ===== src/Harness/Health/Waiting.antt =====
-- CheckHealth and WaitForHealthy of pkg/vault/integration_framework.go: what they answer, and when.
use vault_autounseal_operato.Prelude.{
  ℕ, zero, suc, ◌+◌, ◌-◌, ◌*◌, ◌/◌, ◌≤◌, ◌<◌, ◌≡◌, refl, ap, sym, ◌∙◌, ◌⊎◌, inl, inr, ◌↔◌, Bool,
  true, false, ◌&&◌, not, List, [], ◌∷◌, length, ltb, ◌==◌, max, Bool-cases, arith,
}
use vault_autounseal_operato.Errors.{Err, is_nil}
use vault_autounseal_operato.Strategy.World.{World, Ctx, race}
use vault_autounseal_operato.Harness.Health.{
  HealthChecker, Entry, Waited, became_healthy, context_ended, timed_out, ticker_panicked,
  out_of_fuel, check_each, check_health, wait_from, wait_for_healthy, get_healthy_clients,
  tick_after, quick_ctx,
}

none_healthy : (n m : ℕ) → (not (n == 0 && ltb 0 m) ≡ true) ↔ ((0 < n) ⊎ (m ≡ 0))
none_healthy n m = ground arith

-- Where the context does not win, the time is that of the tick.
race-tick : (ctx : Ctx) (now t : ℕ) → (race ctx now t).0 ≡ false → (race ctx now t).1 ≡ t
race-tick ctx now t lost = ground (arith, lost)

not_late : (deadline next now : ℕ) → ltb deadline (max now next) ≡ false → next ≤ deadline
not_late deadline next now h = ground (arith, h)

-- How a wait may end: with a healthy client, unless there are no clients; with the end of the context;
-- or at the deadline.
abbrev pub Answered : Waited → ℕ → ℕ → Type 0
Answered became_healthy fit clients = (0 < fit) ⊎ (clients ≡ 0)
Answered (context_ended e) fit clients = Unit
Answered (timed_out d) fit clients = Unit
Answered ticker_panicked fit clients = ⊥
Answered out_of_fuel fit clients = ⊥

-- The next tick is later, by any interval that is not zero.
later_tick : (interval next now : ℕ) → 0 < interval → next < tick_after interval next now
later_tick interval next now h = let more = interval * ((now - next) / interval) in omega arith

module _ {S : Type 0} (deadline_exceeded : Err) (ctx : Ctx) where
  abbrev healthy : HealthChecker S → ℕ
  healthy hc = length (get_healthy_clients hc.entries)

  count-healthy :
      (quick_timeout : ℕ) (es : List (Entry S)) (w : World S)
      → let out = check_each deadline_exceeded ctx quick_timeout es w in
        out.1 ≡ length (get_healthy_clients out.0)
  unfolding check_each get_healthy_clients
  count-healthy quick_timeout [] w = refl
  count-healthy quick_timeout (e ∷ es) w =
      let answer = e.client (quick_ctx deadline_exceeded ctx quick_timeout w) w in
      let rest = count-healthy quick_timeout es answer.1 in
      elim (Bool-cases (is_nil answer.0)) [ inl q ↦ rw q (ap suc rest) | inr q ↦ rw q rest ]

  length-check_each :
      (quick_timeout : ℕ) (es : List (Entry S)) (w : World S)
      → length (check_each deadline_exceeded ctx quick_timeout es w).0 ≡ length es
  unfolding check_each
  length-check_each quick_timeout [] w = refl
  length-check_each quick_timeout (e ∷ es) w = ap suc (length-check_each quick_timeout es _)

  check_health-exact :
      (hc : HealthChecker S) (w : World S)
      → (check_health deadline_exceeded ctx hc w).0
        ≡ not
            (healthy (check_health deadline_exceeded ctx hc w).1 == 0 && ltb 0 (length hc.entries))
  unfolding check_health
  check_health-exact hc w =
      ap (λ n. not (n == 0 && ltb 0 (length hc.entries)))
        (count-healthy hc.config.quick_timeout hc.entries w)

  -- CheckHealth returns nil exactly when some client is healthy after it, or there is no client at all.
  pub check_health_iff :
      (hc : HealthChecker S) (w : World S)
      → let out = check_health deadline_exceeded ctx hc w in
        (out.0 ≡ true)
        ↔ ((0 < length (get_healthy_clients out.1.entries)) ⊎ (length hc.entries ≡ 0))
  check_health_iff hc w = rw (check_health-exact hc w) (none_healthy _ _)

  -- CheckHealth keeps the clients.
  kept :
      (hc : HealthChecker S) (w : World S)
      → length (check_health deadline_exceeded ctx hc w).1.entries ≡ length hc.entries
  unfolding check_health
  kept hc w = length-check_each hc.config.quick_timeout hc.entries w

  still_ticks :
      (hc : HealthChecker S) (w : World S)
      → 0 < hc.config.health_check_interval
      → 0 < (check_health deadline_exceeded ctx hc w).1.config.health_check_interval
  unfolding check_health
  still_ticks hc w ticks = ticks

  abbrev Ends : HealthChecker S → Waited × HealthChecker S × World S → Type 0
  Ends hc out = Answered out.0 (healthy out.1) (length hc.entries)

  module _ (deadline next : ℕ) (hc : HealthChecker S) (w : World S) where
    abbrev ticked : Bool × ℕ
    ticked = race ctx w.now (max w.now next)

    abbrev checked : Bool × HealthChecker S × World S
    checked = check_health deadline_exceeded ctx hc (record w { now = ticked.1 })

    -- One round, given how the wait goes on after it.
    round-Ends :
        (fuel : ℕ)
        → (ticked.0 ≡ false
            → ltb deadline ticked.1 ≡ false
            → Ends hc (
                wait_from deadline_exceeded ctx fuel deadline
                  (tick_after hc.config.health_check_interval next ticked.1)
                  checked.1
                  checked.2))
        → Ends hc (wait_from deadline_exceeded ctx (suc fuel) deadline next hc w)
    unfolding wait_from
    round-Ends fuel goes_on = elim (Bool-cases ticked.0) [
      | inl q ↦ rw q tt
      | inr q ↦ elim (Bool-cases (ltb deadline ticked.1)) [
        | inl late ↦ rw (q, late) tt
        | inr early ↦ elim (Bool-cases checked.0) [
          | inl fine ↦
              rw (q, early, fine) ((check_health_iff hc (record w { now = ticked.1 })).0 fine)
          | inr unfit ↦ rw (q, early, unfit) (goes_on q early)
        ]
      ]
    ]

    -- The next tick is not before the one that was awaited.
    in_time : ticked.0 ≡ false → ltb deadline ticked.1 ≡ false → next ≤ deadline
    in_time q early =
        let at_tick = race-tick ctx w.now (max w.now next) q in
        not_late deadline next w.now (ap (ltb deadline) (sym at_tick) ∙ early)

  wait_from-Ends :
      (fuel deadline next : ℕ) (hc : HealthChecker S) (w : World S)
      → 0 < hc.config.health_check_interval
      → deadline < next + fuel
      → Ends hc (wait_from deadline_exceeded ctx (suc fuel) deadline next hc w)
  wait_from-Ends zero deadline next hc w ticks h =
      round-Ends deadline next hc w zero
        (λ q early. absurd (omega (arith, in_time deadline next hc w q early)))
  wait_from-Ends (suc fuel) deadline next hc w ticks h =
      let hc' = (checked deadline next hc w).1 in
      let t = (ticked deadline next hc w).1 in
      let w1 : World S = record w { now = t } in
      let later = later_tick hc.config.health_check_interval next t ticks in
      round-Ends deadline next hc w (suc fuel) (λ q early. rw (sym (kept hc w1)) (
        wait_from-Ends fuel deadline (tick_after hc.config.health_check_interval next t) hc'
          (checked deadline next hc w).2 (still_ticks hc w1 ticks) (omega (arith, later))))

  -- WaitForHealthy comes back, if the interval of its ticker is positive: with a healthy client, unless
  -- there are no clients at all; with the end of the context; or with a timeout. It does so whatever
  -- the clients answer, and however long they take.
  pub wait_for_healthy-Answered :
      (hc : HealthChecker S) (w : World S)
      → 0 < hc.config.health_check_interval
      → let out = wait_for_healthy deadline_exceeded ctx hc w in
        Answered out.0 (length (get_healthy_clients out.1.entries)) (length hc.entries)
  unfolding wait_for_healthy
  wait_for_healthy-Answered hc w ticks =
      let q : (hc.config.health_check_interval == 0) ≡ false = ground (arith, ticks) in
      rw q (
        wait_from-Ends hc.config.max_unhealthy_time (w.now + hc.config.max_unhealthy_time)
          (w.now + hc.config.health_check_interval) hc w ticks (omega arith))
