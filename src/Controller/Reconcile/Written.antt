-- ===== src/Controller/Reconcile/Written.antt =====
-- pkg/controller/vaultunsealconfig_controller.go: what Reconcile writes back and returns.
use vault_autounseal_operato.Prelude.{
  ◌+◌, ◌≡◌, refl, sym, ap, ◌∙◌, ◌⊎◌, inl, inr, Bool, true, Option, none, some, List, arith,
  some_injective,
}
use vault_autounseal_operato.GoLib.Outcome.{Outcome, ok, err, panic}
use vault_autounseal_operato.Errors.{Err}
use vault_autounseal_operato.Strategy.World.{World, Ctx}
use vault_autounseal_operato.Client.Api.{Api}
use vault_autounseal_operato.Controller.Types.{VaultUnsealConfig, VaultInstanceStatus, Condition}
use vault_autounseal_operato.Controller.Repository.{ClientFactory, Clients}
use vault_autounseal_operato.Controller.Instance.{process_vault_instances}
use vault_autounseal_operato.Controller.Instance.Statuses.{
  DescribesAll, none_sealed, process_vault_instances-DescribesAll,
}
use vault_autounseal_operato.Controller.Status.{ready_kind, update_vault_config_status}
use vault_autounseal_operato.Controller.Status.Conditions.{
  find_condition, others, update_vault_config_status_lem,
}
use vault_autounseal_operato.Controller.Reconcile.{
  NamespacedName, Kube, ReconcilerOptions, Run, Result, after_update, ignore_not_found,
  write_status, after_get, reconcile, earlier,
}

module _ {S : Type 0} (api : Api S) (factory : ClientFactory S) (kube : Kube)
    (options : ReconcilerOptions) where
  -- The object that is written for a configuration.
  abbrev pub Reflects : VaultUnsealConfig → VaultUnsealConfig → Type 0
  Reflects config new =
      DescribesAll config.vault_instances new.vault_statuses
      × ((c : Condition) × (find_condition ready_kind new.conditions ≡ some c)
          × (c.holds ≡ none_sealed new.vault_statuses)
          × (c.observed_generation ≡ config.generation))
      × (others ready_kind new.conditions ≡ others ready_kind config.conditions)
      × (new.vault_instances ≡ config.vault_instances)

  Writes : VaultUnsealConfig → Run S → Type 0
  Writes config r =
      (new : VaultUnsealConfig)
      → r.written ≡ some new
      → Reflects config new
        × (r.result ≡ after_update api factory kube options (kube.update_status new))

  write_status-Writes :
      (config : VaultUnsealConfig)
      (r : Option (List VaultInstanceStatus × Bool) × Clients S × World S)
      → ((sts : List VaultInstanceStatus) (all : Bool)
          → r.0 ≡ some (sts, all)
          → DescribesAll config.vault_instances sts × (all ≡ none_sealed sts))
      → Writes config (write_status api factory kube options config r)
  unfolding write_status Writes
  write_status-Writes config (none, cs, w) d new h = ground (arith, h)
  write_status-Writes config (some (sts, all), cs, w) d new h =
      let (described, ready) = d sts all refl in
      let ((c, found, holds, generation), others, statuses, instances) =
        update_vault_config_status_lem w.now sts all config in
      rw (← some_injective h) (
        (
          rw statuses described,
          (c, found, holds ∙ ready ∙ ap none_sealed (sym statuses), generation),
          others,
          instances,
        ),
        refl,
      )

  after_get-written :
      (ctx : Ctx) (cs : Clients S) (w : World S) (new : VaultUnsealConfig)
      (o : Outcome Err VaultUnsealConfig)
      → (after_get api factory kube options ctx cs w o).written ≡ some new
      → (config : VaultUnsealConfig) × (o ≡ ok config)
        × Reflects config new
        × ((after_get api factory kube options ctx cs w o).result
            ≡ after_update api factory kube options (kube.update_status new))
  unfolding after_get Writes
  after_get-written ctx cs w new (ok config) h =
      let (reflects, result) =
        write_status-Writes config
          (process_vault_instances ctx api factory config.vault_instances config.namespace true cs
            w)
          (process_vault_instances-DescribesAll ctx api factory config.namespace
            config.vault_instances true cs w)
          new h in
      (config, refl, reflects, result)
  after_get-written ctx cs w new (err e) h = ground (arith, h)
  after_get-written ctx cs w new panic h = ground (arith, h)

  -- If Reconcile writes a status, then for the configuration that it read: it has one status for each
  -- instance, in their order; the condition Ready holds exactly when no instance is sealed, for the
  -- generation that was read; the other conditions are as before, in their order; and the result is a
  -- requeue after the configured time, or the error of the update.
  pub reconcile-written :
      (ctx : Ctx) (request : NamespacedName) (cs : Clients S) (w : World S)
      (new : VaultUnsealConfig)
      → let r = reconcile api factory kube options ctx request cs w in
        r.written ≡ some new
        → (config : VaultUnsealConfig) × (kube.get request ≡ ok config)
          × Reflects config new
          × (r.result ≡ after_update api factory kube options (kube.update_status new))
  unfolding reconcile
  reconcile-written ctx request cs w new h =
      after_get-written (earlier ctx (w.now + options.timeout) kube.deadline_exceeded) cs w new
        (kube.get request) h

  -- The ways in which a run ends well: its update was accepted and it comes back after the configured
  -- time; or the object is gone, and nothing was done.
  abbrev pub EndsWell :
      Outcome Err VaultUnsealConfig → Clients S → World S → Run S → Result → Type 0
  EndsWell got cs w r result =
      ((new : VaultUnsealConfig) × (r.written ≡ some new)
        × (kube.update_status new ≡ ok tt)
        × (result ≡ some options.requeue_after))
      ⊎ ((e : Err) × (got ≡ err e)
          × (kube.is_not_found e ≡ true)
          × (result ≡ none)
          × (r ≡ record { result = ok none; written = none; clients = cs; world = w }))

  after_update_ok :
      (o : Outcome Err (Unit {0})) (result : Result)
      → after_update api factory kube options o ≡ ok result
      → (o ≡ ok tt) × (result ≡ some options.requeue_after)
  after_update_ok (ok a) result h = (refl, ground (arith, h))
  after_update_ok (err e) result h = ground (arith, h)
  after_update_ok panic result h = ground (arith, h)

  write_status-EndsWell :
      (got : Outcome Err VaultUnsealConfig) (config : VaultUnsealConfig) (cs : Clients S)
      (w : World S) (result : Result)
      (p : Option (List VaultInstanceStatus × Bool) × Clients S × World S)
      → (write_status api factory kube options config p).result ≡ ok result
      → EndsWell got cs w (write_status api factory kube options config p) result
  unfolding write_status
  write_status-EndsWell got config cs w result (none, cs', w') h = ground (arith, h)
  write_status-EndsWell got config cs w result (some (sts, all), cs', w') h =
      let new = update_vault_config_status w'.now sts all config in
      let (accepted, q) = after_update_ok (kube.update_status new) result h in
      inl (new, refl, accepted, q)

  ignored-EndsWell :
      (cs : Clients S) (w : World S) (result : Result) (e : Err)
      → ignore_not_found api factory kube options e ≡ ok result
      → (kube.is_not_found e ≡ true) × (result ≡ none)
  ignored-EndsWell cs w result e h = ground (arith, h)

  after_get-EndsWell :
      (ctx : Ctx) (cs : Clients S) (w : World S) (result : Result)
      (o : Outcome Err VaultUnsealConfig)
      → (after_get api factory kube options ctx cs w o).result ≡ ok result
      → EndsWell o cs w (after_get api factory kube options ctx cs w o) result
  unfolding after_get
  after_get-EndsWell ctx cs w result (ok config) h =
      write_status-EndsWell (ok config) config cs w result
        (process_vault_instances ctx api factory config.vault_instances config.namespace true cs w)
        h
  after_get-EndsWell ctx cs w result (err e) h =
      let (gone, q) = ignored-EndsWell cs w result e h in
      inr (
        e,
        refl,
        gone,
        q,
        ap (λ o. record { result = o; written = none; clients = cs; world = w }) (h ∙ ap ok q),
      )
  after_get-EndsWell ctx cs w result panic h = ground (arith, h)

  -- A run of Reconcile that returns no error has either written a status that the API server accepted,
  -- and asks to be run again after the configured time; or its object was not found, and it has touched
  -- neither the clients nor the servers and asks for nothing.
  pub reconcile-EndsWell :
      (ctx : Ctx) (request : NamespacedName) (cs : Clients S) (w : World S) (result : Result)
      → let r = reconcile api factory kube options ctx request cs w in
        r.result ≡ ok result → EndsWell (kube.get request) cs w r result
  unfolding reconcile
  reconcile-EndsWell ctx request cs w result h =
      after_get-EndsWell (earlier ctx (w.now + options.timeout) kube.deadline_exceeded) cs w result
        (kube.get request) h
