-- ===== src/Controller/Reconcile.antt =====
-- pkg/controller/vaultunsealconfig_controller.go: Reconcile. The Kubernetes API server is a
-- parameter.
pub mod Written
pub mod Total
pub mod Frugal
use vault_autounseal_operato.Prelude.{
  ℕ, ◌+◌, Bool, true, Option, none, some, List, ltb, if◌then◌else◌,
}
use vault_autounseal_operato.GoLib.Strings.{Bytes}
use vault_autounseal_operato.GoLib.Outcome.{Outcome, ok, err, panic}
use vault_autounseal_operato.Errors.{Err, wrapped, update_status}
use vault_autounseal_operato.Strategy.World.{World, Ctx}
use vault_autounseal_operato.Client.Api.{Api}
use vault_autounseal_operato.Controller.Types.{VaultUnsealConfig, VaultInstanceStatus}
use vault_autounseal_operato.Controller.Repository.{ClientFactory, Clients}
use vault_autounseal_operato.Controller.Instance.{process_vault_instances}
use vault_autounseal_operato.Controller.Status.{update_vault_config_status}

pub record NamespacedName : Type 0 where
  pub namespace : Bytes
  pub name : Bytes

-- Get, which fails also where there is no such object; the test IsNotFound; Status().Update.
pub record Kube : Type 0 where
  pub get : NamespacedName → Outcome Err VaultUnsealConfig
  pub is_not_found : Err → Bool
  pub update_status : VaultUnsealConfig → Outcome Err (Unit {0})
  pub deadline_exceeded : Err

-- Durations in nanoseconds.
pub record ReconcilerOptions : Type 0 where
  pub requeue_after : ℕ
  pub timeout : ℕ

abbrev pub default_reconciler_options : ReconcilerOptions
default_reconciler_options = record { requeue_after = 30_000_000_000; timeout = 30_000_000_000 }

-- ctrl.Result: none is the empty result, which asks for no requeue.
abbrev pub Result : Type 0
Result = Option ℕ

-- context.WithTimeout: the earlier of the two ends.
abbrev pub earlier : Ctx → ℕ → Err → Ctx
earlier ctx deadline e = elim ctx.done_at [
  | none ↦ record ctx { done_at = some deadline; cause = e }
  | some d ↦ if ltb deadline d then record ctx { done_at = some deadline; cause = e } else ctx
]

-- What a run leaves: the result, the object that was handed to Status().Update, the clients and the
-- world.
pub record Run (S : Type 0) : Type 0 where
  pub result : Outcome Err Result
  pub written : Option VaultUnsealConfig
  pub clients : Clients S
  pub world : World S

module _ {S : Type 0} (api : Api S) (factory : ClientFactory S) (kube : Kube)
    (options : ReconcilerOptions) where
  abbrev pub after_update : Outcome Err (Unit {0}) → Outcome Err Result
  after_update (ok _) = ok (some options.requeue_after)
  after_update (err e) = err (wrapped update_status e)
  after_update panic = panic

  write_status :
      VaultUnsealConfig → Option (List VaultInstanceStatus × Bool) × Clients S × World S → Run S
  write_status config (none, cs, w) = record {
    result = panic;
    written = none;
    clients = cs;
    world = w;
  }
  write_status config (some (statuses, all_ready), cs, w) =
      let new = update_vault_config_status w.now statuses all_ready config in
      record {
        result = after_update (kube.update_status new);
        written = some new;
        clients = cs;
        world = w;
      }

  -- client.IgnoreNotFound.
  abbrev pub ignore_not_found : Err → Outcome Err Result
  ignore_not_found e = if kube.is_not_found e then ok none else err e

  after_get : Ctx → Clients S → World S → Outcome Err VaultUnsealConfig → Run S
  unfolding write_status
  after_get ctx cs w (ok config) =
      write_status config
        (process_vault_instances ctx api factory config.vault_instances config.namespace true cs w)
  after_get ctx cs w (err e) = record {
    result = ignore_not_found e;
    written = none;
    clients = cs;
    world = w;
  }
  after_get ctx cs w panic = record { result = panic; written = none; clients = cs; world = w }

  unfoldable pub reconcile : Ctx → NamespacedName → Clients S → World S → Run S
  unfolding after_get
  reconcile ctx request cs w =
      after_get (earlier ctx (w.now + options.timeout) kube.deadline_exceeded) cs w
        (kube.get request)
