-- ===== src/Operator.antt =====
-- pkg/operator/controller/controller/vaultunsealconfig_controller.go: the operator's other controller,
-- which keeps its clients itself and makes them by vault.NewClient. Its work with a client, its look at
-- the conditions and its types are those of pkg/controller, line by line, and are taken from there.
pub mod Same
pub mod Race
use mathlib.Core.Option
use vault_autounseal_operato.Prelude.{
  ℕ, Bool, true, not, ◌&&◌, Option, none, some, List, [], ◌∷◌, length, ℤ, pos, if◌then◌else◌,
}
use vault_autounseal_operato.GoLib.Strings.{Bytes, bytes_eq}
use vault_autounseal_operato.GoLib.Outcome.{Outcome, ok, err, panic}
use vault_autounseal_operato.Errors.{Err, wrapped, create_client}
use vault_autounseal_operato.Strategy.World.{World, Ctx}
use vault_autounseal_operato.Client.Api.{Api}
use vault_autounseal_operato.Client.Methods.{Client, as_vault_client}
use vault_autounseal_operato.Client.Config.{ApiPackage, new_client}
use vault_autounseal_operato.Controller.Types.{
  VaultInstance, VaultInstanceStatus, VaultUnsealConfig, Condition, all_instances_unsealed,
  some_instances_sealed, all_unsealed, need_attention,
}
use vault_autounseal_operato.Controller.Repository.{Clients, client_key, find_client}
use vault_autounseal_operato.Controller.Instance.{work_on, status_or_failed}
use vault_autounseal_operato.Controller.Status.{ready_kind, update_condition}
use vault_autounseal_operato.Controller.Reconcile.{NamespacedName, Kube, Run, Result}

-- 30 * time.Second.
abbrev pub timeout : ℤ
timeout = pos 30_000_000_000

abbrev pub requeue_after : ℕ
requeue_after = 30_000_000_000

-- `vaultClients[key] = client`.
pub put_client : {S : Type 0} → Bytes → Client S → Clients S → Clients S
put_client key c [] = (key, c) ∷ []
put_client key c ((k, d) ∷ cs) =
    if bytes_eq k key then (key, c) ∷ cs else (k, d) ∷ put_client key c cs

module _ {S : Type 0} (unicode_lower : Bytes → Bytes) (api_package : ApiPackage) (api : Api S)
    (ctx : Ctx) where
  abbrev pub work :
      VaultInstance
      → Client S
      → Clients S
      → World S
      → Outcome Err VaultInstanceStatus × Clients S × World S
  work i c cs w = let (o, w') = work_on ctx (as_vault_client api c) i w in (o, cs, w')

  abbrev pub after_new_client :
      VaultInstance
      → Bytes
      → Clients S
      → World S
      → Outcome Err (Client S)
      → Outcome Err VaultInstanceStatus × Clients S × World S
  after_new_client i key cs w (ok c) = work i c (put_client key c cs) w
  after_new_client i key cs w (err e) = (err (wrapped create_client e), cs, w)
  after_new_client i key cs w panic = (panic, cs, w)

  pub process_vault_instance :
      VaultInstance
      → Bytes
      → Clients S
      → World S
      → Outcome Err VaultInstanceStatus × Clients S × World S
  process_vault_instance i namespace cs w =
      let key = client_key namespace i.name in
      elim (find_client key cs) [
        | some c ↦ work i c cs w
        | none ↦
            after_new_client i key cs w
              (new_client unicode_lower api_package i.endpoint i.tls_skip_verify timeout)
      ]

  pub process_vault_instances :
      List VaultInstance
      → Bytes
      → Bool
      → Clients S
      → World S
      → Option (List VaultInstanceStatus × Bool) × Clients S × World S
  process_vault_instances [] namespace ready cs w = (some ([], ready), cs, w)
  process_vault_instances (i ∷ is) namespace ready cs w =
      let (o, cs', w') = process_vault_instance i namespace cs w in
      elim (status_or_failed i.name o) [
        | none ↦ (none, cs', w')
        | some st ↦
            let (rest, cs'', w'') =
              process_vault_instances is namespace (ready && not st.sealed) cs' w' in
            (Option.map (λ r. (st ∷ r.0, r.1)) rest, cs'', w'')
      ]

-- The message counts the statuses, whether they are sealed or not.
pub ready_condition : ℕ → ℕ → ℕ → List VaultInstanceStatus → Bool → Condition
ready_condition now generation n statuses all_ready =
    if all_ready
    then record {
      kind = ready_kind;
      holds = true;
      reason = all_instances_unsealed;
      message = all_unsealed n;
      last_transition_time = now;
      observed_generation = generation;
    }
    else record {
      kind = ready_kind;
      holds = Bool.false;
      reason = some_instances_sealed;
      message = need_attention (length statuses) n;
      last_transition_time = now;
      observed_generation = generation;
    }

pub update_vault_config_status :
    ℕ → List VaultInstanceStatus → Bool → VaultUnsealConfig → VaultUnsealConfig
unfolding ready_condition
update_vault_config_status now statuses all_ready config =
    update_condition
      (ready_condition now config.generation (length config.vault_instances) statuses all_ready)
      (record config { vault_statuses = statuses })

module _ {S : Type 0} (unicode_lower : Bytes → Bytes) (api_package : ApiPackage) (api : Api S)
    (kube : Kube) where
  abbrev pub after_update : Outcome Err (Unit {0}) → Outcome Err Result
  after_update (ok _) = ok (some requeue_after)
  after_update (err e) = err e
  after_update panic = panic

  write_status :
      VaultUnsealConfig → Option (List VaultInstanceStatus × Bool) × Clients S × World S → Run S
  write_status config (none, cs, w) = record {
    result = panic;
    written = none;
    clients = cs;
    world = w;
  }
  write_status config (some (statuses, all_ready), cs, w) =
      let new = update_vault_config_status w.now statuses all_ready config in
      record {
        result = after_update (kube.update_status new);
        written = some new;
        clients = cs;
        world = w;
      }

  after_get : Ctx → Clients S → World S → Outcome Err VaultUnsealConfig → Run S
  unfolding write_status
  after_get ctx cs w (ok config) = write_status config (
      process_vault_instances unicode_lower api_package api ctx config.vault_instances
        config.namespace true cs w)
  after_get ctx cs w (err e) = record {
    result = if kube.is_not_found e then ok none else err e;
    written = none;
    clients = cs;
    world = w;
  }
  after_get ctx cs w panic = record { result = panic; written = none; clients = cs; world = w }

  pub reconcile : Ctx → NamespacedName → Clients S → World S → Run S
  unfolding after_get
  reconcile ctx request cs w = after_get ctx cs w (kube.get request)
