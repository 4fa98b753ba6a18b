-- ===== src/Main.antt =====
-- src/main.go: the flags, the set-up of the manager and the exit code; with the constructors that it
-- calls in pkg/controller/vaultunsealconfig_controller.go. The Kubernetes packages and the command line,
-- as package flag parses it, are parameters. Signals end the context, which is a parameter too.
pub mod Exit
pub mod Life
use vault_autounseal_operato.Prelude.{
  ℕ, Bool, true, false, ◌||◌, Option, none, some, List, [], ◌∷◌, if◌then◌else◌,
}
use vault_autounseal_operato.GoLib.Strings.{Bytes, codes}
use vault_autounseal_operato.GoLib.Outcome.{Outcome, ok, err, panic}
use vault_autounseal_operato.Errors.{Err}
use vault_autounseal_operato.Strategy.World.{Ctx}
use vault_autounseal_operato.Client.Api.{Reply, success, failure}
use vault_autounseal_operato.Client.Config.{ApiPackage}
use vault_autounseal_operato.Controller.Repository.{ClientFactory, Clients, default_client_factory}
use vault_autounseal_operato.Controller.Reconcile.{ReconcilerOptions, default_reconciler_options}

pub record OperatorConfig : Type 0 where
  pub metrics_addr : Bytes
  pub probe_addr : Bytes
  pub enable_leader_election : Bool
  pub show_version : Bool
  pub health_check : Bool
  pub development : Bool

abbrev pub new_operator_config : OperatorConfig
new_operator_config = record {
  metrics_addr = codes ":8080";
  probe_addr = codes ":8081";
  enable_leader_election = false;
  show_version = false;
  health_check = false;
  development = true;
}

-- A flag with its value. `zap_devel` is one of those that BindFlags of zap.Options adds.
pub data Setting : Type 0 where
  metrics_bind_address : Bytes → Setting
  health_probe_bind_address : Bytes → Setting
  leader_elect : Bool → Setting
  version_flag : Bool → Setting
  health_check_flag : Bool → Setting
  development_flag : Bool → Setting
  zap_devel : Bool → Setting

-- What flag.Parse makes of the command line: the flags that are set, in their order, or an exit of the
-- process with a code.
pub data CommandLine : Type 0 where
  settings : List Setting → CommandLine
  exits : ℕ → CommandLine

-- The variables that the flags are bound to.
pub record Flags : Type 0 where
  pub config : OperatorConfig
  pub zap_development : Bool

unfoldable pub set_flag : Setting → Flags → Flags
set_flag (metrics_bind_address a) f = record f { config = record f.config { metrics_addr = a } }
set_flag (health_probe_bind_address a) f = record f { config = record f.config { probe_addr = a } }
set_flag (leader_elect b) f = record f { config = record f.config { enable_leader_election = b } }
set_flag (version_flag b) f = record f { config = record f.config { show_version = b } }
set_flag (health_check_flag b) f = record f { config = record f.config { health_check = b } }
set_flag (development_flag b) f = record f { config = record f.config { development = b } }
set_flag (zap_devel b) f = record f { zap_development = b }

-- flag.Parse: a later flag overwrites an earlier one.
unfoldable pub set_flags : List Setting → Flags → Flags
set_flags [] f = f
set_flags (s ∷ ss) f = set_flags ss (set_flag s f)

-- parseFlags: the options of the logger are made before the flags are parsed.
unfoldable pub parse_flags : OperatorConfig → List Setting → Flags
parse_flags config ss =
    set_flags ss (record { config = config; zap_development = config.development })

-- ctrl.Options, less the scheme.
pub record ManagerOptions : Type 0 where
  pub metrics_bind_address : Bytes
  pub health_probe_bind_address : Bytes
  pub leader_election : Bool
  pub leader_election_id : Bytes

abbrev pub manager_options : OperatorConfig → ManagerOptions
manager_options config = record {
  metrics_bind_address = config.metrics_addr;
  health_probe_bind_address = config.probe_addr;
  leader_election = config.enable_leader_election;
  leader_election_id = codes "vault-autounseal-operator-leader";
}

-- VaultUnsealConfigReconciler, less its client, its logger and its scheme: what the repository makes
-- clients with, the clients that it has, and the options.
pub record Reconciler (S : Type 0) : Type 0 where
  pub factory : ClientFactory S
  pub clients : Clients S
  pub options : ReconcilerOptions

-- NewDefaultVaultClientRepository: the default factory for nil.
unfoldable pub new_default_vault_client_repository :
    {S : Type 0}
    → (Bytes → Bytes)
    → ApiPackage
    → Option (ClientFactory S)
    → ClientFactory S × Clients S
new_default_vault_client_repository unicode_lower api_package none =
    (default_client_factory unicode_lower api_package, [])
new_default_vault_client_repository unicode_lower api_package (some factory) = (factory, [])

-- NewVaultUnsealConfigReconciler: the default options for nil.
unfoldable pub new_vault_unseal_config_reconciler :
    {S : Type 0} → ClientFactory S × Clients S → Option ReconcilerOptions → Reconciler S
new_vault_unseal_config_reconciler (factory, clients) none = record {
  factory = factory;
  clients = clients;
  options = default_reconciler_options;
}
new_vault_unseal_config_reconciler (factory, clients) (some options) = record {
  factory = factory;
  clients = clients;
  options = options;
}

-- The texts around an error.
pub data Text : Type 0 where
  no_kube_config manager_not_made controllers_not_set_up reconciler_not_set_up : Text
  health_checks_not_set_up no_health_check no_ready_check start_failed : Text

pub data RunError : Type 0 where
  caused : Err → RunError
  under : Text → RunError → RunError

-- What `run` asks of the Kubernetes packages. SetupWithManager is the builder of controller-runtime,
-- for the resource and with a watch on pods; `complete` is its call of Complete.
pub record Cluster (S Config Manager : Type 0) : Type 0 where
  pub get_config : Reply Config
  pub new_manager : Config → ManagerOptions → Reply Manager
  pub complete : Manager → Reconciler S → Reply (Unit {0})
  pub add_healthz_check : Manager → Bytes → Reply (Unit {0})
  pub add_readyz_check : Manager → Bytes → Reply (Unit {0})
  pub start : Manager → Ctx → Reply (Unit {0})

-- The calls that are made of them.
pub data Call : Type 0 where
  asked_config : Call
  made_manager : ManagerOptions → Call
  completed_controller : Call
  added_healthz : Bytes → Call
  added_readyz : Bytes → Call
  started : Call

-- A set-up step: it makes calls, newest first, and may fail.
abbrev pub Setup : Type 0 → Type 0
Setup A = List Call → Outcome RunError A × List Call

infixl 5 ◌>>=◌ ◌>>◌
abbrev pub and_then :
    {A B : Type 0} → (A → Setup B) → Outcome RunError A × List Call → Outcome RunError B × List Call
and_then next (ok a, calls) = next a calls
and_then next (err e, calls) = (err e, calls)
and_then next (panic, calls) = (panic, calls)

abbrev pub ◌>>=◌ : {A B : Type 0} → Setup A → (A → Setup B) → Setup B
step >>= next = λ calls. and_then next (step calls)

abbrev pub ◌>>◌ : {A B : Type 0} → Setup A → Setup B → Setup B
step >> next = step >>= λ _. next

abbrev pub reply_of : {A : Type 0} → Reply A → Outcome RunError A
reply_of (success a) = ok a
reply_of (failure e) = err (caused e)

-- `if err := call; err != nil { return fmt.Errorf("…: %w", err) }`.
abbrev pub wrap : {A : Type 0} → Text → Outcome RunError A → Outcome RunError A
wrap t (ok a) = ok a
wrap t (err e) = err (under t e)
wrap t panic = panic

abbrev pub calling : {A : Type 0} → Call → Text → Reply A → Setup A
calling c t r calls = (wrap t (reply_of r), c ∷ calls)

abbrev pub wrapping : {A : Type 0} → Text → Setup A → Setup A
wrapping t step calls = let (o, made) = step calls in (wrap t o, made)

-- The reconciler that setupControllers makes, with which the operator runs.
abbrev pub operator_reconciler : {S : Type 0} → (Bytes → Bytes) → ApiPackage → Reconciler S
operator_reconciler unicode_lower api_package =
    new_vault_unseal_config_reconciler
      (new_default_vault_client_repository unicode_lower api_package none)
      (some default_reconciler_options)

module _ {S Config Manager : Type 0} (cluster : Cluster S Config Manager) where
  unfoldable pub setup_health_checks : Manager → Setup (Unit {0})
  setup_health_checks mgr = do
    calling (added_healthz (codes "healthz")) no_health_check
        (cluster.add_healthz_check mgr (codes "healthz"))
    calling (added_readyz (codes "readyz")) no_ready_check
        (cluster.add_readyz_check mgr (codes "readyz"))

  module _ (unicode_lower : Bytes → Bytes) (api_package : ApiPackage) where
    unfoldable pub setup_controllers : Manager → Setup (Unit {0})
    setup_controllers mgr =
        calling completed_controller reconciler_not_set_up
          (cluster.complete mgr (operator_reconciler unicode_lower api_package))

    module _ (ctx : Ctx) where
      unfoldable pub run : OperatorConfig → Setup (Unit {0})
      unfolding setup_controllers setup_health_checks
      run config = do
        kube_config ← calling asked_config no_kube_config cluster.get_config
        mgr ←
            calling (made_manager (manager_options config)) manager_not_made
              (cluster.new_manager kube_config (manager_options config))
        wrapping controllers_not_set_up (setup_controllers mgr)
        wrapping health_checks_not_set_up (setup_health_checks mgr)
        calling started start_failed (cluster.start mgr ctx)

      abbrev pub exit_code : Outcome RunError (Unit {0}) × List Call → ℕ × List Call
      exit_code (ok _, calls) = (0, calls)
      exit_code (err e, calls) = (1, calls)
      exit_code (panic, calls) = (2, calls)

      unfoldable pub run_main : OperatorConfig → ℕ × List Call
      unfolding run
      run_main config = exit_code (run config [])

      abbrev pub main_with : OperatorConfig → ℕ × List Call
      main_with config =
          if config.show_version
          then (0, [])
          else if config.health_check
          then (0, [])
          else run_main config

      -- The exit code, and the calls that were made, newest first.
      unfoldable pub main : CommandLine → ℕ × List Call
      unfolding run_main
      main (exits code) = (code, [])
      main (settings ss) = main_with (parse_flags new_operator_config ss).config
