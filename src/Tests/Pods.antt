-- ===== src/Tests/Pods.antt =====
-- The events of pods at concrete inputs.
use vault_autounseal_operato.Prelude.{◌≡◌, ◌↔◌, false, none, some, List, [], ◌∷◌}
use vault_autounseal_operato.GoLib.Strings.{codes}
use vault_autounseal_operato.GoLib.Outcome.{Outcome, ok}
use vault_autounseal_operato.Errors.{Err}
use vault_autounseal_operato.Controller.Types.{VaultUnsealConfig}
use vault_autounseal_operato.Controller.Reconcile.{NamespacedName}
use vault_autounseal_operato.Controller.Pods.{Pod, Labels, find_vault_configs_for_pod}
use vault_autounseal_operato.Controller.Pods.Matched.{Listed, IsVaultPod}
use vault_autounseal_operato.Controller.Pods.Selected.{Triggers, find_vault_configs_for_pod_iff}

abbrev demo_pod : Pod
demo_pod = record {
  name = codes "db-0";
  namespace = codes "prod";
  labels = some ((codes "app", codes "db") ∷ []);
}

abbrev demo_selector : Labels
demo_selector = (codes "app", codes "db") ∷ []

-- The one instance of the configuration selects the pod.
abbrev selecting_config : VaultUnsealConfig
selecting_config = record {
  name = codes "demo";
  namespace = codes "prod";
  generation = 1;
  vault_instances =
      record {
        name = codes "main";
        endpoint = codes "http://db";
        unseal_keys = [];
        threshold = none;
        tls_skip_verify = false;
        ha_enabled = false;
        pod_selector = demo_selector;
        namespace = codes "prod";
      }
      ∷ [];
  conditions = [];
  vault_statuses = [];
}

abbrev demo_request : NamespacedName
demo_request = record { namespace = codes "prod"; name = codes "demo" }

abbrev listed_configs : Outcome Err (List VaultUnsealConfig)
listed_configs = ok (selecting_config ∷ [])

find_vault_configs_for_pod_iff_example :
    Listed demo_request (find_vault_configs_for_pod (some demo_pod) listed_configs) ↔ (
      IsVaultPod demo_pod
      × ((configs : List VaultUnsealConfig) × (listed_configs ≡ ok configs)
          × Triggers demo_pod demo_request configs))
find_vault_configs_for_pod_iff_example =
    find_vault_configs_for_pod_iff demo_pod demo_request listed_configs
