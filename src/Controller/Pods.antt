-- ===== src/Controller/Pods.antt =====
-- pkg/controller/vaultunsealconfig_controller.go: which configurations an event of a pod triggers.
pub mod Matched
pub mod Selected
use vault_autounseal_operato.Prelude.{
  Bool, true, false, not, ◌&&◌, ◌||◌, Option, none, some, List, [], ◌∷◌, length, ◌==◌,
  if◌then◌else◌,
}
use vault_autounseal_operato.GoLib.Strings.{Bytes, codes, bytes_eq, contains}
use vault_autounseal_operato.GoLib.Outcome.{Outcome, ok, err, panic}
use vault_autounseal_operato.Errors.{Err}
use vault_autounseal_operato.Controller.Types.{VaultInstance, VaultUnsealConfig}
use vault_autounseal_operato.Controller.Reconcile.{NamespacedName}

-- `labels` is `none` for a nil map.
pub record Pod : Type 0 where
  pub name : Bytes
  pub namespace : Bytes
  pub labels : Option (List (Bytes × Bytes))

abbrev pub Labels : Type 0
Labels = List (Bytes × Bytes)

pub find_label : Bytes → Labels → Option Bytes
find_label key [] = none
find_label key ((k, v) ∷ ls) = if bytes_eq k key then some v else find_label key ls

-- An index expression gives the empty string for a missing key.
abbrev pub or_empty : Option Bytes → Bytes
or_empty none = []
or_empty (some v) = v

abbrev pub vault_labels : Bytes → Labels → Bool
vault_labels name ls =
    bytes_eq (or_empty (find_label (codes "app.kubernetes.io/name") ls)) (codes "vault")
    || bytes_eq (or_empty (find_label (codes "app.kubernetes.io/component") ls)) (codes "server")
    || contains name (codes "vault")

abbrev pub with_labels : (Labels → Bool) → Option Labels → Bool
with_labels f none = false
with_labels f (some ls) = f ls

pub is_vault_pod : Pod → Bool
unfolding find_label contains
is_vault_pod p = with_labels (vault_labels p.name) p.labels

abbrev pub has_value : Option Bytes → Bytes → Bool
has_value none v = false
has_value (some x) v = bytes_eq x v

-- The loop over the selector.
pub all_selected : Labels → Labels → Bool
unfolding find_label
all_selected ls [] = true
all_selected ls ((key, value) ∷ sel) = has_value (find_label key ls) value && all_selected ls sel

pub pod_matches_selector : Pod → Labels → Bool
unfolding all_selected
pod_matches_selector p selector = with_labels (λ ls. all_selected ls selector) p.labels

pub pod_matches_instance : Pod → VaultInstance → Bool
unfolding pod_matches_selector is_vault_pod
pod_matches_instance p i =
    if not (length i.namespace == 0) && not (bytes_eq i.namespace p.namespace)
    then false
    else if not (length i.pod_selector == 0)
    then pod_matches_selector p i.pod_selector
    else is_vault_pod p

any_instance : Pod → List VaultInstance → Bool
unfolding pod_matches_instance
any_instance p [] = false
any_instance p (i ∷ is) = if pod_matches_instance p i then true else any_instance p is

pub config_matches_pod : VaultUnsealConfig → Pod → Bool
unfolding any_instance
config_matches_pod c p = any_instance p c.vault_instances

abbrev pub request_for : VaultUnsealConfig → NamespacedName
request_for c = record { namespace = c.namespace; name = c.name }

-- The loop over the listed configurations.
pub matching_requests : Pod → List VaultUnsealConfig → List NamespacedName
unfolding config_matches_pod
matching_requests p [] = []
matching_requests p (c ∷ cs) =
    let rest = matching_requests p cs in
    if config_matches_pod c p then request_for c ∷ rest else rest

abbrev pub requests_of : Pod → Outcome Err (List VaultUnsealConfig) → List NamespacedName
requests_of p (ok configs) = matching_requests p configs
requests_of p (err e) = []
requests_of p panic = []

-- The object of the event is a pod, or `none` where the type assertion fails; `list` is the answer of
-- List.
pub find_vault_configs_for_pod :
    Option Pod → Outcome Err (List VaultUnsealConfig) → List NamespacedName
unfolding is_vault_pod matching_requests
find_vault_configs_for_pod none list = []
find_vault_configs_for_pod (some p) list = if is_vault_pod p then requests_of p list else []
