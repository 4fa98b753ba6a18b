-- ===== src/Controller/Pods/Matched.antt =====
-- pkg/controller/vaultunsealconfig_controller.go: which pods an instance matches, as the fields say it.
use vault_autounseal_operato.Prelude.{
  ◌≡◌, ◌≢◌, ◌↔◌, ◌⊎◌, inl, inr, refl, true, false, not, ◌&&◌, Option, none, some, List, [], ◌∷◌,
  All, length, ◌==◌, arith, Option-cases, Bool-cases, if◌then◌else◌,
}
use vault_autounseal_operato.GoLib.Strings.{Bytes, codes, bytes_eq, contains}
use vault_autounseal_operato.GoLib.Strings.Laws.{bytes_eq_iff}
use vault_autounseal_operato.Controller.Types.{VaultInstance, VaultUnsealConfig}
use vault_autounseal_operato.Controller.Pods.{
  Pod, Labels, find_label, or_empty, has_value, vault_labels, all_selected, pod_matches_selector,
  is_vault_pod, pod_matches_instance, any_instance, config_matches_pod,
}

-- An element of a list.
abbrev pub Listed : {A : Type 0} → A → List A → Type 0
Listed x [] = ⊥
Listed x (y ∷ ys) = (x ≡ y) ⊎ Listed x ys

has_value_iff : (o : Option Bytes) (v : Bytes) → (has_value o v ≡ true) ↔ (o ≡ some v)
has_value_iff none v = ground arith
has_value_iff (some x) v = ground (arith, bytes_eq_iff x v)

all_selected_iff :
    (ls sel : Labels) → (all_selected ls sel ≡ true) ↔ All (λ p. find_label p.0 ls ≡ some p.1) sel
unfolding all_selected
all_selected_iff ls [] = (λ h. tt, λ h. refl)
all_selected_iff ls ((key, value) ∷ sel) =
    ground (arith, has_value_iff (find_label key ls) value, all_selected_iff ls sel)

-- A pod matches a selector exactly when it has labels, and each label of the selector with its value.
pod_matches_selector_iff :
    (p : Pod) (selector : Labels)
    → (pod_matches_selector p selector ≡ true)
      ↔ ((ls : Labels) × (p.labels ≡ some ls) × All (λ q. find_label q.0 ls ≡ some q.1) selector)
unfolding pod_matches_selector
pod_matches_selector_iff p selector = elim (Option-cases p.labels) [
  | inl e ↦ (λ h. ground arith, λ (ls, f, all). ground arith)
  | inr (ls, e) ↦ (
    λ h. (ls, e, (all_selected_iff ls selector).0 (ground arith)),
    λ (ls', f, all). ground (arith, (all_selected_iff ls' selector).1 all),
  )
]

-- The pod has labels, and it is one of Vault's: by a label, or by its name.
abbrev pub NamedVault : Bytes → Labels → Type 0
NamedVault name ls =
    (or_empty (find_label (codes "app.kubernetes.io/name") ls) ≡ codes "vault")
    ⊎ ((or_empty (find_label (codes "app.kubernetes.io/component") ls) ≡ codes "server")
        ⊎ (contains name (codes "vault") ≡ true))

abbrev pub IsVaultPod : Pod → Type 0
IsVaultPod p = (ls : Labels) × (p.labels ≡ some ls) × NamedVault p.name ls

vault_labels_iff : (name : Bytes) (ls : Labels) → (vault_labels name ls ≡ true) ↔ NamedVault name ls
vault_labels_iff name ls = ground (
  arith,
  bytes_eq_iff (or_empty (find_label (codes "app.kubernetes.io/name") ls)) (codes "vault"),
  bytes_eq_iff (or_empty (find_label (codes "app.kubernetes.io/component") ls)) (codes "server"),
)

pub is_vault_pod_iff : (p : Pod) → (is_vault_pod p ≡ true) ↔ IsVaultPod p
unfolding is_vault_pod
is_vault_pod_iff p = elim (Option-cases p.labels) [
  | inl e ↦ (λ h. ground (arith, h, e), λ t. ground (arith, t.1, e))
  | inr (ls, e) ↦ (
    λ h. (ls, e, (vault_labels_iff p.name ls).0 (rw e at h)),
    λ t. rw t.1 ((vault_labels_iff p.name t.0).1 t.2),
  )
]

-- The labels of the pod have each label of the selector with its value.
abbrev pub IsSelected : Pod → Labels → Type 0
IsSelected p selector =
    (ls : Labels) × (p.labels ≡ some ls) × All (λ q. find_label q.0 ls ≡ some q.1) selector

-- An instance matches the pods of its namespace, or of each where it names none; of these, the ones that
-- its selector selects, or the pods of Vault where it has no selector.
abbrev pub Matches : Pod → VaultInstance → Type 0
Matches p i =
    ((i.namespace ≡ []) ⊎ (i.namespace ≡ p.namespace))
    × (((i.pod_selector ≡ []) × IsVaultPod p)
        ⊎ ((i.pod_selector ≢ []) × IsSelected p i.pod_selector))

namespace_iff :
    (wanted has : Bytes)
    → ((not (length wanted == 0) && not (bytes_eq wanted has)) ≡ false)
      ↔ ((wanted ≡ []) ⊎ (wanted ≡ has))
namespace_iff [] has = (λ h. inl refl, λ h. refl)
namespace_iff (x ∷ xs) has = ground (arith, bytes_eq_iff (x ∷ xs) has)

selector_iff :
    (p : Pod) (selector : Labels)
    → ((if not (length selector == 0) then pod_matches_selector p selector else is_vault_pod p)
        ≡ true)
      ↔ (((selector ≡ []) × IsVaultPod p) ⊎ ((selector ≢ []) × IsSelected p selector))
selector_iff p [] = (
  λ h. inl (refl, (is_vault_pod_iff p).0 h),
  λ h. elim h [ inl (e, v) ↦ (is_vault_pod_iff p).1 v | inr (e, v) ↦ absurd (e refl) ],
)
selector_iff p (l ∷ ls) =
    let full : not (length (l ∷ ls) == 0) ≡ true = ground arith in
    rw full (
      λ h. inr (λ e. ground (arith, e), (pod_matches_selector_iff p (l ∷ ls)).0 h),
      λ h. elim h [
        | inl (e, v) ↦ ground (arith, e)
        | inr (e, v) ↦ (pod_matches_selector_iff p (l ∷ ls)).1 v
      ],
    )

pub pod_matches_instance_iff :
    (p : Pod) (i : VaultInstance) → (pod_matches_instance p i ≡ true) ↔ Matches p i
unfolding pod_matches_instance
pod_matches_instance_iff p i =
    let space = namespace_iff i.namespace p.namespace in
    let select = selector_iff p i.pod_selector in
    elim (Bool-cases (not (length i.namespace == 0) && not (bytes_eq i.namespace p.namespace))) [
      | inl q ↦ rw q (λ h. ground (arith, h), λ t. ground (arith, space.1 t.0, q))
      | inr q ↦ rw q (λ h. (space.0 q, select.0 h), λ t. select.1 t.1)
    ]

-- One of the instances matches the pod.
abbrev pub MatchesOne : Pod → List VaultInstance → Type 0
MatchesOne p is = (i : VaultInstance) × Listed i is × Matches p i

any_instance_iff :
    (p : Pod) (is : List VaultInstance) → (any_instance p is ≡ true) ↔ MatchesOne p is
unfolding any_instance
any_instance_iff p [] = (λ h. ground (arith, h), λ t. absurd t.1)
any_instance_iff p (j ∷ js) =
    let one = pod_matches_instance_iff p j in
    let rest = any_instance_iff p js in
    elim (Bool-cases (pod_matches_instance p j)) [
      | inl q ↦ rw q (λ h. (j, inl refl, one.0 q), λ t. refl)
      | inr q ↦ rw q (
        λ h. let (i, l, m) = rest.0 h in (i, inr l, m),
        λ (i, l, m). elim l [
          | inl e ↦ ground (arith, one.1 (rw e at m), q)
          | inr k ↦ rest.1 (i, k, m)
        ],
      )
    ]

pub config_matches_pod_iff :
    (c : VaultUnsealConfig) (p : Pod)
    → (config_matches_pod c p ≡ true) ↔ MatchesOne p c.vault_instances
unfolding config_matches_pod
config_matches_pod_iff c p = any_instance_iff p c.vault_instances
