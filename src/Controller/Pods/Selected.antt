-- ===== src/Controller/Pods/Selected.antt =====
-- pkg/controller/vaultunsealconfig_controller.go: which configurations an event of a pod triggers.
use vault_autounseal_operato.Prelude.{
  ◌≡◌, ◌↔◌, inl, inr, refl, ap, ◌∙◌, some, List, [], ◌∷◌, arith, Bool-cases,
}
use vault_autounseal_operato.GoLib.Outcome.{Outcome, ok, err, panic}
use vault_autounseal_operato.Errors.{Err}
use vault_autounseal_operato.Controller.Types.{VaultUnsealConfig}
use vault_autounseal_operato.Controller.Reconcile.{NamespacedName}
use vault_autounseal_operato.Controller.Pods.{
  Pod, is_vault_pod, config_matches_pod, request_for, requests_of, matching_requests,
  find_vault_configs_for_pod,
}
use vault_autounseal_operato.Controller.Pods.Matched.{
  Listed, IsVaultPod, MatchesOne, is_vault_pod_iff, config_matches_pod_iff,
}

ok_injective : {A : Type 0} {a b : A} → ◌≡◌ {A = Outcome Err A} (ok a) (ok b) → a ≡ b
ok_injective h = ground (arith, h)

module _ (p : Pod) where
  -- A configuration among those listed of which an instance matches the pod, and whose request this is.
  abbrev pub Triggers : NamespacedName → List VaultUnsealConfig → Type 0
  Triggers r configs =
      (c : VaultUnsealConfig) × Listed c configs
      × MatchesOne p c.vault_instances
      × (r ≡ request_for c)

  matching_requests_iff :
      (r : NamespacedName) (configs : List VaultUnsealConfig)
      → Listed r (matching_requests p configs) ↔ Triggers r configs
  unfolding matching_requests
  matching_requests_iff r [] = (λ h. absurd h, λ (c, h, _, _). absurd h)
  matching_requests_iff r (d ∷ ds) =
      let ih = matching_requests_iff r ds in
      let match = config_matches_pod_iff d p in
      elim (Bool-cases (config_matches_pod d p)) [
        | inl hit ↦ rw hit (
          λ h. elim h [
            | inl e ↦ (d, inl refl, match.0 hit, e)
            | inr m ↦ let (c, l, y, e) = ih.0 m in (c, inr l, y, e)
          ],
          λ (c, h, y, e). elim h [
            | inl q ↦ inl (e ∙ ap request_for q)
            | inr l ↦ inr (ih.1 (c, l, y, e))
          ],
        )
        | inr miss ↦ rw miss (
          λ h. let (c, l, y, e) = ih.0 h in (c, inr l, y, e),
          λ (c, h, y, e). elim h [
            | inl q ↦ ground (arith, match.1 (rw q at y), miss)
            | inr l ↦ ih.1 (c, l, y, e)
          ],
        )
      ]

  -- An event of a pod asks for a configuration exactly when the pod has labels and is one of Vault's by
  -- a label or its name, and a configuration with this name is listed that has an instance, at any
  -- place, which matches the pod: one without a namespace or with the pod's, and with a selector of which
  -- the pod has each label, or without one. A failed List asks for nothing. So a pod that is not one
  -- of Vault's asks for nothing, also where a podSelector of an instance selects it.
  pub find_vault_configs_for_pod_iff :
      (r : NamespacedName) (list : Outcome Err (List VaultUnsealConfig))
      → Listed r (find_vault_configs_for_pod (some p) list) ↔ (
          IsVaultPod p
          × ((configs : List VaultUnsealConfig) × (list ≡ ok configs) × Triggers r configs))
  unfolding find_vault_configs_for_pod
  find_vault_configs_for_pod_iff r list = elim (Bool-cases (is_vault_pod p)) [
    | inl hit ↦
        rw hit
          (λ h. ((is_vault_pod_iff p).0 hit, (requests r list).0 h), λ t. (requests r list).1 t.1)
    | inr miss ↦ rw miss (λ h. absurd h, λ t. ground (arith, (is_vault_pod_iff p).1 t.0, miss))
  ]
    where
      requests :
          (r : NamespacedName) (list : Outcome Err (List VaultUnsealConfig))
          → Listed r (requests_of p list)
            ↔ ((configs : List VaultUnsealConfig) × (list ≡ ok configs) × Triggers r configs)
      requests r (ok configs) = (
        λ h. (configs, refl, (matching_requests_iff r configs).0 h),
        λ (cs, e, t). (matching_requests_iff r configs).1 (rw (ok_injective e) t),
      )
      requests r (err e) = (λ h. absurd h, λ (cs, q, _). ground (arith, q))
      requests r panic = (λ h. absurd h, λ (cs, q, _). ground (arith, q))
