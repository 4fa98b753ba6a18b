-- ===== src/Resource/DeepCopy/Deep.antt =====
-- The functions of pkg/api/v1/types.go copy deeply: a copy reads as its original, nil fields included,
-- and the two share no address.
use vault_autounseal_operato.Prelude.{ℕ, ◌≡◌, refl, Option, List, [], ◌∷◌, ap, ℤ}
use vault_autounseal_operato.GoLib.Strings.{Bytes}
use vault_autounseal_operato.Controller.Types.{Condition}
use vault_autounseal_operato.Resource.Memory.{
  Memory, Slice, VaultInstance, VaultInstanceStatus, VaultUnsealConfigStatus, VaultUnsealConfig,
  InstanceCell, StatusCell, ConfigCell, ints, times, string_arrays, string_maps, instance_arrays,
  condition_arrays, status_arrays,
}
use vault_autounseal_operato.Resource.Memory.Laws.{
  ints-IsStore, times-IsStore, string_arrays-IsStore, string_maps-IsStore, instance_arrays-IsStore,
  condition_arrays-IsStore, status_arrays-IsStore,
}
use vault_autounseal_operato.Resource.DeepCopy.{
  Alloc, copy_entries, copy_vault_instance, copy_vault_unseal_config_spec,
  copy_vault_instance_status, copy_vault_unseal_config_status, copy_vault_unseal_config,
}
use vault_autounseal_operato.Resource.Shape.{Shape, Copies, flat, flat-Copies, pair, pair-Copies}
use vault_autounseal_operato.Resource.Shape.Fields.{struct, struct-Copies, pointer, pointer-Copies}
use vault_autounseal_operato.Resource.Shape.Slices.{slice, slice-Copies}

-- The structs as they read, nil apart from empty.
abbrev pub InstanceView : Type 0
InstanceView = VaultInstance (Option (List Bytes)) (Option ℤ) (Option (List (Bytes × Bytes)))

abbrev pub StatusView : Type 0
StatusView =
    VaultUnsealConfigStatus (Option (List Condition))
      (Option (List (VaultInstanceStatus (Option ℕ))))

abbrev pub ConfigView : Type 0 → Type 0
ConfigView C = VaultUnsealConfig C (Option (List InstanceView)) StatusView

copy_entries_id : (es : List (Bytes × Bytes)) → copy_entries es ≡ es
unfolding copy_entries
copy_entries_id [] = refl
copy_entries_id ((key, val) ∷ es) = ap (◌∷◌ (key, val)) (copy_entries_id es)

abbrev instance_view :
    InstanceCell → Option ℤ × (Option (List Bytes) × Option (List (Bytes × Bytes))) → InstanceView
instance_view v c = record {
  name = v.name;
  endpoint = v.endpoint;
  unseal_keys = c.1.0;
  threshold = c.0;
  tls_skip_verify = v.tls_skip_verify;
  ha_enabled = v.ha_enabled;
  pod_selector = c.1.1;
  namespace = v.namespace;
}

abbrev instance_status_view : StatusCell → Option ℕ → VaultInstanceStatus (Option ℕ)
instance_status_view v c = record {
  name = v.name;
  sealed = v.sealed;
  last_unsealed = c;
  error = v.error;
}

module _ {Meta Other : Type 0} where
  abbrev pub vault_instance : Shape (Memory Meta Other) InstanceCell InstanceView
  vault_instance =
      struct (λ v. (v.threshold, (v.unseal_keys, v.pod_selector))) instance_view
        (pair (pointer ints) (pair (slice (flat Bytes) string_arrays) (pointer string_maps)))

  copy_vault_instance-Copies : Copies vault_instance copy_vault_instance
  unfolding copy_vault_instance
  copy_vault_instance-Copies =
      struct-Copies (λ v. (v.threshold, (v.unseal_keys, v.pod_selector))) instance_view
        (λ v c. record v { threshold = c.0; unseal_keys = c.1.0; pod_selector = c.1.1 })
        (λ v c. refl) (λ v c d. refl)
        (pair-Copies (pointer-Copies ints ints-IsStore (λ n. n) (λ n. refl)) (
          pair-Copies
            (slice-Copies (flat Bytes) string_arrays string_arrays-IsStore
              (flat-Copies (λ s. s) (λ s. refl)))
            (pointer-Copies string_maps string_maps-IsStore copy_entries copy_entries_id)))

  abbrev pub spec : Shape (Memory Meta Other) (Option Slice) (Option (List InstanceView))
  spec = slice vault_instance instance_arrays

  copy_vault_unseal_config_spec-Copies : Copies spec copy_vault_unseal_config_spec
  unfolding copy_vault_unseal_config_spec
  copy_vault_unseal_config_spec-Copies =
      slice-Copies vault_instance instance_arrays instance_arrays-IsStore copy_vault_instance-Copies

  abbrev pub instance_status : Shape (Memory Meta Other) StatusCell (VaultInstanceStatus (Option ℕ))
  instance_status = struct (λ v. v.last_unsealed) instance_status_view (pointer times)

  abbrev pub status :
      Shape (Memory Meta Other) (VaultUnsealConfigStatus (Option Slice) (Option Slice)) StatusView
  status =
      struct (λ v. (v.conditions, v.vault_statuses))
        (λ v c. record { conditions = c.0; vault_statuses = c.1 })
        (pair (slice (flat Condition) condition_arrays) (slice instance_status status_arrays))

module _ {Meta Other MetaView : Type 0} (meta : Shape (Memory Meta Other) Meta MetaView) where
  -- A configuration, given how its ObjectMeta reads.
  abbrev pub vault_unseal_config : Shape (Memory Meta Other) (ConfigCell Meta) (ConfigView MetaView)
  vault_unseal_config =
      struct (λ v. (v.object_meta, (v.spec, v.status)))
        (λ v c. record {
          kind = v.kind;
          api_version = v.api_version;
          object_meta = c.0;
          spec = c.1.0;
          status = c.1.1;
        })
        (pair meta (pair spec status))

-- What is assumed of Kubernetes: its copies are deep, and those of plain structs equal.
module _ {Meta Other MetaView : Type 0} {meta : Shape (Memory Meta Other) Meta MetaView}
    {copy_meta : Meta → Alloc (Memory Meta Other) Meta} (copy_condition : Condition → Condition)
    (copy_time : ℕ → ℕ) (meta_copies : Copies meta copy_meta)
    (copy_condition_same : (c : Condition) → copy_condition c ≡ c)
    (copy_time_same : (t : ℕ) → copy_time t ≡ t) where
  copy_vault_instance_status-Copies :
      Copies instance_status (copy_vault_instance_status copy_meta copy_condition copy_time)
  unfolding copy_vault_instance_status
  copy_vault_instance_status-Copies =
      struct-Copies (λ v. v.last_unsealed) instance_status_view
        (λ v c. record v { last_unsealed = c }) (λ v c. refl) (λ v c d. refl)
        (pointer-Copies times times-IsStore copy_time copy_time_same)

  copy_vault_unseal_config_status-Copies :
      Copies status (copy_vault_unseal_config_status copy_meta copy_condition copy_time)
  unfolding copy_vault_unseal_config_status
  copy_vault_unseal_config_status-Copies =
      struct-Copies (λ v. (v.conditions, v.vault_statuses))
        (λ v c. record { conditions = c.0; vault_statuses = c.1 })
        (λ v c. record { conditions = c.0; vault_statuses = c.1 }) (λ v c. refl) (λ v c d. refl)
        (pair-Copies
          (slice-Copies (flat Condition) condition_arrays condition_arrays-IsStore
            (flat-Copies copy_condition copy_condition_same))
          (slice-Copies instance_status status_arrays status_arrays-IsStore
            copy_vault_instance_status-Copies))

  pub copy_vault_unseal_config-Copies :
      Copies
        (vault_unseal_config meta)
        (copy_vault_unseal_config copy_meta copy_condition copy_time)
  unfolding copy_vault_unseal_config
  copy_vault_unseal_config-Copies =
      struct-Copies (λ v. (v.object_meta, (v.spec, v.status)))
        (λ v c. record {
          kind = v.kind;
          api_version = v.api_version;
          object_meta = c.0;
          spec = c.1.0;
          status = c.1.1;
        })
        (λ v c. record v { object_meta = c.0; spec = c.1.0; status = c.1.1 }) (λ v c. refl)
        (λ v c d. refl)
        (pair-Copies meta_copies
          (pair-Copies copy_vault_unseal_config_spec-Copies copy_vault_unseal_config_status-Copies))
