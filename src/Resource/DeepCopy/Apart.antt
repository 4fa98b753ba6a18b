-- ===== src/Resource/DeepCopy/Apart.antt =====
-- What DeepCopyObject of pkg/api/v1/types.go promises its callers: a copy that reads as the original,
-- and that can be changed without changing it.
use vault_autounseal_operato.Prelude.{ℕ, ◌≡◌, refl, ◌∙◌, Option, List}
use vault_autounseal_operato.Controller.Types.{Condition}
use vault_autounseal_operato.Resource.Memory.{
  Memory, Slice, VaultUnsealConfigList, ConfigCell, config_arrays,
}
use vault_autounseal_operato.Resource.Memory.Laws.{below, between, Agree, config_arrays-IsStore}
use vault_autounseal_operato.Resource.DeepCopy.{
  Alloc, copy_vault_unseal_config, copy_vault_unseal_config_list, deep_copy_object,
}
use vault_autounseal_operato.Resource.DeepCopy.Deep.{
  ConfigView, vault_unseal_config, copy_vault_unseal_config-Copies,
}
use vault_autounseal_operato.Resource.Shape.{Shape, Live, DeepCopied, Copies, pair, pair-Copies}
use vault_autounseal_operato.Resource.Shape.Fields.{
  optional, deep_copy_object-Copies, struct, struct-Copies,
}
use vault_autounseal_operato.Resource.Shape.Slices.{slice, slice-Copies}

abbrev list_view :
    {ListMeta ListView Items ItemsView : Type 0}
    → VaultUnsealConfigList ListMeta Items
    → ListView × ItemsView
    → VaultUnsealConfigList ListView ItemsView
list_view v c = record { kind = v.kind; api_version = v.api_version; list_meta = c.0; items = c.1 }

module _ {Meta Other MetaView : Type 0} (meta : Shape (Memory Meta Other) Meta MetaView) where
  -- What a *VaultUnsealConfig reads as.
  abbrev pub reads : Memory Meta Other → Option (ConfigCell Meta) → Option (ConfigView MetaView)
  reads m v = (optional (vault_unseal_config meta)).contents m v

  -- A list reads as its ListMeta and its items, which are a slice of configurations.
  abbrev pub listing :
      {ListMeta ListView : Type 0}
      → Shape (Memory Meta Other) ListMeta ListView
      → Shape
          (Memory Meta Other)
          (VaultUnsealConfigList ListMeta (Option Slice))
          (VaultUnsealConfigList ListView (Option (List (ConfigView MetaView))))
  listing list_meta =
      struct (λ v. (v.list_meta, v.items)) list_view
        (pair list_meta (slice (vault_unseal_config meta) config_arrays))

module _ {Meta Other MetaView : Type 0} (meta : Shape (Memory Meta Other) Meta MetaView)
    {copy_meta : Meta → Alloc (Memory Meta Other) Meta} (copy_condition : Condition → Condition)
    (copy_time : ℕ → ℕ) (meta_copies : Copies meta copy_meta)
    (copy_condition_same : (c : Condition) → copy_condition c ≡ c)
    (copy_time_same : (t : ℕ) → copy_time t ≡ t) (m : Memory Meta Other) where
  module _ (v : Option (ConfigCell Meta))
      (live : Live (optional (vault_unseal_config meta)) m v) where
    abbrev copied : Option (ConfigCell Meta) × Memory Meta Other
    copied = deep_copy_object (copy_vault_unseal_config copy_meta copy_condition copy_time) v m

    copies :
        Copies
          (optional (vault_unseal_config meta))
          (deep_copy_object (copy_vault_unseal_config copy_meta copy_condition copy_time))
    copies = deep_copy_object-Copies (
        copy_vault_unseal_config-Copies copy_condition copy_time meta_copies copy_condition_same
          copy_time_same)

    deep : DeepCopied (optional (vault_unseal_config meta)) m v copied
    deep = copies.copied m v live

    -- DeepCopyObject of a configuration in memory, or of nil, returns what reads the same as the
    -- original did, each nil field included; and the original reads as before. It is assumed that
    -- DeepCopyInto of ObjectMeta copies deeply, and that those of Condition and Time yield equal values.
    pub deep_copy_object-same :
        (reads meta copied.1 copied.0 ≡ reads meta m v) × (reads meta copied.1 v ≡ reads meta m v)
    deep_copy_object-same = (deep.same, copies.is_shape.contents-agree deep.kept v live)

    -- The copy and the original can be changed apart: every address that the copy reaches was not in
    -- use before; while the memory changes at such addresses only, the original reads as before; and
    -- while it keeps them, the copy reads as the original did. The original is in memory or nil, and
    -- it is assumed that DeepCopyInto of ObjectMeta copies deeply, and that those of Condition and Time
    -- yield equal values.
    pub deep_copy_object-apart :
        (changed_copy changed_original : Memory Meta Other)
        → Agree (below m.next) copied.1 changed_copy
        → Agree (between m.next copied.1.next) copied.1 changed_original
        → (optional (vault_unseal_config meta)).Within
            (between m.next copied.1.next)
            copied.1
            copied.0
          × (reads meta changed_copy v ≡ reads meta m v)
          × (reads meta changed_original copied.0 ≡ reads meta m v)
    deep_copy_object-apart changed_copy changed_original old new =
        let i = copies.is_shape in
        (
          deep.fresh,
          i.contents-agree old v (i.Within-agree deep.kept v live)
              ∙ i.contents-agree deep.kept v live,
          i.contents-agree new copied.0 deep.fresh ∙ deep.same,
        )

  -- DeepCopyInto of a list copies deeply: its ListMeta and its items, which are in memory, read in the
  -- copy as in the original, nothing that was in use has changed, and the copy reaches only addresses
  -- that were not in use before. It is assumed that DeepCopyInto of ObjectMeta and of ListMeta copy
  -- deeply, and that those of Condition and Time yield equal values.
  pub copy_vault_unseal_config_list-Deep :
      {ListMeta ListView : Type 0} (list_meta : Shape (Memory Meta Other) ListMeta ListView)
      (copy_list_meta : ListMeta → Alloc (Memory Meta Other) ListMeta)
      → Copies list_meta copy_list_meta
      → (l : VaultUnsealConfigList ListMeta (Option Slice)) → Live (listing meta list_meta) m l
      → DeepCopied
          (listing meta list_meta)
          m
          l
          (copy_vault_unseal_config_list copy_meta copy_condition copy_time copy_list_meta l m)
  unfolding copy_vault_unseal_config_list
  copy_vault_unseal_config_list-Deep list_meta copy_list_meta list_copies l live =
      (struct-Copies (λ v. (v.list_meta, v.items)) list_view
          (λ v c. record v { list_meta = c.0; items = c.1 }) (λ v c. refl) (λ v c d. refl)
          (pair-Copies list_copies (
            slice-Copies (vault_unseal_config meta) config_arrays config_arrays-IsStore (
              copy_vault_unseal_config-Copies copy_condition copy_time meta_copies
                copy_condition_same copy_time_same)))).copied
        m l live
