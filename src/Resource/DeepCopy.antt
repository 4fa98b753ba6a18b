-- ===== src/Resource/DeepCopy.antt =====
-- DeepCopy, DeepCopyInto and DeepCopyObject of pkg/api/v1/types.go. A copy goes from the memory to a
-- new value and a larger memory. The slots of a new array are filled before its address is given out,
-- which no reader can tell from filling them afterwards. DeepCopyInto of metav1.ObjectMeta,
-- metav1.Condition and metav1.Time are parameters, and for a list that of metav1.ListMeta.
pub mod Deep
pub mod Apart
use vault_autounseal_operato.Prelude.{ℕ, Option, none, some, List, [], ◌∷◌, ℤ, take, drop}
use vault_autounseal_operato.GoLib.Strings.{Bytes}
use vault_autounseal_operato.Controller.Types.{Condition}
use vault_autounseal_operato.Resource.Memory.{
  Memory, Store, Slice, VaultInstance, VaultInstanceStatus, VaultUnsealConfigStatus,
  VaultUnsealConfig, VaultUnsealConfigList, InstanceCell, StatusCell, ConfigCell, ints, times,
  string_arrays, string_maps, instance_arrays, condition_arrays, status_arrays, config_arrays,
}

abbrev pub Alloc : Type 0 → Type 0 → Type 0
Alloc M V = M → V × M

-- The elements of an array that a slice shows.
abbrev pub window : {A : Type 0} → Slice → List A → List A
window s xs = take s.len (drop s.offset xs)

module _ {M : Type 0} where
  abbrev pub pure : {V : Type 0} → V → Alloc M V
  pure v m = (v, m)

  abbrev pub and_then : {V W : Type 0} → (V → Alloc M W) → V × M → W × M
  and_then k (v, m) = k v m

  infixl 5 ◌>>=◌
  abbrev pub ◌>>=◌ : {V W : Type 0} → Alloc M V → (V → Alloc M W) → Alloc M W
  f >>= k = λ m. and_then k (f m)

  -- `if in != nil { *out = new(T); **out = copy(**in) }`; also for a map.
  unfoldable pub copy_pointer : {A : Type 0} → Store M A → (A → A) → Option ℕ → Alloc M (Option ℕ)
  copy_pointer s copy none m = (none, m)
  copy_pointer s copy (some a) m = (some (s.next m), s.alloc (copy (s.read m a)) m)

  -- `for i := range *in { (*in)[i].DeepCopyInto(&(*out)[i]) }`.
  unfoldable pub copy_each : {A : Type 0} → (A → Alloc M A) → List A → Alloc M (List A)
  copy_each copy [] m = ([], m)
  copy_each copy (x ∷ xs) m =
      let (y, m1) = copy x m in let (ys, m2) = copy_each copy xs m1 in (y ∷ ys, m2)

  -- `if in != nil { *out = make([]T, len(*in)); … }`.
  unfoldable pub copy_slice :
      {A : Type 0} → Store M (List A) → (A → Alloc M A) → Option Slice → Alloc M (Option Slice)
  copy_slice s copy none m = (none, m)
  copy_slice s copy (some v) m =
      let (xs, m1) = copy_each copy (window v (s.read m v.array)) m in
      (some (record { array = s.next m1; offset = 0; len = v.len }), s.alloc xs m1)

-- `make([]string, len(*in)); copy(*out, *in)`: all elements fit.
abbrev pub copy_string : {M : Type 0} → Bytes → Alloc M Bytes
copy_string s = pure s

-- `for key, val := range *in { (*out)[key] = val }`. A map has each key once, so each round adds an entry.
unfoldable pub copy_entries : List (Bytes × Bytes) → List (Bytes × Bytes)
copy_entries [] = []
copy_entries ((key, val) ∷ entries) = (key, val) ∷ copy_entries entries

-- DeepCopy of the pointer type: nil for nil, else `new` and DeepCopyInto.
unfoldable pub deep_copy : {M V : Type 0} → (V → Alloc M V) → Option V → Alloc M (Option V)
deep_copy into none m = (none, m)
deep_copy into (some v) m = let (c, m1) = into v m in (some c, m1)

-- DeepCopyObject: the nil interface where DeepCopy returns nil.
unfoldable pub deep_copy_object : {M V : Type 0} → (V → Alloc M V) → Option V → Alloc M (Option V)
unfolding deep_copy
deep_copy_object into v = do
  c ← deep_copy into v
  pure (elim c [ none ↦ none | some copied ↦ some copied ])

module _ {Meta Other : Type 0} where
  unfoldable pub copy_vault_instance : InstanceCell → Alloc (Memory Meta Other) InstanceCell
  unfolding copy_pointer copy_slice copy_entries
  copy_vault_instance v = do
    threshold ← copy_pointer ints (λ n. n) v.threshold
    unseal_keys ← copy_slice string_arrays copy_string v.unseal_keys
    pod_selector ← copy_pointer string_maps copy_entries v.pod_selector
    pure
        (record v { threshold = threshold; unseal_keys = unseal_keys; pod_selector = pod_selector })

  unfoldable pub copy_vault_unseal_config_spec :
      Option Slice → Alloc (Memory Meta Other) (Option Slice)
  unfolding copy_vault_instance
  copy_vault_unseal_config_spec = copy_slice instance_arrays copy_vault_instance

-- What is in packages of Kubernetes: DeepCopyInto of ObjectMeta, of Condition, and what DeepCopy of
-- Time stores.
module _ {Meta Other : Type 0} (copy_meta : Meta → Alloc (Memory Meta Other) Meta)
    (copy_condition : Condition → Condition) (copy_time : ℕ → ℕ) where
  unfoldable pub copy_vault_instance_status : StatusCell → Alloc (Memory Meta Other) StatusCell
  unfolding copy_pointer
  copy_vault_instance_status v = do
    last_unsealed ← copy_pointer times copy_time v.last_unsealed
    pure (record v { last_unsealed = last_unsealed })

  unfoldable pub copy_vault_unseal_config_status :
      VaultUnsealConfigStatus (Option Slice) (Option Slice)
      → Alloc (Memory Meta Other) (VaultUnsealConfigStatus (Option Slice) (Option Slice))
  unfolding copy_slice copy_vault_instance_status
  copy_vault_unseal_config_status v = do
    conditions ← copy_slice condition_arrays (λ c. pure (copy_condition c)) v.conditions
    vault_statuses ← copy_slice status_arrays copy_vault_instance_status v.vault_statuses
    pure (record { conditions = conditions; vault_statuses = vault_statuses })

  unfoldable pub copy_vault_unseal_config :
      ConfigCell Meta → Alloc (Memory Meta Other) (ConfigCell Meta)
  unfolding copy_vault_unseal_config_spec copy_vault_unseal_config_status
  copy_vault_unseal_config v = do
    object_meta ← copy_meta v.object_meta
    spec ← copy_vault_unseal_config_spec v.spec
    status ← copy_vault_unseal_config_status v.status
    pure (record v { object_meta = object_meta; spec = spec; status = status })

  -- Given DeepCopyInto of ListMeta.
  unfoldable pub copy_vault_unseal_config_list :
      {ListMeta : Type 0}
      → (ListMeta → Alloc (Memory Meta Other) ListMeta)
      → VaultUnsealConfigList ListMeta (Option Slice)
      → Alloc (Memory Meta Other) (VaultUnsealConfigList ListMeta (Option Slice))
  unfolding copy_slice copy_vault_unseal_config
  copy_vault_unseal_config_list copy_list_meta v = do
    list_meta ← copy_list_meta v.list_meta
    items ← copy_slice config_arrays copy_vault_unseal_config v.items
    pure (record v { list_meta = list_meta; items = items })
