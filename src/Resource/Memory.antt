-- ===== src/Resource/Memory.antt =====
-- The structs of pkg/api/v1/types.go with their pointers, slices and maps, and the memory in which
-- these point. Each struct has the types of its reference fields as parameters: addresses as it is
-- stored, and what stands there as it is read.
pub mod Laws
use vault_autounseal_operato.Prelude.{ℕ, suc, Bool, Option, List, ℤ, ◌==◌, if◌then◌else◌}
use vault_autounseal_operato.GoLib.Strings.{Bytes}
use vault_autounseal_operato.Controller.Types.{Condition}

pub record VaultInstance (Keys Int Map : Type 0) : Type 0 where
  pub name : Bytes
  pub endpoint : Bytes
  pub unseal_keys : Keys
  pub threshold : Int
  pub tls_skip_verify : Bool
  pub ha_enabled : Bool
  pub pod_selector : Map
  pub namespace : Bytes

pub record VaultInstanceStatus (Time : Type 0) : Type 0 where
  pub name : Bytes
  pub sealed : Bool
  pub last_unsealed : Time
  pub error : Bytes

pub record VaultUnsealConfigStatus (Conditions Statuses : Type 0) : Type 0 where
  pub conditions : Conditions
  pub vault_statuses : Statuses

-- `spec` is the struct VaultUnsealConfigSpec, whose one field is the slice of instances.
pub record VaultUnsealConfig (Meta Spec Status : Type 0) : Type 0 where
  pub kind : Bytes
  pub api_version : Bytes
  pub object_meta : Meta
  pub spec : Spec
  pub status : Status

pub record VaultUnsealConfigList (Meta Items : Type 0) : Type 0 where
  pub kind : Bytes
  pub api_version : Bytes
  pub list_meta : Meta
  pub items : Items

-- A slice: its array, where in the array it starts, and its length.
pub record Slice : Type 0 where
  pub array : ℕ
  pub offset : ℕ
  pub len : ℕ

-- The structs as they are stored. A nil pointer, slice or map is `none`.
abbrev pub InstanceCell : Type 0
InstanceCell = VaultInstance (Option Slice) (Option ℕ) (Option ℕ)

abbrev pub StatusCell : Type 0
StatusCell = VaultInstanceStatus (Option ℕ)

abbrev pub ConfigCell : Type 0 → Type 0
ConfigCell Meta =
    VaultUnsealConfig Meta (Option Slice) (VaultUnsealConfigStatus (Option Slice) (Option Slice))

-- The memory, by the type of what stands at an address. The addresses from `next` on are not in
-- use. `others` holds what metav1.ObjectMeta, of the type `Meta`, points to.
pub record Memory (Meta Other : Type 0) : Type 0 where
  pub next : ℕ
  pub ints : ℕ → ℤ
  pub times : ℕ → ℕ
  pub string_arrays : ℕ → List Bytes
  pub string_maps : ℕ → List (Bytes × Bytes)
  pub instance_arrays : ℕ → List InstanceCell
  pub condition_arrays : ℕ → List Condition
  pub status_arrays : ℕ → List StatusCell
  pub config_arrays : ℕ → List (ConfigCell Meta)
  pub others : ℕ → Other

-- `put a x f` is `f` but for the address `a`.
unfoldable pub put : {A : Type 0} → ℕ → A → (ℕ → A) → ℕ → A
put a x f b = if b == a then x else f b

-- The objects of one type: how to read one, and how to allocate one at the address `next`.
pub record Store (M A : Type 0) : Type 0 where
  pub read : M → ℕ → A
  pub next : M → ℕ
  pub alloc : A → M → M

module _ {Meta Other : Type 0} where
  abbrev pub ints : Store (Memory Meta Other) ℤ
  ints = record {
    read = λ m. m.ints;
    next = λ m. m.next;
    alloc = λ x m. record m { next = suc m.next; ints = put m.next x m.ints };
  }

  abbrev pub times : Store (Memory Meta Other) ℕ
  times = record {
    read = λ m. m.times;
    next = λ m. m.next;
    alloc = λ x m. record m { next = suc m.next; times = put m.next x m.times };
  }

  abbrev pub string_arrays : Store (Memory Meta Other) (List Bytes)
  string_arrays = record {
    read = λ m. m.string_arrays;
    next = λ m. m.next;
    alloc = λ x m. record m { next = suc m.next; string_arrays = put m.next x m.string_arrays };
  }

  abbrev pub string_maps : Store (Memory Meta Other) (List (Bytes × Bytes))
  string_maps = record {
    read = λ m. m.string_maps;
    next = λ m. m.next;
    alloc = λ x m. record m { next = suc m.next; string_maps = put m.next x m.string_maps };
  }

  abbrev pub instance_arrays : Store (Memory Meta Other) (List InstanceCell)
  instance_arrays = record {
    read = λ m. m.instance_arrays;
    next = λ m. m.next;
    alloc = λ x m. record m { next = suc m.next; instance_arrays = put m.next x m.instance_arrays };
  }

  abbrev pub condition_arrays : Store (Memory Meta Other) (List Condition)
  condition_arrays = record {
    read = λ m. m.condition_arrays;
    next = λ m. m.next;
    alloc =
        λ x m. record m { next = suc m.next; condition_arrays = put m.next x m.condition_arrays };
  }

  abbrev pub status_arrays : Store (Memory Meta Other) (List StatusCell)
  status_arrays = record {
    read = λ m. m.status_arrays;
    next = λ m. m.next;
    alloc = λ x m. record m { next = suc m.next; status_arrays = put m.next x m.status_arrays };
  }

  abbrev pub config_arrays : Store (Memory Meta Other) (List (ConfigCell Meta))
  config_arrays = record {
    read = λ m. m.config_arrays;
    next = λ m. m.next;
    alloc = λ x m. record m { next = suc m.next; config_arrays = put m.next x m.config_arrays };
  }

  abbrev pub others : Store (Memory Meta Other) Other
  others = record {
    read = λ m. m.others;
    next = λ m. m.next;
    alloc = λ x m. record m { next = suc m.next; others = put m.next x m.others };
  }
