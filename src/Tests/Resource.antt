-- ===== src/Tests/Resource.antt =====
-- A configuration in memory, copied.
use vault_autounseal_operato.Prelude.{
  ℕ, ◌<◌, ◌≡◌, refl, false, Option, none, some, [], ◌∷◌, List, pos, arith,
}
use vault_autounseal_operato.GoLib.Strings.{Bytes, codes}
use vault_autounseal_operato.Resource.Memory.{
  Memory, Slice, VaultUnsealConfigList, ConfigCell, others, put,
}
use vault_autounseal_operato.Resource.Memory.Laws.{between, Agree, agree, others-IsStore}
use vault_autounseal_operato.Resource.DeepCopy.{
  copy_pointer, copy_each, copy_vault_unseal_config, copy_vault_unseal_config_list,
  deep_copy_object,
}
use vault_autounseal_operato.Resource.DeepCopy.Deep.{vault_unseal_config}
use vault_autounseal_operato.Resource.DeepCopy.Apart.{
  reads, listing, deep_copy_object-same, deep_copy_object-apart, copy_vault_unseal_config_list-Deep,
}
use vault_autounseal_operato.Resource.Shape.{Shape, DeepCopied, Copies}
use vault_autounseal_operato.Resource.Shape.Fields.{optional, pointer, pointer-Copies}

-- The ObjectMeta has a pointer to some labels.
abbrev Meta : Type 0
Meta = Option ℕ

abbrev Held : Type 0
Held = Memory Meta (List Bytes)

abbrev meta : Shape Held Meta (Option (List Bytes))
meta = pointer others

meta-Copies : Copies meta (copy_pointer others (λ labels. labels))
meta-Copies = pointer-Copies others others-IsStore (λ labels. labels) (λ labels. refl)

-- One instance, with the last two keys of an array of three.
abbrev held : Held
held = record {
  next = 8;
  ints = λ a. pos 2;
  times = λ a. 77;
  string_arrays = λ a. codes "a" ∷ codes "b" ∷ codes "c" ∷ [];
  string_maps = λ a. (codes "app", codes "vault") ∷ [];
  instance_arrays = λ a.
      record {
        name = codes "v";
        endpoint = codes "http://v";
        unseal_keys = some (record { array = 1; offset = 1; len = 2 });
        threshold = some 0;
        tls_skip_verify = false;
        ha_enabled = false;
        pod_selector = some 2;
        namespace = [];
      }
      ∷ [];
  condition_arrays = λ a. [];
  status_arrays =
      λ a. record { name = codes "v"; sealed = false; last_unsealed = some 3; error = [] } ∷ [];
  config_arrays = λ a. [];
  others = λ a. codes "label" ∷ [];
}

abbrev demo : ConfigCell Meta
demo = record {
  kind = codes "VaultUnsealConfig";
  api_version = codes "v1";
  object_meta = some 4;
  spec = some (record { array = 5; offset = 0; len = 1 });
  status = record {
    conditions = none;
    vault_statuses = some (record { array = 6; offset = 0; len = 1 });
  };
}

demo_live : (optional (vault_unseal_config meta)).Within (λ a. a < 8) held (some demo)
demo_live = ground arith

abbrev copied : Option (ConfigCell Meta) × Held
copied =
    deep_copy_object
      (copy_vault_unseal_config (copy_pointer others (λ labels. labels)) (λ c. c) (λ t. t))
      (some demo) held

-- The keys of the copy are in a new array, of which the slice shows all.
copied_keys : copied.1.string_arrays 10 ≡ codes "b" ∷ codes "c" ∷ []
unfolding deep_copy_object copy_vault_unseal_config copy_each put
copied_keys = refl

deep_copy_object-same_example :
    (reads meta copied.1 copied.0 ≡ reads meta held (some demo))
    × (reads meta copied.1 (some demo) ≡ reads meta held (some demo))
deep_copy_object-same_example =
    deep_copy_object-same meta (λ c. c) (λ t. t) meta-Copies (λ c. refl) (λ t. refl) held
      (some demo) demo_live

-- The keys of the copy are overwritten; and all of the original is.
abbrev changed_copy : Held
changed_copy = record copied.1 { string_arrays = put 10 [] copied.1.string_arrays }

abbrev changed_original : Held
changed_original = record copied.1 { string_arrays = put 1 [] copied.1.string_arrays }

unchanged_below : Agree (λ a. a < 8) copied.1 changed_copy
unfolding put
unchanged_below =
    agree (λ a. a < 8) copied.1 changed_copy (λ a h. refl) (λ a h. refl) (λ a h. ground arith)
      (λ a h. refl) (λ a h. refl) (λ a h. refl) (λ a h. refl) (λ a h. refl) (λ a h. refl)

unchanged_between : Agree (between 8 copied.1.next) copied.1 changed_original
unfolding put
unchanged_between =
    agree (between 8 copied.1.next) copied.1 changed_original (λ a h. refl) (λ a h. refl)
      (λ a h. ground arith) (λ a h. refl) (λ a h. refl) (λ a h. refl) (λ a h. refl) (λ a h. refl)
      (λ a h. refl)

deep_copy_object-apart_example :
    (optional (vault_unseal_config meta)).Within (between 8 copied.1.next) copied.1 copied.0
    × (reads meta changed_copy (some demo) ≡ reads meta held (some demo))
    × (reads meta changed_original copied.0 ≡ reads meta held (some demo))
deep_copy_object-apart_example =
    deep_copy_object-apart meta (λ c. c) (λ t. t) meta-Copies (λ c. refl) (λ t. refl) held
      (some demo) demo_live changed_copy changed_original unchanged_below unchanged_between

abbrev demo_list : VaultUnsealConfigList (Option ℕ) (Option Slice)
demo_list = record {
  kind = codes "VaultUnsealConfigList";
  api_version = codes "v1";
  list_meta = some 3;
  items = some (record { array = 7; offset = 0; len = 0 });
}

-- The ListMeta of the test is a pointer.
abbrev copied_list :
    VaultUnsealConfigList (Option ℕ) (Option Slice) × Memory (Option ℕ) (List Bytes)
copied_list =
    copy_vault_unseal_config_list (copy_pointer others (λ labels. labels)) (λ c. c) (λ t. t)
      (copy_pointer others (λ labels. labels)) demo_list held

copy_vault_unseal_config_list-Deep_example :
    DeepCopied (listing meta meta) held demo_list copied_list
copy_vault_unseal_config_list-Deep_example =
    copy_vault_unseal_config_list-Deep meta (λ c. c) (λ t. t) meta-Copies (λ c. refl) (λ t. refl)
      held meta (copy_pointer others (λ labels. labels)) meta-Copies demo_list (ground arith)
