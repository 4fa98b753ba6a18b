-- ===== src/Controller/Types.antt =====
-- pkg/api/v1/types.go: the resource that the operator watches. Of the Kubernetes metadata only the
-- fields that the controller reads.
use vault_autounseal_operato.Prelude.{ℕ, Bool, Option, List, ℤ}
use vault_autounseal_operato.GoLib.Strings.{Bytes}
use vault_autounseal_operato.Errors.{Err}

-- `pod_selector` is a map.
pub record VaultInstance : Type 0 where
  pub name : Bytes
  pub endpoint : Bytes
  pub unseal_keys : List Bytes
  pub threshold : Option ℤ
  pub tls_skip_verify : Bool
  pub ha_enabled : Bool
  pub pod_selector : List (Bytes × Bytes)
  pub namespace : Bytes

-- `error` is the error whose text the code stores, nil for the empty text.
pub record VaultInstanceStatus : Type 0 where
  pub name : Bytes
  pub sealed : Bool
  pub last_unsealed : Option ℕ
  pub error : Err

pub data Reason : Type 0 where
  all_instances_unsealed some_instances_sealed other_reason : Reason

-- "All %d vault instances are unsealed", "%d of %d vault instances are sealed", and "%d of %d vault
-- instances need attention".
pub data ConditionMessage : Type 0 where
  all_unsealed : ℕ → ConditionMessage
  some_sealed : ℕ → ℕ → ConditionMessage
  need_attention : ℕ → ℕ → ConditionMessage
  other_message : Bytes → ConditionMessage

-- metav1.Condition.
pub record Condition : Type 0 where
  pub kind : Bytes
  pub holds : Bool
  pub reason : Reason
  pub message : ConditionMessage
  pub last_transition_time : ℕ
  pub observed_generation : ℕ

pub record VaultUnsealConfig : Type 0 where
  pub name : Bytes
  pub namespace : Bytes
  pub generation : ℕ
  pub vault_instances : List VaultInstance
  pub conditions : List Condition
  pub vault_statuses : List VaultInstanceStatus
