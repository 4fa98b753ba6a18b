-- ===== src/Controller/Status.antt =====
-- pkg/controller/vaultunsealconfig_controller.go: the status that is written back.
pub mod Conditions
use vault_autounseal_operato.Prelude.{
  ℕ, suc, Bool, true, false, List, [], ◌∷◌, length, if◌then◌else◌,
}
use vault_autounseal_operato.GoLib.Strings.{Bytes, codes, bytes_eq}
use vault_autounseal_operato.Controller.Types.{
  VaultUnsealConfig, VaultInstanceStatus, Condition, all_instances_unsealed, some_instances_sealed,
  all_unsealed, some_sealed,
}

pub sealed_count : List VaultInstanceStatus → ℕ
sealed_count [] = 0
sealed_count (s ∷ ss) = let rest = sealed_count ss in if s.sealed then suc rest else rest

abbrev pub ready_kind : Bytes
ready_kind = codes "Ready"

-- The condition for a configuration with `n` instances.
pub ready_condition : ℕ → ℕ → ℕ → List VaultInstanceStatus → Bool → Condition
unfolding sealed_count
ready_condition now generation n statuses all_ready =
    if all_ready
    then record {
      kind = ready_kind;
      holds = true;
      reason = all_instances_unsealed;
      message = all_unsealed n;
      last_transition_time = now;
      observed_generation = generation;
    }
    else record {
      kind = ready_kind;
      holds = false;
      reason = some_instances_sealed;
      message = some_sealed (sealed_count statuses) n;
      last_transition_time = now;
      observed_generation = generation;
    }

-- The first condition of the same type is replaced; without one, the condition is appended.
pub put_condition : Condition → List Condition → List Condition
put_condition c [] = c ∷ []
put_condition c (d ∷ ds) = if bytes_eq d.kind c.kind then c ∷ ds else d ∷ put_condition c ds

pub update_condition : Condition → VaultUnsealConfig → VaultUnsealConfig
unfolding put_condition
update_condition c config = record config { conditions = put_condition c config.conditions }

pub update_vault_config_status :
    ℕ → List VaultInstanceStatus → Bool → VaultUnsealConfig → VaultUnsealConfig
unfolding update_condition ready_condition
update_vault_config_status now statuses all_ready config =
    update_condition
      (ready_condition now config.generation (length config.vault_instances) statuses all_ready)
      (record config { vault_statuses = statuses })
