-- ===== src/Controller/Status/Conditions.antt =====
-- pkg/controller/vaultunsealconfig_controller.go: the conditions after the status is updated.
use vault_autounseal_operato.Prelude.{
  ℕ, ◌≡◌, refl, Bool, true, false, Option, none, some, List, [], ◌∷◌, arith, if◌then◌else◌,
}
use vault_autounseal_operato.GoLib.Strings.{Bytes, bytes_eq}
use vault_autounseal_operato.GoLib.Strings.Laws.{bytes_eq_refl}
use vault_autounseal_operato.Controller.Types.{Condition, VaultUnsealConfig, VaultInstanceStatus}
use vault_autounseal_operato.Controller.Status.{
  put_condition, ready_condition, ready_kind, update_condition, update_vault_config_status,
}

-- The first condition of a type.
abbrev pub find_condition : Bytes → List Condition → Option Condition
find_condition kind [] = none
find_condition kind (d ∷ ds) = if bytes_eq d.kind kind then some d else find_condition kind ds

-- The conditions of the other types, in their order.
pub others : Bytes → List Condition → List Condition
others kind [] = []
others kind (d ∷ ds) = let rest = others kind ds in if bytes_eq d.kind kind then rest else d ∷ rest

put_condition-same :
    (c : Condition) (ds : List Condition) → find_condition c.kind (put_condition c ds) ≡ some c
unfolding put_condition
put_condition-same c [] = ground (arith, bytes_eq_refl c.kind)
put_condition-same c (d ∷ ds) = ground (arith, bytes_eq_refl c.kind, put_condition-same c ds)

put_condition-others :
    (c : Condition) (ds : List Condition) → others c.kind (put_condition c ds) ≡ others c.kind ds
unfolding put_condition others
put_condition-others c [] = ground (arith, bytes_eq_refl c.kind)
put_condition-others c (d ∷ ds) = ground (arith, bytes_eq_refl c.kind, put_condition-others c ds)

-- After the update the condition Ready holds as `all_ready` says, for the generation that was read; the
-- conditions of other types are as before, in their order, the statuses are the new ones, and the
-- instances are unchanged.
pub update_vault_config_status_lem :
    (now : ℕ) (statuses : List VaultInstanceStatus) (all_ready : Bool) (config : VaultUnsealConfig)
    → let new = update_vault_config_status now statuses all_ready config in
      ((c : Condition) × (find_condition ready_kind new.conditions ≡ some c)
        × (c.holds ≡ all_ready)
        × (c.observed_generation ≡ config.generation))
      × (others ready_kind new.conditions ≡ others ready_kind config.conditions)
      × (new.vault_statuses ≡ statuses)
      × (new.vault_instances ≡ config.vault_instances)
unfolding update_vault_config_status update_condition ready_condition
update_vault_config_status_lem now statuses true config = (
  (_, put_condition-same _ config.conditions, refl, refl),
  put_condition-others _ config.conditions,
  refl,
  refl,
)
update_vault_config_status_lem now statuses false config = (
  (_, put_condition-same _ config.conditions, refl, refl),
  put_condition-others _ config.conditions,
  refl,
  refl,
)
