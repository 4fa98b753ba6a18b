-- ===== src/Controller/Instance.antt =====
-- pkg/controller/vaultunsealconfig_controller.go: the work on the instances of a configuration.
pub mod Statuses
pub mod Returns
pub mod Keys
pub mod Budget
use mathlib.Core.Option
use vault_autounseal_operato.Prelude.{
  ℕ, Bool, true, false, not, ◌&&◌, Option, none, some, List, [], ◌∷◌, ℤ, pos, if◌then◌else◌,
}
use vault_autounseal_operato.GoLib.Strings.{Bytes}
use vault_autounseal_operato.GoLib.Outcome.{Outcome, ok, err, panic}
use vault_autounseal_operato.Errors.{
  Err, nil, wrapped, is_nil, get_vault_client, check_seal_status, unseal_vault,
}
use vault_autounseal_operato.Strategy.World.{World, Ctx, SealStatus}
use vault_autounseal_operato.Strategy.Interface.{VaultClient}
use vault_autounseal_operato.Client.Api.{Api}
use vault_autounseal_operato.Controller.Types.{VaultInstance, VaultInstanceStatus}
use vault_autounseal_operato.Controller.Repository.{ClientFactory, Clients, client_key, get_client}

abbrev pub default_threshold : ℤ
default_threshold = pos 3

abbrev pub threshold_or_default : Option ℤ → ℤ
threshold_or_default none = default_threshold
threshold_or_default (some t) = t

pub get_threshold : VaultInstance → ℤ
get_threshold i = threshold_or_default i.threshold

-- The status of an instance that is unsealed at the time `now`, or is sealed.
abbrev pub unsealed_status : Bytes → ℕ → VaultInstanceStatus
unsealed_status name now = record {
  name = name;
  sealed = false;
  last_unsealed = some now;
  error = nil;
}

abbrev pub sealed_status : Bytes → VaultInstanceStatus
sealed_status name = record { name = name; sealed = true; last_unsealed = none; error = nil }

-- The status that stands for an error.
abbrev pub failed_status : Bytes → Err → VaultInstanceStatus
failed_status name e = record { name = name; sealed = true; last_unsealed = none; error = e }

abbrev pub status_or_failed : Bytes → Outcome Err VaultInstanceStatus → Option VaultInstanceStatus
status_or_failed name (ok st) = some st
status_or_failed name (err e) = some (failed_status name e)
status_or_failed name panic = none

module _ {S : Type 0} (ctx : Ctx) where
  -- After Unseal: the code reads through the pointer to the answer.
  abbrev pub after_unseal :
      Bytes → Outcome Err (Option SealStatus) × World S → Outcome Err VaultInstanceStatus × World S
  after_unseal name (ok none, w) = (panic, w)
  after_unseal name (ok (some st), w) =
      (ok (if st.sealed then sealed_status name else unsealed_status name w.now), w)
  after_unseal name (err e, w) = (err (wrapped unseal_vault e), w)
  after_unseal name (panic, w) = (panic, w)

  abbrev pub after_is_sealed :
      VaultClient S
      → VaultInstance
      → (Bool × Err) × World S
      → Outcome Err VaultInstanceStatus × World S
  after_is_sealed client i ((is_sealed, e), w) =
      if not (is_nil e)
      then (err (wrapped check_seal_status e), w)
      else if is_sealed
      then after_unseal i.name (client.unseal ctx i.unseal_keys (get_threshold i) w)
      else (ok (unsealed_status i.name w.now), w)

  -- The part that works with the client: ask, and unseal if it is sealed.
  unfoldable pub work_on :
      VaultClient S → VaultInstance → World S → Outcome Err VaultInstanceStatus × World S
  work_on client i w = after_is_sealed client i (client.is_sealed ctx w)

  module _ (api : Api S) (factory : ClientFactory S) where
    abbrev pub with_client :
        VaultInstance
        → Outcome Err (VaultClient S) × Clients S
        → World S
        → Outcome Err VaultInstanceStatus × Clients S × World S
    with_client i (ok client, cs) w = let (o, w') = work_on client i w in (o, cs, w')
    with_client i (err e, cs) w = (err (wrapped get_vault_client e), cs, w)
    with_client i (panic, cs) w = (panic, cs, w)

    unfoldable pub process_vault_instance :
        VaultInstance
        → Bytes
        → Clients S
        → World S
        → Outcome Err VaultInstanceStatus × Clients S × World S
    unfolding work_on
    process_vault_instance i namespace cs w =
        with_client i (get_client api factory (client_key namespace i.name) i cs) w

    -- The loop of processVaultInstances: the statuses in order, and allReady; `none` is a panic,
    -- which leaves Reconcile.
    unfoldable pub process_vault_instances :
        List VaultInstance
        → Bytes
        → Bool
        → Clients S
        → World S
        → Option (List VaultInstanceStatus × Bool) × Clients S × World S
    process_vault_instances [] namespace ready cs w = (some ([], ready), cs, w)
    process_vault_instances (i ∷ is) namespace ready cs w =
        let (o, cs', w') = process_vault_instance i namespace cs w in
        elim (status_or_failed i.name o) [
          | none ↦ (none, cs', w')
          | some st ↦
              let (rest, cs'', w'') =
                process_vault_instances is namespace (ready && not st.sealed) cs' w' in
              (Option.map (λ r. (st ∷ r.0, r.1)) rest, cs'', w'')
        ]
