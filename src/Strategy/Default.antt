-- ===== src/Strategy/Default.antt =====
-- pkg/vault/strategy.go: DefaultUnsealStrategy.
use vault_autounseal_operato.Prelude.{
  ℕ, ◌+◌, ◌-◌, Bool, true, false, not, Option, none, some, List, [], ◌∷◌, length, take, ℤ, pos,
  negsuc, ltb_ℤ, if◌then◌else◌,
}
use vault_autounseal_operato.GoLib.Strings.{Bytes, codes}
use vault_autounseal_operato.GoLib.Outcome.{Outcome, ok, err, panic}
use vault_autounseal_operato.Errors.{
  Err, vault_error, unseal_error, wrapped, get_seal_status_op, validation_failed,
  canceled_during_unseal,
}
use vault_autounseal_operato.Validator.Default.{KeyValidator}
use vault_autounseal_operato.Strategy.World.{
  World, Ctx, SealStatus, unseal_attempt, emit, sleep, is_done,
}
use vault_autounseal_operato.Strategy.Interface.{
  VaultClient, StatusCall, client_type, mock_type, other_type,
}

abbrev pub unknown : Bytes
unknown = codes "unknown"

-- 100 * time.Millisecond.
abbrev pub key_delay : ℕ
key_delay = 100_000_000

-- keys[:threshold] panics for a negative threshold; the caller has it below len(keys).
abbrev pub first_keys : List Bytes → ℤ → Outcome Err (List Bytes)
first_keys keys (pos n) = ok (take n keys)
first_keys keys (negsuc n) = panic

abbrev pub keys_to_submit : List Bytes → ℤ → Outcome Err (List Bytes)
keys_to_submit keys threshold =
    if ltb_ℤ threshold (pos (length keys)) then first_keys keys threshold else ok keys

-- One round of the loop over the keys.
pub data Round (S : Type 0) : Type 0 where
  continue : SealStatus → World S → Round S
  stop : Outcome Err (Option SealStatus) → World S → Round S

module _ {S : Type 0} where
  unfoldable pub submit_single_key : Ctx → VaultClient S → Bytes → ℤ → StatusCall S
  submit_single_key ctx client key index w = elim client.dynamic [
    | client_type submit ↦ submit ctx key index w
    | mock_type threshold ↦ client.unseal ctx (key ∷ []) (threshold w) w
    | other_type ↦ client.unseal ctx (key ∷ []) (pos 3) w
  ]

  -- After a key: an error stops the loop, `status.Sealed` reads through the pointer, an unsealed
  -- answer stops, and otherwise the code sleeps.
  abbrev pub after_key : ℕ → Outcome Err (Option SealStatus) × World S → Round S
  after_key i (ok none, w) = stop panic w
  after_key i (ok (some st), w) =
      if st.sealed then continue st (sleep key_delay w) else stop (ok (some st)) w
  after_key i (err e, w) = stop (err (unseal_error unknown i e)) w
  after_key i (panic, w) = stop panic w

  abbrev pub proceed :
      (SealStatus → World S → Outcome Err (Option SealStatus) × World S)
      → Round S
      → Outcome Err (Option SealStatus) × World S
  proceed next (continue st w) = next st w
  proceed next (stop o w) = (o, w)

  unfoldable pub submit_round : Ctx → VaultClient S → ℕ → Bytes → World S → Round S
  submit_round ctx client i key w =
      if is_done ctx w
      then stop (err (wrapped canceled_during_unseal ctx.cause)) w
      else after_key i (submit_single_key ctx client key (pos (i + 1)) w)

  -- The loop of submitKeys from index `i`; `last` is lastStatus.
  unfoldable pub submit_keys_from :
      Ctx → VaultClient S → ℕ → List Bytes → Option SealStatus → StatusCall S
  submit_keys_from ctx client i [] last w = (ok last, w)
  submit_keys_from ctx client i (k ∷ ks) last w =
      proceed (λ st w'. submit_keys_from ctx client (i + 1) ks (some st) w')
        (submit_round ctx client i k w)

  unfoldable pub submit_keys : Ctx → VaultClient S → List Bytes → StatusCall S
  submit_keys ctx client keys w = submit_keys_from ctx client 0 keys none w

  -- RecordUnsealAttempt, if there are metrics: `err == nil && !lastStatus.Sealed` reads through the
  -- pointer where there is no error.
  abbrev pub record_attempt :
      Bool
      → ℕ
      → Outcome Err (Option SealStatus) × World S
      → Outcome Err (Option SealStatus) × World S
  record_attempt false start r = r
  record_attempt true start (ok none, w) = (panic, w)
  record_attempt true start (ok (some st), w) =
      (ok (some st), emit (unseal_attempt unknown (not st.sealed) (w.now - start)) w)
  record_attempt true start (err e, w) =
      (err e, emit (unseal_attempt unknown false (w.now - start)) w)
  record_attempt true start (panic, w) = (panic, w)

  module _ (has_metrics : Bool) (ctx : Ctx) (client : VaultClient S) (keys : List Bytes)
      (threshold : ℤ) where
    unfoldable pub submit_sealed : ℕ → StatusCall S
    submit_sealed start w = elim (keys_to_submit keys threshold) [
      | ok ks ↦ record_attempt has_metrics start (submit_keys ctx client ks w)
      | err e ↦ (err e, w)
      | panic ↦ (panic, w)
    ]

    -- After GetSealStatus, with the time at which Unseal began.
    unfoldable pub after_status :
        ℕ → Outcome Err (Option SealStatus) × World S → Outcome Err (Option SealStatus) × World S
    after_status start (ok none, w) = (panic, w)
    after_status start (ok (some st), w) =
        if st.sealed
        then submit_sealed start w
        else record_attempt has_metrics start (ok (some st), w)
    after_status start (err e, w) = (err (vault_error get_seal_status_op unknown e true), w)
    after_status start (panic, w) = (panic, w)

  unfoldable pub default_unseal :
      KeyValidator → Bool → Ctx → VaultClient S → List Bytes → ℤ → StatusCall S
  default_unseal validator has_metrics ctx client keys threshold w =
      elim (validator.validate_keys keys threshold) [
        | ok _ ↦
            after_status has_metrics ctx client keys threshold w.now (client.get_seal_status ctx w)
        | err e ↦ (err (wrapped validation_failed e), w)
        | panic ↦ (panic, w)
      ]
