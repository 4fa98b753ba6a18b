-- ===== src/Unsealing/Strategy.antt =====
-- pkg/unsealing/strategy/strategy.go: the default and the parallel strategy, over the interfaces of
-- pkg/core/types. An error type of pkg/core/types is that of pkg/vault with the same name here, which
-- these two strategies do not look into. The retrying strategy does, with an IsRetryableError that knows
-- the types of pkg/core/types only, and is left out.
pub mod Same
use vault_autounseal_operato.Prelude.{
  ℕ, ◌+◌, ◌-◌, Bool, true, false, not, Option, none, some, List, [], ◌∷◌, ℤ, pos, leb_ℤ,
  if◌then◌else◌,
}
use vault_autounseal_operato.GoLib.Strings.{Bytes}
use vault_autounseal_operato.GoLib.Outcome.{Outcome, ok, err, panic}
use vault_autounseal_operato.Errors.{
  Err, vault_error, unseal_error, wrapped, get_seal_status_op, validation_failed,
  canceled_during_unseal,
}
use vault_autounseal_operato.Validator.Default.{KeyValidator}
use vault_autounseal_operato.Strategy.World.{
  World, Ctx, SealStatus, unseal_attempt, emit, sleep, is_done,
}
use vault_autounseal_operato.Strategy.Interface.{StatusCall}
use vault_autounseal_operato.Strategy.Default.{unknown, key_delay, keys_to_submit}

-- The interface VaultClient, and the method SubmitSingleKey, with these parameters, of the type behind it,
-- if it has one: it may be the client of pkg/vault, that of pkg/unsealing/client, or any other.
pub record VaultClient (S : Type 0) : Type 0 where
  pub is_sealed : Ctx → World S → (Bool × Err) × World S
  pub get_seal_status : Ctx → StatusCall S
  pub unseal : Ctx → List Bytes → ℤ → StatusCall S
  pub submit_single_key : Option (Ctx → Bytes → ℤ → StatusCall S)

abbrev pub UnsealCall : Type 0 → Type 0
UnsealCall S = Ctx → VaultClient S → List Bytes → ℤ → StatusCall S

pub data UnsealStrategy : Type 0 where
  default_strategy : KeyValidator → Bool → UnsealStrategy
  parallel_strategy : UnsealStrategy → ℤ → UnsealStrategy

-- NewParallelUnsealStrategy.
abbrev pub new_parallel_unseal_strategy : UnsealStrategy → ℤ → UnsealStrategy
new_parallel_unseal_strategy base max_concurrency =
    parallel_strategy base (if leb_ℤ max_concurrency (pos 0) then pos 5 else max_concurrency)

module _ {S : Type 0} where
  unfoldable pub submit_single_key : Ctx → VaultClient S → Bytes → ℤ → StatusCall S
  submit_single_key ctx client key index w = elim client.submit_single_key [
    | some submit ↦ submit ctx key index w
    | none ↦ client.unseal ctx (key ∷ []) (pos 3) w
  ]

  -- The loop of submitKeys from index `i`; `rest` is what is left of it for a status that is sealed.
  abbrev pub after_single_key :
      ℕ
      → (SealStatus → World S → Outcome Err (Option SealStatus) × World S)
      → Outcome Err (Option SealStatus) × World S
      → Outcome Err (Option SealStatus) × World S
  after_single_key i rest (ok none, w) = (panic, w)
  after_single_key i rest (ok (some st), w) =
      if st.sealed then rest st (sleep key_delay w) else (ok (some st), w)
  after_single_key i rest (err e, w) = (err (unseal_error unknown i e), w)
  after_single_key i rest (panic, w) = (panic, w)

  unfoldable pub submit_keys :
      Ctx → VaultClient S → ℕ → List Bytes → Option SealStatus → StatusCall S
  unfolding submit_single_key
  submit_keys ctx client i [] last w = (ok last, w)
  submit_keys ctx client i (k ∷ ks) last w =
      let rest : SealStatus → StatusCall S =
        λ st w'. submit_keys ctx client (i + 1) ks (some st) w' in
      if is_done ctx w
      then (err (wrapped canceled_during_unseal ctx.cause), w)
      else after_single_key i rest (submit_single_key ctx client k (pos (i + 1)) w)

  -- RecordUnsealAttempt, if there are metrics; without an error it reads lastStatus.Sealed.
  abbrev pub recording :
      Bool
      → ℕ
      → Outcome Err (Option SealStatus) × World S
      → Outcome Err (Option SealStatus) × World S
  recording false start out = out
  recording true start (ok none, w) = (panic, w)
  recording true start (ok (some st), w) =
      (ok (some st), emit (unseal_attempt unknown (not st.sealed) (w.now - start)) w)
  recording true start (err e, w) = (err e, emit (unseal_attempt unknown false (w.now - start)) w)
  recording true start (panic, w) = (panic, w)

  module _ (has_metrics : Bool) (ctx : Ctx) (client : VaultClient S) (keys : List Bytes)
      (threshold : ℤ) where
    abbrev pub submitting :
        ℕ → World S → Outcome Err (List Bytes) → Outcome Err (Option SealStatus) × World S
    submitting start w (ok ks) = recording has_metrics start (submit_keys ctx client 0 ks none w)
    submitting start w (err e) = (err e, w)
    submitting start w panic = (panic, w)

    unfoldable pub after_seal_status :
        ℕ → Outcome Err (Option SealStatus) × World S → Outcome Err (Option SealStatus) × World S
    unfolding submit_keys
    after_seal_status start (ok none, w) = (panic, w)
    after_seal_status start (ok (some st), w) =
        if st.sealed
        then submitting start w (keys_to_submit keys threshold)
        else recording has_metrics start (ok (some st), w)
    after_seal_status start (err e, w) = (err (vault_error get_seal_status_op unknown e true), w)
    after_seal_status start (panic, w) = (panic, w)

  unfoldable pub default_unseal : KeyValidator → Bool → UnsealCall S
  unfolding after_seal_status
  default_unseal validator has_metrics ctx client keys threshold w =
      elim (validator.validate_keys keys threshold) [
        | ok _ ↦
            after_seal_status has_metrics ctx client keys threshold w.now
              (client.get_seal_status ctx w)
        | err e ↦ (err (wrapped validation_failed e), w)
        | panic ↦ (panic, w)
      ]

  -- The method Unseal of each of the two types.
  unfoldable pub unseal : UnsealStrategy → UnsealCall S
  unfolding default_unseal
  unseal (default_strategy validator has_metrics) = default_unseal validator has_metrics
  unseal (parallel_strategy base max_concurrency) = unseal base
