-- ===== src/Unsealing/Strategy/Same.antt =====
-- The default and the parallel strategy of pkg/unsealing/strategy against those of pkg/vault.
use vault_autounseal_operato.Prelude.{
  ℕ, ◌+◌, ◌≡◌, refl, ap, ◌∙◌, Bool, Option, none, some, List, [], ◌∷◌, ℤ, pos, arith, fun_ext,
  if◌then◌else◌,
}
use vault_autounseal_operato.GoLib.Strings.{Bytes}
use vault_autounseal_operato.GoLib.Outcome.{Outcome, ok, err, panic}
use vault_autounseal_operato.Errors.{Err, validation_failed, wrapped, canceled_during_unseal}
use vault_autounseal_operato.Validator.Default.{KeyValidator}
use vault_autounseal_operato.Strategy
use vault_autounseal_operato.Strategy.Interface
use vault_autounseal_operato.Strategy.Default
use vault_autounseal_operato.Strategy.Default.{
  submit_keys_from, submit_round, proceed, record_attempt, after_status, submit_sealed,
  keys_to_submit,
}
use vault_autounseal_operato.Strategy.World.{World, Ctx, SealStatus, is_done}
use vault_autounseal_operato.Strategy.Interface.{Dynamic, client_type, other_type}
use vault_autounseal_operato.Unsealing.Strategy.{
  VaultClient, UnsealStrategy, default_strategy, parallel_strategy, submit_single_key, submit_keys,
  default_unseal, unseal, after_single_key, after_seal_status, recording, submitting,
}

module _ {S : Type 0} where
  -- What pkg/vault finds behind the interface.
  abbrev pub behind : Option (Ctx → Bytes → ℤ → Interface.StatusCall S) → Dynamic S
  behind (some submit) = client_type submit
  behind none = other_type

  -- The client as pkg/vault sees it, if its type is *Client where it has SubmitSingleKey, and no mock.
  abbrev pub in_vault : VaultClient S → Interface.VaultClient S
  in_vault c = record {
    is_sealed = c.is_sealed;
    get_seal_status = c.get_seal_status;
    unseal = c.unseal;
    dynamic = behind c.submit_single_key;
  }

  -- The strategy of pkg/vault that is made in the same way.
  unfoldable pub counterpart : UnsealStrategy → Interface.UnsealStrategy S
  counterpart (default_strategy validator b) = Interface.default_strategy validator b
  counterpart (parallel_strategy base n) = Interface.parallel_strategy (counterpart base) n

  submit_single_key-same :
      (ctx : Ctx) (c : VaultClient S) (key : Bytes) (index : ℤ) (w : World S)
      → submit_single_key ctx c key index w
        ≡ Strategy.Default.submit_single_key ctx (in_vault c) key index w
  unfolding submit_single_key Strategy.Default.submit_single_key
  submit_single_key-same ctx c key index w = ground arith

  round-same :
      (ctx : Ctx) (c : VaultClient S) (i : ℕ) (k : Bytes)
      (rest : SealStatus → World S → Outcome Err (Option SealStatus) × World S) (w : World S)
      → (if is_done ctx w
          then (err (wrapped canceled_during_unseal ctx.cause), w)
          else after_single_key i rest (submit_single_key ctx c k (pos (i + 1)) w))
        ≡ proceed rest (submit_round ctx (in_vault c) i k w)
  unfolding submit_round
  round-same ctx c i k rest w = rw (submit_single_key-same ctx c k (pos (i + 1)) w) (ground arith)

  submit_keys-same :
      (ctx : Ctx) (c : VaultClient S) (i : ℕ) (ks : List Bytes) (last : Option SealStatus)
      (w : World S)
      → submit_keys ctx c i ks last w ≡ submit_keys_from ctx (in_vault c) i ks last w
  unfolding submit_keys submit_keys_from
  submit_keys-same ctx c i [] last w = refl
  submit_keys-same ctx c i (k ∷ ks) last w =
      round-same ctx c i k _ w
      ∙ ap (λ f. proceed f (submit_round ctx (in_vault c) i k w))
          (fun_ext λ st. fun_ext λ w'. submit_keys-same ctx c (i + 1) ks (some st) w')

  recording-same :
      (b : Bool) (start : ℕ) (out : Outcome Err (Option SealStatus) × World S)
      → recording b start out ≡ record_attempt b start out
  recording-same b start out = ground arith

  module _ (b : Bool) (ctx : Ctx) (c : VaultClient S) (keys : List Bytes) (threshold : ℤ) where
    submitting-same :
        (start : ℕ) (w : World S) (r : Outcome Err (List Bytes))
        → submitting b ctx c keys threshold start w r ≡ elim r [
          | ok ks ↦ record_attempt b start (Strategy.Default.submit_keys ctx (in_vault c) ks w)
          | err e ↦ (err e, w)
          | panic ↦ (panic, w)
        ]
    unfolding Strategy.Default.submit_keys
    submitting-same start w (ok ks) =
        recording-same b start _ ∙ ap (record_attempt b start) (submit_keys-same ctx c 0 ks none w)
    submitting-same start w (err e) = refl
    submitting-same start w panic = refl

    after_seal_status-same :
        (start : ℕ) (out : Outcome Err (Option SealStatus) × World S)
        → after_seal_status b ctx c keys threshold start out
          ≡ after_status b ctx (in_vault c) keys threshold start out
    unfolding after_seal_status after_status submit_sealed
    after_seal_status-same start (ok none, w) = refl
    after_seal_status-same start (ok (some st), w) =
        ap (λ r. if st.sealed then r else recording b start (ok (some st), w))
          (submitting-same start w (keys_to_submit keys threshold))
        ∙ ap (λ r. if st.sealed then submit_sealed b ctx (in_vault c) keys threshold start w else r)
            (recording-same b start (ok (some st), w))
    after_seal_status-same start (err e, w) = refl
    after_seal_status-same start (panic, w) = refl

    default_unseal-same :
        (validator : KeyValidator) (w : World S)
        → default_unseal validator b ctx c keys threshold w
          ≡ Strategy.Default.default_unseal validator b ctx (in_vault c) keys threshold w
    unfolding default_unseal Strategy.Default.default_unseal
    default_unseal-same validator w =
        ap
          (λ (f : ℕ
              → Outcome Err (Option SealStatus) × World S
              → Outcome Err (Option SealStatus) × World S).
            elim (validator.validate_keys keys threshold) [
              | ok _ ↦ f w.now (c.get_seal_status ctx w)
              | err e ↦ (err (wrapped validation_failed e), w)
              | panic ↦ (panic, w)
            ])
          (fun_ext λ start. fun_ext (after_seal_status-same start))

  -- The default strategy of pkg/unsealing/strategy, and the parallel one over it, do with any client that
  -- has the method SubmitSingleKey what those of pkg/vault do with a *Client that has the same methods,
  -- and with any other client what those of pkg/vault do with one that is neither a *Client nor a mock:
  -- they return the same, and leave the same world. Error types of the same name count as one.
  pub unseal-in_vault :
      (s : UnsealStrategy) (ctx : Ctx) (c : VaultClient S) (keys : List Bytes) (threshold : ℤ)
      (w : World S)
      → unseal s ctx c keys threshold w
        ≡ Strategy.unseal (counterpart s) ctx (in_vault c) keys threshold w
  unfolding unseal Strategy.unseal counterpart
  unseal-in_vault (default_strategy validator b) ctx c keys threshold w =
      default_unseal-same b ctx c keys threshold validator w
  unseal-in_vault (parallel_strategy base n) ctx c keys threshold w =
      unseal-in_vault base ctx c keys threshold w
