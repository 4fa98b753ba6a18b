-- ===== src/Unsealing/Direct.antt =====
-- pkg/unsealing/client/client.go: the client of the unsealing packages. Its methods repeat those of
-- pkg/vault/client.go, but for Unseal: where it has no strategy, it submits the keys itself.
pub mod Same
pub mod Built
use vault_autounseal_operato.Prelude.{
  ℕ, ◌+◌, Option, none, some, List, [], ◌∷◌, ℤ, pos, if◌then◌else◌,
}
use vault_autounseal_operato.GoLib.Strings.{Bytes}
use vault_autounseal_operato.GoLib.Outcome.{Outcome, ok, err, panic}
use vault_autounseal_operato.Errors.{Err, wrapped, canceled_during_unseal, unseal_op}
use vault_autounseal_operato.Strategy
use vault_autounseal_operato.Strategy.World.{World, Ctx, SealStatus, sleep, is_done}
use vault_autounseal_operato.Strategy.Interface.{StatusCall, UnsealStrategy}
use vault_autounseal_operato.Strategy.Default.{
  Round, continue, stop, proceed, key_delay, keys_to_submit,
}
use vault_autounseal_operato.Client.Api.{Api}
use vault_autounseal_operato.Client.Methods.{
  Client, closed_error, get_seal_status, submit_single_key, view, no_unseal,
}

-- The fields that it shares with the client of pkg/vault, and the strategy, which may be nil.
pub record DirectClient (S : Type 0) : Type 0 where
  pub base : Client S
  pub own_strategy : Option (UnsealStrategy S)

module _ {S : Type 0} (api : Api S) (c : Client S) (ctx : Ctx) where
  -- After a key: the errors of SubmitSingleKey are returned as they are.
  abbrev pub after_direct_key : Outcome Err (Option SealStatus) × World S → Round S
  after_direct_key (ok none, w) = stop panic w
  after_direct_key (ok (some st), w) =
      if st.sealed then continue st (sleep key_delay w) else stop (ok (some st)) w
  after_direct_key (err e, w) = stop (err e) w
  after_direct_key (panic, w) = stop panic w

  unfoldable pub direct_round : ℕ → Bytes → World S → Round S
  direct_round i key w =
      if is_done ctx w
      then stop (err (wrapped canceled_during_unseal ctx.cause)) w
      else after_direct_key (submit_single_key c api ctx key (pos (i + 1)) w)

  -- The loop over the keys from index `i`; `last` is lastStatus.
  unfoldable pub submit_direct : ℕ → List Bytes → Option SealStatus → StatusCall S
  submit_direct i [] last w = (ok last, w)
  submit_direct i (k ∷ ks) last w =
      proceed (λ st w'. submit_direct (i + 1) ks (some st) w') (direct_round i k w)

  module _ (keys : List Bytes) (threshold : ℤ) where
    abbrev pub after_direct_status :
        Outcome Err (Option SealStatus) × World S → Outcome Err (Option SealStatus) × World S
    after_direct_status (ok none, w) = (panic, w)
    after_direct_status (ok (some st), w) =
        if st.sealed
        then elim (keys_to_submit keys threshold) [
          | ok ks ↦ submit_direct 0 ks none w
          | err e ↦ (err e, w)
          | panic ↦ (panic, w)
        ]
        else (ok (some st), w)
    after_direct_status (err e, w) = (err e, w)
    after_direct_status (panic, w) = (panic, w)

    unfoldable pub unseal_direct : StatusCall S
    unseal_direct w = after_direct_status (get_seal_status c api ctx w)

module _ {S : Type 0} (api : Api S) (c : DirectClient S) (ctx : Ctx) (keys : List Bytes)
    (threshold : ℤ) where
  abbrev pub by_strategy : Option (UnsealStrategy S) → StatusCall S
  by_strategy none w = unseal_direct api c.base ctx keys threshold w
  by_strategy (some s) w = Strategy.unseal s ctx (view api c.base (no_unseal api)) keys threshold w

  pub unseal : StatusCall S
  unseal w =
      if c.base.closed
      then (err (closed_error c.base unseal_op), w)
      else by_strategy c.own_strategy w
