-- ===== src/Strategy/Retry.antt =====
-- pkg/vault/strategy.go: RetryUnsealStrategy.
pub mod Attempts
pub mod Exhaustion
use vault_autounseal_operato.Prelude.{ℕ, zero, suc, ◌+◌, not, Option, pos, leb_ℤ, if◌then◌else◌}
use vault_autounseal_operato.Prelude.Int.{pred_ℤ, pos_part}
use vault_autounseal_operato.GoLib.Outcome.{Outcome, ok, err, panic}
use vault_autounseal_operato.Errors.{
  Err, nil, wrapped, is_retryable_error, canceled_at_attempt, canceled_during_delay, failed_after,
}
use vault_autounseal_operato.Strategy.World.{World, Ctx, SealStatus, is_done, clamp, race}
use vault_autounseal_operato.Strategy.Policy.{RetryPolicy}
use vault_autounseal_operato.Strategy.Interface.{StatusCall, UnsealCall}

-- One round of the loop: go on with the error, or return.
pub data Attempt (S : Type 0) : Type 0 where
  again : Err → World S → Attempt S
  return : Outcome Err (Option SealStatus) → World S → Attempt S

module _ {S : Type 0} where
  abbrev pub proceed :
      (Err → World S → Outcome Err (Option SealStatus) × World S)
      → Attempt S
      → Outcome Err (Option SealStatus) × World S
  proceed next (again e w) = next e w
  proceed next (return o w) = (o, w)

module _ {S : Type 0} (base : World S → Outcome Err (Option SealStatus) × World S)
    (policy : RetryPolicy) (ctx : Ctx) where
  abbrev pub gave_up : Err → Outcome Err (Option SealStatus)
  gave_up last = err (wrapped (failed_after policy.max_attempts) last)

  -- The wait before the next attempt, which the context may cut short.
  unfoldable pub wait : ℕ → Err → World S → Attempt S
  wait attempt e w =
      let (cancelled, time) = race ctx w.now (w.now + clamp (policy.next_delay (pos attempt))) in
      if cancelled
      then return (err (wrapped canceled_during_delay ctx.cause)) (record w { now = time })
      else again e (record w { now = time })

  -- After an error of the base strategy.
  unfoldable pub after_error : ℕ → Err → World S → Attempt S
  after_error attempt e w =
      if not (is_retryable_error e)
      then return (err e) w
      else if leb_ℤ (pred_ℤ policy.max_attempts) (pos attempt)
      then return (gave_up e) w
      else if not (policy.should_retry e (pos attempt))
      then return (gave_up e) w
      else wait attempt e w

  abbrev pub after_base : ℕ → Outcome Err (Option SealStatus) × World S → Attempt S
  after_base attempt (ok st, w) = return (ok st) w
  after_base attempt (err e, w) = after_error attempt e w
  after_base attempt (panic, w) = return panic w

  unfoldable pub attempt_once : ℕ → World S → Attempt S
  attempt_once attempt w =
      if is_done ctx w
      then return (err (wrapped (canceled_at_attempt attempt) ctx.cause)) w
      else after_base attempt (base w)

  -- The loop from `attempt`, with the number of rounds that the loop test leaves.
  unfoldable pub retry_from : ℕ → ℕ → Err → StatusCall S
  retry_from zero attempt last w = (gave_up last, w)
  retry_from (suc n) attempt last w =
      proceed (λ e w'. retry_from n (attempt + 1) e w') (attempt_once attempt w)

-- `attempt < MaxAttempts()` from 0 leaves MaxAttempts() rounds, and none if that is negative.
unfoldable pub retry_unseal : {S : Type 0} → UnsealCall S → RetryPolicy → UnsealCall S
retry_unseal base policy ctx client keys threshold w =
    retry_from (base ctx client keys threshold) policy ctx (pos_part policy.max_attempts) 0 nil w
