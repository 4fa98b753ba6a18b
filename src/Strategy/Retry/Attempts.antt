-- ===== src/Strategy/Retry/Attempts.antt =====
-- RetryUnsealStrategy of pkg/vault/strategy.go: how often it calls the base strategy, and with what
-- result.
use vault_autounseal_operato.Prelude.{
  ℕ, zero, suc, ◌+◌, ◌*◌, ◌≤◌, ◌≡◌, refl, ap, false, Option, List, ℤ, pos, arith,
}
use vault_autounseal_operato.Prelude.Int.{pos_part}
use vault_autounseal_operato.GoLib.Strings.{Bytes}
use vault_autounseal_operato.GoLib.Outcome.{Outcome, ok, err, panic}
use vault_autounseal_operato.Errors.{Err, nil, is_retryable_error}
use vault_autounseal_operato.Strategy.World.{World, Ctx, SealStatus, Event, is_done}
use vault_autounseal_operato.Strategy.Policy.{RetryPolicy}
use vault_autounseal_operato.Strategy.Interface.{VaultClient, UnsealCall}
use vault_autounseal_operato.Strategy.Retry.{
  Attempt, again, return, wait, after_error, attempt_once, after_base, proceed, retry_from,
  retry_unseal,
}

module _ {S : Type 0} (base : World S → Outcome Err (Option SealStatus) × World S)
    (policy : RetryPolicy) (ctx : Ctx) (work : S → List Event → ℕ) (d : ℕ) where
  -- The work done so far, which does not depend on the clock.
  abbrev done : World S → ℕ
  done w = work w.server w.trace

  abbrev Costs : World S → Attempt S → Type 0
  Costs w (again e w') = done w' ≤ done w + d
  Costs w (return o w') = done w' ≤ done w + d

  wait-Costs :
      (a : ℕ) (e : Err) (w w' : World S)
      → done w' ≤ done w + d
      → Costs w (wait base policy ctx a e w')
  unfolding wait
  wait-Costs a e w w' h = ground arith

  error-Costs :
      (a : ℕ) (e : Err) (w w' : World S)
      → done w' ≤ done w + d
      → Costs w (after_error base policy ctx a e w')
  unfolding after_error
  error-Costs a e w w' h = ground (arith, wait-Costs a e w w' h)

  after_base-Costs :
      (a : ℕ) (w : World S) (r : Outcome Err (Option SealStatus) × World S)
      → done r.1 ≤ done w + d
      → Costs w (after_base base policy ctx a r)
  after_base-Costs a w (ok st, w') h = h
  after_base-Costs a w (err e, w') h = error-Costs a e w w' h
  after_base-Costs a w (panic, w') h = h

  module _ (bounded : (w : World S) → done (base w).1 ≤ done w + d) where
    attempt-Costs : (a : ℕ) (w : World S) → Costs w (attempt_once base policy ctx a w)
    unfolding attempt_once
    attempt-Costs a w = ground (arith, after_base-Costs a w (base w) (bounded w))

    proceed-Costs :
        (n a : ℕ) (w : World S) (o : Attempt S)
        → Costs w o
        → ((e : Err) (w' : World S)
            → done (retry_from base policy ctx n (a + 1) e w').1 ≤ done w' + n * d)
        → done (proceed (retry_from base policy ctx n (a + 1)) o).1 ≤ done w + suc n * d
    proceed-Costs n a w (again e w') c ih = omega (arith, ih e w')
    proceed-Costs n a w (return r w') c ih = grind arith

    retry_from-Costs :
        (n a : ℕ) (last : Err) (w : World S)
        → done (retry_from base policy ctx n a last w).1 ≤ done w + n * d
    unfolding retry_from
    retry_from-Costs zero a last w = omega arith
    retry_from-Costs (suc n) a last w =
        proceed-Costs n a w (attempt_once base policy ctx a w) (attempt-Costs a w)
          (λ e w'. retry_from-Costs n (a + 1) e w')

-- If one call of the base strategy does at most `d` units of work, the retrying strategy does at most
-- MaxAttempts() times `d`, however the attempts fail.
pub retry_unseal_work :
    {S : Type 0} (base : UnsealCall S) (policy : RetryPolicy) (ctx : Ctx) (client : VaultClient S)
    (keys : List Bytes) (threshold : ℤ) (work : S → List Event → ℕ) (d : ℕ)
    → ((w : World S)
        → work
            (base ctx client keys threshold w).1.server
            (base ctx client keys threshold w).1.trace
          ≤ work w.server w.trace + d)
    → (w : World S)
    → work
        (retry_unseal base policy ctx client keys threshold w).1.server
        (retry_unseal base policy ctx client keys threshold w).1.trace
      ≤ work w.server w.trace + pos_part policy.max_attempts * d
unfolding retry_unseal
retry_unseal_work base policy ctx client keys threshold work d bounded w =
    retry_from-Costs (base ctx client keys threshold) policy ctx work d bounded
      (pos_part policy.max_attempts) 0 nil w

attempt_once-return :
    {S : Type 0} (base : World S → Outcome Err (Option SealStatus) × World S) (policy : RetryPolicy)
    (ctx : Ctx) (a : ℕ) (w w' : World S) (o : Outcome Err (Option SealStatus))
    → is_done ctx w ≡ false
    → base w ≡ (o, w')
    → ((e : Err) → o ≡ err e → is_retryable_error e ≡ false)
    → attempt_once base policy ctx a w ≡ return o w'
unfolding attempt_once after_error
attempt_once-return base policy ctx a w w' (ok st) live first final = rw (live, first) refl
attempt_once-return base policy ctx a w w' (err e) live first final =
    rw (live, first) (rw (final e refl) refl)
attempt_once-return base policy ctx a w w' panic live first final = rw (live, first) refl

-- The first attempt decides if it succeeds, or fails with an error that is not retryable: nothing is
-- tried again.
retry_unseal_first :
    {S : Type 0} (base : UnsealCall S) (policy : RetryPolicy) (ctx : Ctx) (client : VaultClient S)
    (keys : List Bytes) (threshold : ℤ) (n : ℕ) (w w' : World S)
    (o : Outcome Err (Option SealStatus))
    → policy.max_attempts ≡ pos (suc n)
    → is_done ctx w ≡ false
    → base ctx client keys threshold w ≡ (o, w')
    → ((e : Err) → o ≡ err e → is_retryable_error e ≡ false)
    → retry_unseal base policy ctx client keys threshold w ≡ (o, w')
unfolding retry_unseal retry_from
retry_unseal_first base policy ctx client keys threshold n w w' o m live first final =
    rw (ap pos_part m) (
      ap (proceed (retry_from (base ctx client keys threshold) policy ctx n 1))
        (attempt_once-return (base ctx client keys threshold) policy ctx 0 w w' o live first final))
