-- ===== src/Strategy/Retry/Exhaustion.antt =====
-- RetryUnsealStrategy with DefaultRetryPolicy of pkg/vault/strategy.go: what happens when every attempt
-- fails in a way that may be retried.
use vault_autounseal_operato.Prelude.{
  ℕ, zero, suc, ◌+◌, ◌≡◌, refl, ap, true, false, Option, none, List, ℤ, pos, arith,
}
use vault_autounseal_operato.Prelude.Int.{pos_part}
use vault_autounseal_operato.GoLib.Strings.{Bytes}
use vault_autounseal_operato.GoLib.Outcome.{Outcome, err}
use vault_autounseal_operato.Errors.{Err, nil, wrapped, failed_after, is_retryable_error}
use vault_autounseal_operato.Strategy.World.{World, Ctx, SealStatus, Event, is_done, clamp}
use vault_autounseal_operato.Strategy.Policy.{
  next_delay, should_retry, DefaultRetryPolicy, as_retry_policy,
}
use vault_autounseal_operato.Strategy.Interface.{VaultClient, UnsealCall}
use vault_autounseal_operato.Strategy.Retry.{
  again, return, wait, after_error, attempt_once, retry_from, retry_unseal,
}

module _ {S : Type 0} (base : World S → Outcome Err (Option SealStatus) × World S)
    (p : DefaultRetryPolicy) (m : ℕ) (limit : p.attempt_limit ≡ pos (suc m)) (ctx : Ctx)
    (open_ended : ctx.done_at ≡ none) (work : S → List Event → ℕ)
    (fails : (w : World S)
      → (e : Err) × (w' : World S) × (base w ≡ (err e, w'))
        × (is_retryable_error e ≡ true)
        × (work w'.server w'.trace ≡ work w.server w.trace + 1)) where
  live : (w : World S) → is_done ctx w ≡ false
  live w = rw open_ended

  after_error-last :
      (a : ℕ) (e : Err) (w w' : World S)
      → a ≡ m
      → is_retryable_error e ≡ true
      → after_error base (as_retry_policy p) ctx a e w'
        ≡ return (err (wrapped (failed_after p.attempt_limit) e)) w'
  unfolding after_error
  after_error-last a e w w' last r = ground arith

  after_error-more :
      (a k : ℕ) (e : Err) (w w' : World S)
      → a + suc k ≡ m
      → is_retryable_error e ≡ true
      → (t : ℕ) × (after_error base (as_retry_policy p) ctx a e w'
          ≡ again e (record w' { now = t }))
  unfolding after_error wait should_retry
  after_error-more a k e w w' more r = (w'.now + clamp (next_delay p (pos a)), ground arith)

  attempt_once-fails :
      (a : ℕ) (w w' : World S) (e : Err)
      → base w ≡ (err e, w')
      → attempt_once base (as_retry_policy p) ctx a w
        ≡ after_error base (as_retry_policy p) ctx a e w'
  unfolding attempt_once
  attempt_once-fails a w w' e q = rw (live w, q) refl

  -- What is left when the attempts are used up.
  abbrev pub Exhausted : ℕ → World S → Outcome Err (Option SealStatus) × World S → Type 0
  Exhausted n w r =
      (e : Err) × (r.0 ≡ err (wrapped (failed_after p.attempt_limit) e))
      × (is_retryable_error e ≡ true)
      × (work r.1.server r.1.trace ≡ work w.server w.trace + n)
      × (u : World S) × (base u ≡ (err e, r.1))
      × (work u.server u.trace + 1 ≡ work w.server w.trace + n)

  retry_from-Exhausted :
      (k a : ℕ) (last : Err) (w : World S)
      → a + k ≡ m
      → Exhausted (suc k) w (retry_from base (as_retry_policy p) ctx (suc k) a last w)
  unfolding retry_from
  retry_from-Exhausted zero a last w h =
      let (e, w', q, r, u) = fails w in
      rw (attempt_once-fails a w w' e q, after_error-last a e w w' (omega arith) r)
        (e, refl, r, omega arith, w, q, refl)
  retry_from-Exhausted (suc k) a last w h =
      let (e, w', q, r, u) = fails w in
      let (t, step) = after_error-more a k e w w' h r in
      rw (attempt_once-fails a w w' e q, step)
        (let (e', o, r', done, last_world, ends, before) =
            retry_from-Exhausted k (a + 1) e (record w' { now = t }) (omega arith) in
          (e', o, r', omega arith, last_world, ends, omega arith))

-- If every call of the base strategy fails with a retryable error, and the context never ends, the
-- retrying strategy calls it exactly maxAttempts times and returns under "failed after" the error of the
-- last of these calls, the one that ends in the world that is left, with maxAttempts - 1 calls before it;
-- this error is itself retryable. `work` counts the calls.
pub retry_unseal_exhausted :
    {S : Type 0} (base : UnsealCall S) (p : DefaultRetryPolicy) (m : ℕ) (ctx : Ctx)
    (client : VaultClient S) (keys : List Bytes) (threshold : ℤ) (work : S → List Event → ℕ)
    → p.attempt_limit ≡ pos (suc m)
    → ctx.done_at ≡ none
    → ((w : World S)
        → (e : Err) × (w' : World S) × (base ctx client keys threshold w ≡ (err e, w'))
          × (is_retryable_error e ≡ true)
          × (work w'.server w'.trace ≡ work w.server w.trace + 1))
    → (w : World S)
    → (e : Err) × ((retry_unseal base (as_retry_policy p) ctx client keys threshold w).0
        ≡ err (wrapped (failed_after p.attempt_limit) e))
      × (is_retryable_error e ≡ true)
      × (work
            (retry_unseal base (as_retry_policy p) ctx client keys threshold w).1.server
            (retry_unseal base (as_retry_policy p) ctx client keys threshold w).1.trace
          ≡ work w.server w.trace + suc m)
      × (u : World S) × (base ctx client keys threshold u
          ≡ (err e, (retry_unseal base (as_retry_policy p) ctx client keys threshold w).1))
      × (work u.server u.trace + 1 ≡ work w.server w.trace + suc m)
unfolding retry_unseal
retry_unseal_exhausted base p m ctx client keys threshold work limit open_ended fails w =
    rw (ap pos_part limit) (
      retry_from-Exhausted (base ctx client keys threshold) p m limit ctx open_ended work fails m 0
        nil w (omega arith))
