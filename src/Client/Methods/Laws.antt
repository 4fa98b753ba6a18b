-- ===== src/Client/Methods/Laws.antt =====
-- pkg/vault/client.go: what the methods of a client guarantee.
use vault_autounseal_operato.Prelude.{
  ℕ, ◌+◌, ◌≡◌, refl, ap, fun_ext, Bool, true, false, Option, none, some, List, [], ◌∷◌, ℤ, arith,
  if◌then◌else◌, if_true, if_false,
}
use vault_autounseal_operato.Prelude.Int.{pos_part}
use vault_autounseal_operato.GoLib.Strings.{Bytes}
use vault_autounseal_operato.GoLib.Outcome.{Outcome, ok, err, panic}
use vault_autounseal_operato.Errors.{
  Err, wrapped, validation_failed, nil, is_sealed_op, get_seal_status_op, unseal_op,
  is_initialized_op, health_check_op, is_retryable_error,
}
use vault_autounseal_operato.Strategy
use vault_autounseal_operato.Strategy.Interface.{
  UnsealStrategy, default_strategy, parallel_strategy, retry_strategy, StatusCall,
}
use vault_autounseal_operato.Strategy.Default.{
  default_unseal, submit_keys, submit_keys_from, submit_round, submit_single_key, proceed,
  after_status, submit_sealed, keys_to_submit, record_attempt,
}
use vault_autounseal_operato.Strategy.Retry.{retry_unseal, retry_from}
use vault_autounseal_operato.Strategy.World.{World, Ctx, SealStatus}
use vault_autounseal_operato.Client.Api.{Api, Reply, success, failure}
use vault_autounseal_operato.Client.Methods.{
  Client, closed_error, is_sealed, get_seal_status, is_initialized, check_health, close, view,
  unseal, no_unseal, ask_status,
}

module _ {S : Type 0} (api : Api S) (ctx : Ctx) where
  -- Once closed, a client refuses each operation with its own error, which may not be retried, sends
  -- nothing, and answers "sealed"; a second Close changes nothing.
  pub close_refuses :
      (c : Client S) (keys : List Bytes) (threshold : ℤ) (w v : World S)
      → let d = (close c w).0 in
        (is_sealed d api ctx v ≡ ((true, closed_error d is_sealed_op), v))
        × (get_seal_status d api ctx v ≡ (err (closed_error d get_seal_status_op), v))
        × (unseal api d ctx keys threshold v ≡ (err (closed_error d unseal_op), v))
        × (is_initialized d api ctx v ≡ ((false, closed_error d is_initialized_op), v))
        × (check_health d api ctx v ≡ (err (closed_error d health_check_op), v))
        × (is_retryable_error (closed_error d unseal_op) ≡ false)
        × (close d v ≡ (d, v))
  unfolding close is_sealed get_seal_status unseal is_initialized check_health is_retryable_error
  close_refuses c keys threshold w v = ground arith

  -- IsSealed answers "not sealed" only if the client is open and the server has just said so; every
  -- failure counts as sealed.
  is_sealed_false :
      (c : Client S) (w : World S)
      → (is_sealed c api ctx w).0.0 ≡ false
      → (c.closed ≡ false)
        × ((st : SealStatus) × ((api.seal_status ctx w.now w.server).reply ≡ success st)
            × (st.sealed ≡ false)
            × ((is_sealed c api ctx w).0.1 ≡ nil))
  unfolding is_sealed ask_status
  is_sealed_false c w h = go (api.seal_status ctx w.now w.server).reply refl
    where
      go :
          (r : Reply SealStatus)
          → (api.seal_status ctx w.now w.server).reply ≡ r
          → (c.closed ≡ false)
            × ((st : SealStatus) × ((api.seal_status ctx w.now w.server).reply ≡ success st)
                × (st.sealed ≡ false)
                × ((is_sealed c api ctx w).0.1 ≡ nil))
      go (success st) e = (ground arith, (st, e, ground arith, ground arith))
      go (failure x) e = ground arith

-- The method Unseal of the view.
module _ {S : Type 0} (api : Api S) (c : Client S) (u v : Ctx → List Bytes → ℤ → StatusCall S)
    (ctx : Ctx) where
  submit_keys-view :
      (i : ℕ) (ks : List Bytes) (last : Option SealStatus) (w : World S)
      → submit_keys_from ctx (view api c u) i ks last w
        ≡ submit_keys_from ctx (view api c v) i ks last w
  unfolding submit_keys_from submit_round submit_single_key
  submit_keys-view i [] last w = refl
  submit_keys-view i (k ∷ ks) last w =
      ap (λ f. proceed f (submit_round ctx (view api c v) i k w))
        (fun_ext λ st. fun_ext λ w'. submit_keys-view (i + 1) ks (some st) w')

  module _ (has_metrics : Bool) (keys : List Bytes) (threshold : ℤ) (start : ℕ) where
    submit_sealed-view :
        (w : World S)
        → submit_sealed has_metrics ctx (view api c u) keys threshold start w
          ≡ submit_sealed has_metrics ctx (view api c v) keys threshold start w
    unfolding submit_sealed submit_keys
    submit_sealed-view w =
        ap
          (λ (f : List Bytes → Outcome Err (Option SealStatus) × World S).
            elim (keys_to_submit keys threshold) [
              | ok ks ↦ record_attempt has_metrics start (f ks)
              | err e ↦ (err e, w)
              | panic ↦ (panic, w)
            ])
          (fun_ext λ ks. submit_keys-view 0 ks none w)

    after_status-view :
        (r : Outcome Err (Option SealStatus) × World S)
        → after_status has_metrics ctx (view api c u) keys threshold start r
          ≡ after_status has_metrics ctx (view api c v) keys threshold start r
    unfolding after_status
    after_status-view (ok none, w) = refl
    after_status-view (ok (some st), w) =
        ap (λ r. if st.sealed then r else record_attempt has_metrics start (ok (some st), w))
          (submit_sealed-view w)
    after_status-view (err e, w) = refl
    after_status-view (panic, w) = refl

  -- For each strategy of the repository, the result for a client does not depend on the method Unseal
  -- of that client: it is never called.
  unseal-view :
      (s : UnsealStrategy S) (keys : List Bytes) (threshold : ℤ) (w : World S)
      → Strategy.unseal s ctx (view api c u) keys threshold w
        ≡ Strategy.unseal s ctx (view api c v) keys threshold w
  unfolding Strategy.unseal retry_unseal default_unseal
  unseal-view (default_strategy validator has_metrics) keys threshold w =
      ap
        (λ (f : ℕ
            → Outcome Err (Option SealStatus) × World S
            → Outcome Err (Option SealStatus) × World S).
          elim (validator.validate_keys keys threshold) [
            | ok _ ↦ f w.now (get_seal_status c api ctx w)
            | err e ↦ (err (wrapped validation_failed e), w)
            | panic ↦ (panic, w)
          ])
        (fun_ext λ start. fun_ext (after_status-view has_metrics keys threshold start))
  unseal-view (parallel_strategy base n) keys threshold w = unseal-view base keys threshold w
  unseal-view (retry_strategy base policy) keys threshold w =
      ap
        (λ (f : World S → Outcome Err (Option SealStatus) × World S).
          retry_from f policy ctx (pos_part policy.max_attempts) 0 nil w)
        (fun_ext (unseal-view base keys threshold))

-- Unseal of an open client is its strategy's; of a closed one, a refusal.
module _ {S : Type 0} (api : Api S) (c : Client S) (ctx : Ctx) (keys : List Bytes) (threshold : ℤ)
    (w : World S) where
  pub unseal-open :
      c.closed ≡ false
      → unseal api c ctx keys threshold w
        ≡ Strategy.unseal c.strategy ctx (view api c (no_unseal api)) keys threshold w
  unfolding unseal
  unseal-open h = if_false c.closed _ _ h

  pub unseal-closed :
      c.closed ≡ true → unseal api c ctx keys threshold w ≡ (err (closed_error c unseal_op), w)
  unfolding unseal
  unseal-closed h = if_true c.closed _ _ h
