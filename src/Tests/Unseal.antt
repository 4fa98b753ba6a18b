-- ===== src/Tests/Unseal.antt =====
-- The strategies of pkg/vault/strategy.go at concrete inputs.
use vault_autounseal_operato.Prelude.{ℕ, suc, ◌+◌, ◌≡◌, refl, true, pos, negsuc, List, [], arith}
use vault_autounseal_operato.GoLib.Outcome.{err}
use vault_autounseal_operato.Errors.{
  Err, vault_error, external, wrapped, failed_after, unseal_op, is_retryable_error,
}
use vault_autounseal_operato.Strategy.World.{Event}
use vault_autounseal_operato.Strategy.Policy.{
  DefaultRetryPolicy, next_delay, new_default_retry_policy, as_retry_policy,
}
use vault_autounseal_operato.Strategy.Policy.Backoff.{next_delay_exact, next_delay_overflow}
use vault_autounseal_operato.Strategy.Interface.{UnsealCall, VaultClient}
use vault_autounseal_operato.Strategy.World.{World}
use vault_autounseal_operato.Strategy.Retry.{retry_unseal}
use vault_autounseal_operato.Strategy.Retry.Exhaustion.{retry_unseal_exhausted}
use vault_autounseal_operato.Client.Methods.{as_vault_client}
use vault_autounseal_operato.Tests.Fixtures.{
  forever, two_keys, two_key_server, sealed_world, demo_client,
}

-- 1 s doubled four times is cut to 10 s.
next_delay_fourth : next_delay new_default_retry_policy (pos 4) ≡ pos 10_000_000_000
next_delay_fourth =
    next_delay_exact new_default_retry_policy 1_000_000_000 10_000_000_000 4 refl refl (omega arith)

abbrev slow_policy : DefaultRetryPolicy
slow_policy = record {
  attempt_limit = pos 40;
  base_delay = pos 10_000_000_000;
  max_delay = pos 10_000_000_000;
}

next_delay_overflow_example : (n : ℕ) × (next_delay slow_policy (pos 35) ≡ negsuc n)
next_delay_overflow_example =
    next_delay_overflow slow_policy 10_000_000_000 10_000_000_000 35 refl refl (omega arith)
      (omega arith) (omega arith)

abbrev demo : VaultClient ℕ
demo = as_vault_client two_key_server demo_client

abbrev lost_connection : Err
lost_connection = vault_error unseal_op [] (external 0) true

-- A base strategy that always fails in a retryable way; the server counts its calls.
abbrev failing : UnsealCall ℕ
failing ctx client keys threshold w = (err lost_connection, record w { server = suc w.server })

abbrev calls : ℕ → List Event → ℕ
calls n es = n

lost_connection_retryable : is_retryable_error lost_connection ≡ true
unfolding is_retryable_error
lost_connection_retryable = refl

retry_unseal_exhausted_example :
    (e : Err) × ((retry_unseal failing
        (as_retry_policy new_default_retry_policy)
        forever
        demo
        two_keys
        (pos 2)
        sealed_world).0
      ≡ err (wrapped (failed_after (pos 3)) e))
    × (is_retryable_error e ≡ true)
    × ((retry_unseal failing
          (as_retry_policy new_default_retry_policy)
          forever
          demo
          two_keys
          (pos 2)
          sealed_world).1.server
        ≡ 0 + suc 2)
    × (u : World ℕ) × (failing forever demo two_keys (pos 2) u ≡ (
      err e,
      (retry_unseal failing
          (as_retry_policy new_default_retry_policy)
          forever
          demo
          two_keys
          (pos 2)
          sealed_world).1,
    ))
    × (u.server + 1 ≡ 0 + suc 2)
retry_unseal_exhausted_example =
    retry_unseal_exhausted failing new_default_retry_policy 2 forever demo two_keys (pos 2) calls
      refl refl (λ w. (lost_connection, _, refl, lost_connection_retryable, omega arith))
      sealed_world
