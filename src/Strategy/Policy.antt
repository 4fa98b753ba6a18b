-- ===== src/Strategy/Policy.antt =====
-- pkg/vault/strategy.go: DefaultRetryPolicy, and the interface RetryPolicy of pkg/vault/interfaces.go.
pub mod Backoff
use vault_autounseal_operato.Prelude.{ℕ, ◌^◌, Bool, false, ℤ, pos, ltb_ℤ, leb_ℤ, if◌then◌else◌}
use vault_autounseal_operato.Prelude.Int.{pred_ℤ, pos_part}
use vault_autounseal_operato.GoLib.Int64.{mul_int64}
use vault_autounseal_operato.Errors.{Err, is_retryable_error}

pub record RetryPolicy : Type 0 where
  pub should_retry : Err → ℤ → Bool
  pub next_delay : ℤ → ℤ
  pub max_attempts : ℤ

pub record DefaultRetryPolicy : Type 0 where
  pub attempt_limit : ℤ
  pub base_delay : ℤ
  pub max_delay : ℤ

abbrev pub second : ℕ
second = 1_000_000_000

abbrev pub new_default_retry_policy : DefaultRetryPolicy
new_default_retry_policy = record {
  attempt_limit = pos 3;
  base_delay = pos 1_000_000_000;
  max_delay = pos 10_000_000_000;
}

-- `maxAttempts - 1` does not wrap unless maxAttempts is the least int64.
unfoldable pub should_retry : DefaultRetryPolicy → Err → ℤ → Bool
should_retry p e attempt =
    if leb_ℤ (pred_ℤ p.attempt_limit) attempt then false else is_retryable_error e

-- The attempt number, cut to 0..30.
capped : ℤ → ℕ
capped attempt =
    if ltb_ℤ attempt (pos 0) then 0 else if ltb_ℤ (pos 30) attempt then 30 else pos_part attempt

pub next_delay : DefaultRetryPolicy → ℤ → ℤ
next_delay p attempt =
    let delay = mul_int64 p.base_delay (2 ^ capped attempt) in
    if ltb_ℤ p.max_delay delay then p.max_delay else delay

abbrev pub as_retry_policy : DefaultRetryPolicy → RetryPolicy
as_retry_policy p = record {
  should_retry = should_retry p;
  next_delay = next_delay p;
  max_attempts = p.attempt_limit;
}
