-- ===== src/Tests/Fixtures.antt =====
-- A server with two keys to go, a context without an end, and inputs for the tests.
use vault_autounseal_operato.Prelude.{ℕ, suc, true, false, none, List, [], ◌∷◌, ltb, pos, arith}
use vault_autounseal_operato.GoLib.Strings.{Bytes, codes}
use vault_autounseal_operato.Errors.{nil, external}
use vault_autounseal_operato.Validator.Default.{
  KeyValidator, new_default_key_validator, as_key_validator,
}
use vault_autounseal_operato.Strategy.World.{World, Ctx, SealStatus}
use vault_autounseal_operato.Strategy.Policy.{
  RetryPolicy, new_default_retry_policy, as_retry_policy,
}
use vault_autounseal_operato.Strategy.Interface.{default_strategy, retry_strategy}
use vault_autounseal_operato.Client.Methods.{Client}
use vault_autounseal_operato.Client.Config.{ApiPackage}
use vault_autounseal_operato.Client.Config.Built.{Returns}
use vault_autounseal_operato.GoLib.Outcome.{ok}
use vault_autounseal_operato.Client.Api.{Api, success, failure}

-- strings.ToLower of strings that are not ASCII, which no test holds.
abbrev pub same_bytes : Bytes → Bytes
same_bytes s = s

abbrev pub key_one : Bytes
key_one = codes "MTIzNA=="

abbrev pub key_two : Bytes
key_two = codes "NTY3OA=="

abbrev pub two_keys : List Bytes
two_keys = key_one ∷ key_two ∷ []

-- A key that looks sensitive, and is not base64.
abbrev pub sensitive_key : Bytes
sensitive_key = codes "rootkeys!"

abbrev pub forever : Ctx
forever = record { done_at = none; prefers_done = false; cause = nil }

-- The state of the server is the number of keys that it has.
abbrev pub status_at : ℕ → SealStatus
status_at n = record { sealed = ltb n 2; progress = pos n; required = pos 2 }

abbrev pub two_key_server : Api ℕ
two_key_server = record {
  seal_status = λ ctx now s. record { reply = success (status_at s); server = s; elapsed = 1 };
  submit_key =
      λ ctx key now s. record { reply = success (status_at (suc s)); server = suc s; elapsed = 1 };
  init_status = λ ctx now s. record { reply = success true; server = s; elapsed = 1 };
  health = λ ctx now s. record { reply = failure (external 0); server = s; elapsed = 1 };
}

abbrev pub sealed_world : World ℕ
sealed_world = record { server = 0; now = 0; trace = [] }

abbrev pub default_keys : KeyValidator
default_keys = as_key_validator same_bytes new_default_key_validator

abbrev pub three_attempts : RetryPolicy
three_attempts = as_retry_policy new_default_retry_policy

-- A client as the constructor builds it, with metrics.
abbrev pub demo_client : Client ℕ
demo_client = record {
  http_client = record { timeout = pos 30_000_000_000; insecure_skip_verify = false };
  url = codes "http://vault";
  timeout = pos 30_000_000_000;
  validator = default_keys;
  strategy = retry_strategy (default_strategy default_keys true) three_attempts;
  has_metrics = true;
  closed = false;
}

-- A server that has all its keys.
abbrev pub unsealed_world : World ℕ
unsealed_world = record { server = 2; now = 0; trace = [] }

-- A Vault package that accepts every configuration.
abbrev pub willing_package : ApiPackage
willing_package = record {
  configure_tls = λ a. ok a;
  new_client = λ a. ok tt;
  default_http_client = record { timeout = pos 60_000_000_000; insecure_skip_verify = false };
}

pub willing_package-Returns : Returns willing_package
willing_package-Returns = record { tls = λ a h. ground (arith, h); made = λ a h. ground (arith, h) }
