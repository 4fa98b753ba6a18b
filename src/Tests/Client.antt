-- ===== src/Tests/Client.antt =====
-- The client of pkg/vault/client.go at concrete inputs.
use vault_autounseal_operato.Prelude.{ℕ, ◌≡◌, refl, true, false, pos}
use vault_autounseal_operato.Prelude.Int.{◌≤ℤ◌}
use vault_autounseal_operato.GoLib.Strings.{Bytes, codes, has_prefix}
use vault_autounseal_operato.GoLib.Outcome.{ok}
use vault_autounseal_operato.Validator.Default.{new_default_key_validator}
use vault_autounseal_operato.Strategy.Policy.{as_retry_policy}
use vault_autounseal_operato.Strategy.Interface.{default_strategy, retry_strategy}
use vault_autounseal_operato.Strategy.Default.{default_unseal}
use vault_autounseal_operato.Client.Methods.{Client, is_sealed, view, no_unseal, unseal}
use vault_autounseal_operato.Client.Config.{new_client, millisecond, default_validator}
use vault_autounseal_operato.Client.Config.Built.{new_client_ok}
use vault_autounseal_operato.Client.Submission.{FirstKeys, default_unseal-FirstKeys}
use vault_autounseal_operato.Client.Safety.{
  Sound, SaneStrategy, unseal-Sound, as_key_validator-IsSane,
}
use vault_autounseal_operato.Tests.Fixtures.{
  same_bytes, default_keys, two_keys, forever, two_key_server, sealed_world, unsealed_world,
  demo_client, willing_package,
}

says_unsealed : (is_sealed demo_client two_key_server forever unsealed_world).0.0 ≡ false
unfolding is_sealed
says_unsealed = refl

default_unseal-FirstKeys_example :
    FirstKeys two_key_server demo_client
      (no_unseal two_key_server)
      forever
      two_keys
      1
      sealed_world
      (default_unseal default_keys true forever
        (view two_key_server demo_client (no_unseal two_key_server))
        two_keys
        (pos 1)
        sealed_world).1
default_unseal-FirstKeys_example =
    default_unseal-FirstKeys two_key_server demo_client (no_unseal two_key_server) forever
      default_keys true two_keys (pos 1) sealed_world

unseal-Sound_example :
    Sound (unseal two_key_server demo_client forever two_keys (pos 2) sealed_world).0
unfolding SaneStrategy
unseal-Sound_example =
    unseal-Sound two_key_server demo_client forever two_keys (pos 2) sealed_world
      (as_key_validator-IsSane same_bytes new_default_key_validator)

abbrev demo_url : Bytes
demo_url = codes "https://vault:8200"

-- The client that is built where no verification is asked for.
abbrev demo_made : Client ℕ
demo_made = record {
  http_client = record { timeout = pos 5_000_000_000; insecure_skip_verify = false };
  url = demo_url;
  timeout = pos 5_000_000_000;
  validator = default_keys;
  strategy = retry_strategy (default_strategy default_keys false) (
      as_retry_policy (record {
        attempt_limit = pos 3;
        base_delay = pos 1_000_000_000;
        max_delay = pos 10_000_000_000;
      }));
  has_metrics = false;
  closed = false;
}

demo_new : new_client same_bytes willing_package demo_url true (pos 5_000_000_000) ≡ ok demo_made
unfolding new_client has_prefix
demo_new = refl

new_client_ok_example :
    (demo_made.url ≡ demo_url)
    × (demo_made.closed ≡ false)
    × (demo_made.http_client.insecure_skip_verify ≡ false)
    × (pos millisecond ≤ℤ demo_made.timeout)
    × (demo_made.strategy
        ≡ retry_strategy (default_strategy (default_validator same_bytes) false) (
            as_retry_policy (record {
              attempt_limit = pos 3;
              base_delay = pos 1_000_000_000;
              max_delay = pos 10_000_000_000;
            })))
new_client_ok_example =
    new_client_ok same_bytes willing_package demo_url true (pos 5_000_000_000) demo_made demo_new
