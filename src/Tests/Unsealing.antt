-- ===== src/Tests/Unsealing.antt =====
-- The validators of pkg/unsealing at concrete inputs.
use vault_autounseal_operato.Prelude.{
  ℕ, ◌≡◌, ◌↔◌, All, refl, false, none, some, List, ℤ, pos, [], ◌∷◌,
}
use vault_autounseal_operato.GoLib.Strings.{Bytes, codes, has_prefix}
use vault_autounseal_operato.GoLib.Outcome.{ok}
use vault_autounseal_operato.Validator.Strict.{
  StrictKeyValidator, new_strict_key_validator, set_allowed_prefixes,
}
use vault_autounseal_operato.Unsealing
use vault_autounseal_operato.Unsealing.Accepted.{IsAcceptable, strict_validate_keys_iff}
use vault_autounseal_operato.Validator.Default.Sets.{Distinct}
use vault_autounseal_operato.Prelude.Int.{◌≤ℤ◌}
use vault_autounseal_operato.Unsealing.Direct
use vault_autounseal_operato.Unsealing.Direct.{DirectClient, unseal_direct}
use vault_autounseal_operato.Unsealing.Direct.Built.{new_direct_client, new_direct_client-unseal}
use vault_autounseal_operato.Client.Config.{ClientConfig, initial_config, make_client}
use vault_autounseal_operato.Client.Api.{Api}
use vault_autounseal_operato.Strategy.World.{World, Ctx}
use vault_autounseal_operato.Unsealing.Direct.Same.{AlikeResult, unseal-AlikeResult, unseal_nil}
use vault_autounseal_operato.Strategy.Default.{default_unseal}
use vault_autounseal_operato.Client.Methods.{view, no_unseal}
use vault_autounseal_operato.Tests.Validator.{two_keys_pass}
use vault_autounseal_operato.Tests.Fixtures.{
  same_bytes, two_keys, two_key_server, forever, sealed_world, demo_client, default_keys,
  willing_package, status_at,
}

-- Keys that decode to text with the prefix "12".
abbrev twelve : StrictKeyValidator
twelve = set_allowed_prefixes (codes "12" ∷ []) (new_strict_key_validator (pos 4))

strict_validate_keys_iff_example :
    (Unsealing.validate_keys same_bytes twelve two_keys (pos 2) ≡ ok tt) ↔ (
      (pos 1 ≤ℤ pos 2)
      × (pos 2 ≤ℤ pos 2)
      × All (IsAcceptable same_bytes twelve) two_keys
      × Distinct two_keys)
strict_validate_keys_iff_example = strict_validate_keys_iff same_bytes twelve two_keys (pos 2)

-- A client that is open and has no strategy.
abbrev bare_client : DirectClient ℕ
bare_client = record { base = demo_client; own_strategy = none }

unseal-AlikeResult_example :
    AlikeResult (Direct.unseal two_key_server bare_client forever two_keys (pos 2) sealed_world) (
      default_unseal default_keys false forever
        (view two_key_server demo_client (no_unseal two_key_server))
        two_keys
        (pos 2)
        sealed_world)
unseal-AlikeResult_example =
    unseal-AlikeResult two_key_server bare_client forever refl refl (no_unseal two_key_server)
      default_keys two_keys (pos 2) sealed_world two_keys_pass

unseal_nil_example :
    (Direct.unseal two_key_server bare_client forever [] (pos 2) sealed_world).0 ≡ ok none
unseal_nil_example =
    unseal_nil two_key_server bare_client forever refl refl 2 sealed_world (status_at 0) refl refl

-- A configuration that names a strategy.
abbrev strategic_config : ClientConfig ℕ
strategic_config = record (initial_config same_bytes willing_package (codes "http://vault")) {
  strategy = some demo_client.strategy;
}

-- The client that is built from it.
abbrev built_bare : DirectClient ℕ
built_bare = record {
  base = make_client same_bytes willing_package strategic_config (record {
    address = codes "http://vault";
    timeout = pos 30_000_000_000;
    http_client = record { timeout = pos 30_000_000_000; insecure_skip_verify = false };
  });
  own_strategy = none;
}

bare_built : new_direct_client same_bytes willing_package strategic_config ≡ ok built_bare
unfolding new_direct_client has_prefix
bare_built = refl

new_direct_client-unseal_example :
    (built_bare.base.closed ≡ false)
    × ((api : Api ℕ) (ctx : Ctx) (keys : List Bytes) (t : ℤ) (w : World ℕ)
        → Direct.unseal api built_bare ctx keys t w
          ≡ unseal_direct api built_bare.base ctx keys t w)
new_direct_client-unseal_example =
    new_direct_client-unseal same_bytes willing_package strategic_config built_bare bare_built
