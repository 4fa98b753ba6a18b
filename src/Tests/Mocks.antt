-- ===== src/Tests/Mocks.antt =====
-- The mock client and the strategies.
use vault_autounseal_operato.Prelude.{◌≡◌, refl, true, none, [], ◌∷◌, pos, arith}
use vault_autounseal_operato.GoLib.Strings.{codes}
use vault_autounseal_operato.Strategy
use vault_autounseal_operato.Strategy.World.{World}
use vault_autounseal_operato.Strategy.Default.{default_unseal}
use vault_autounseal_operato.Mocks.Client.{MockVaultClient, new_mock_vault_client, as_vault_client}
use vault_autounseal_operato.Mocks.Client.Progress.{ShortOf, Opened, default_unseal-Opened}
use vault_autounseal_operato.Unsealing.Strategy as Plain
use vault_autounseal_operato.Unsealing.Strategy.{
  VaultClient, UnsealStrategy, default_strategy, new_parallel_unseal_strategy,
}
use vault_autounseal_operato.Unsealing.Strategy.Same.{counterpart, in_vault, unseal-in_vault}
use vault_autounseal_operato.Tests.Fixtures.{two_keys, forever, default_keys}
use vault_autounseal_operato.Tests.Validator.{two_keys_pass}

-- A mock that has taken one key of three.
abbrev half_open : World MockVaultClient
half_open = record {
  server = record new_mock_vault_client {
    submitted_keys = codes "b2xk" ∷ [];
    unseal_progress = pos 1;
    seal_status_resp = record { sealed = true; progress = pos 1; required = pos 3 };
  };
  now = 5;
  trace = [];
}

half_open-short : ShortOf 2 half_open.server
half_open-short = record {
  is_locked = refl;
  answers = refl;
  total = 3;
  threshold = refl;
  short = refl;
}

default_unseal-Opened_example :
    Opened two_keys 2 half_open
      (default_unseal default_keys true forever as_vault_client two_keys (pos 2) half_open)
default_unseal-Opened_example =
    default_unseal-Opened forever refl default_keys true two_keys 2 1 half_open two_keys_pass
      half_open-short refl (omega arith) (omega arith)

-- The mock, which has no SubmitSingleKey, behind the interface of pkg/core/types.
abbrev plain_mock : VaultClient MockVaultClient
plain_mock = record {
  is_sealed = as_vault_client.is_sealed;
  get_seal_status = as_vault_client.get_seal_status;
  unseal = as_vault_client.unseal;
  submit_single_key = none;
}

abbrev wide_strategy : UnsealStrategy
wide_strategy = new_parallel_unseal_strategy (default_strategy default_keys true) (pos 0)

unseal-in_vault_example :
    Plain.unseal wide_strategy forever plain_mock two_keys (pos 2) half_open
    ≡ Strategy.unseal
        (counterpart wide_strategy)
        forever
        (in_vault plain_mock)
        two_keys
        (pos 2)
        half_open
unseal-in_vault_example =
    unseal-in_vault wide_strategy forever plain_mock two_keys (pos 2) half_open
