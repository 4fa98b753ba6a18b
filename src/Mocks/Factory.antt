-- ===== src/Mocks/Factory.antt =====
-- MockClientFactory of pkg/vault/mocks.go. The map holds the mocks by endpoint.
use vault_autounseal_operato.Prelude.{Bool, false, Option, none, some, if◌then◌else◌}
use vault_autounseal_operato.GoLib.Strings.{Bytes, bytes_eq}
use vault_autounseal_operato.GoLib.Outcome.{Outcome, ok, err}
use vault_autounseal_operato.Errors.{Err, formatted, mock_client_factory}
use vault_autounseal_operato.Mocks.Client.{MockVaultClient, new_mock_vault_client}

pub record MockClientFactory : Type 0 where
  pub clients : Bytes → Option MockVaultClient
  pub fail_new : Bool

-- NewMockClientFactory, and Reset.
abbrev pub new_mock_client_factory : MockClientFactory
new_mock_client_factory = record { clients = λ endpoint. none; fail_new = false }

unfoldable pub new_client :
    Bytes → MockClientFactory → Outcome Err MockVaultClient × MockClientFactory
new_client endpoint f = if f.fail_new then (err (formatted mock_client_factory), f) else (
  ok new_mock_vault_client,
  record f {
    clients = λ e. if bytes_eq e endpoint then some new_mock_vault_client else f.clients e;
  },
)

-- nil for an endpoint without a client.
abbrev pub get_client : Bytes → MockClientFactory → Option MockVaultClient
get_client endpoint f = f.clients endpoint

abbrev pub set_fail_new : Bool → MockClientFactory → MockClientFactory
set_fail_new fail f = record f { fail_new = fail }
