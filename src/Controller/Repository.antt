-- ===== src/Controller/Repository.antt =====
-- pkg/controller/vaultunsealconfig_controller.go: DefaultVaultClientRepository. The maps are
-- association lists; the locks are not in this sequential view.
pub mod Cache
pub mod Invariant
pub mod Sane
pub mod Interleaving
use vault_autounseal_operato.Prelude.{
  Bool, Option, none, some, List, [], ◌∷◌, ◌++◌, ℤ, pos, if◌then◌else◌,
}
use vault_autounseal_operato.GoLib.Strings.{Bytes, codes, bytes_eq}
use vault_autounseal_operato.GoLib.Outcome.{Outcome, ok, err, panic}
use vault_autounseal_operato.Errors.{Err, wrapped, create_client_for}
use vault_autounseal_operato.Strategy.World.{World}
use vault_autounseal_operato.Strategy.Interface.{VaultClient}
use vault_autounseal_operato.Client.Api.{Api}
use vault_autounseal_operato.Client.Methods.{Client, close, as_vault_client}
use vault_autounseal_operato.Client.Config.{ApiPackage, new_client}
use vault_autounseal_operato.Controller.Types.{VaultInstance}

-- What a ClientFactory makes: a *vault.Client, or another type behind the interface.
pub data Made (S : Type 0) : Type 0 where
  made_client : Client S → Made S
  made_other : VaultClient S → Made S

abbrev pub ClientFactory : Type 0 → Type 0
ClientFactory S = Bytes → Bool → ℤ → Outcome Err (Made S)

-- A *vault.Client as a value of the interface.
abbrev pub made_of : {S : Type 0} → Outcome Err (Client S) → Outcome Err (Made S)
made_of (ok c) = ok (made_client c)
made_of (err e) = err e
made_of panic = panic

-- DefaultClientFactory, which NewDefaultVaultClientRepository takes where it is given none.
unfoldable pub default_client_factory :
    {S : Type 0} → (Bytes → Bytes) → ApiPackage → ClientFactory S
default_client_factory unicode_lower api_package endpoint tls_skip_verify timeout =
    made_of (new_client unicode_lower api_package endpoint tls_skip_verify timeout)

abbrev pub Clients : Type 0 → Type 0
Clients S = List (Bytes × Client S)

-- fmt.Sprintf("%s/%s", namespace, instance.Name).
abbrev pub client_key : Bytes → Bytes → Bytes
client_key namespace name = namespace ++ (codes "/" ++ name)

-- DefaultTimeoutSeconds * time.Second.
abbrev pub client_timeout : ℤ
client_timeout = pos 30_000_000_000

module _ {S : Type 0} where
  unfoldable pub find_client : Bytes → Clients S → Option (Client S)
  find_client key [] = none
  find_client key ((k, c) ∷ cs) = if bytes_eq k key then some c else find_client key cs

  -- `clients[key] = client` for a key that is not in the map.
  unfoldable pub add_client : Bytes → Client S → Clients S → Clients S
  add_client key c cs = (key, c) ∷ cs

  module _ (api : Api S) (factory : ClientFactory S) where
    abbrev pub after_make :
        Bytes → Clients S → Outcome Err (Made S) → Outcome Err (VaultClient S) × Clients S
    after_make key cs (ok (made_client c)) = (ok (as_vault_client api c), add_client key c cs)
    after_make key cs (ok (made_other v)) = (ok v, cs)
    after_make key cs (err e) = (err (wrapped (create_client_for key) e), cs)
    after_make key cs panic = (panic, cs)

    unfoldable pub get_client :
        Bytes → VaultInstance → Clients S → Outcome Err (VaultClient S) × Clients S
    unfolding find_client add_client
    get_client key instance' cs = elim (find_client key cs) [
      | some c ↦ (ok (as_vault_client api c), cs)
      | none ↦
          after_make key cs (factory instance'.endpoint instance'.tls_skip_verify client_timeout)
    ]

  close_each : Clients S → World S → World S
  close_each [] w = w
  close_each ((k, c) ∷ cs) w = close_each cs (close c w).1

  -- Close of each client returns nil, so the last error is nil.
  pub close_all : Clients S → World S → Clients S × World S
  unfolding close_each
  close_all cs w = ([], close_each cs w)
