-- ===== src/Strategy/Interface.antt =====
-- The interfaces VaultClient and UnsealStrategy of pkg/vault/interfaces.go, over a world whose server
-- has the state `S`.
use vault_autounseal_operato.Prelude.{Bool, Option, List, ℤ}
use vault_autounseal_operato.GoLib.Strings.{Bytes}
use vault_autounseal_operato.GoLib.Outcome.{Outcome}
use vault_autounseal_operato.Errors.{Err}
use vault_autounseal_operato.Validator.Default.{KeyValidator}
use vault_autounseal_operato.Strategy.World.{World, Ctx, SealStatus}
use vault_autounseal_operato.Strategy.Policy.{RetryPolicy}

-- A call that returns (*api.SealStatusResponse, error): `ok none` is a nil pointer with a nil error.
abbrev pub StatusCall : Type 0 → Type 0
StatusCall S = World S → Outcome Err (Option SealStatus) × World S

-- What the type assertions of submitSingleKey find behind the interface: a *Client with its
-- SubmitSingleKey, a *MockVaultClient with its threshold, or another type.
pub data Dynamic (S : Type 0) : Type 0 where
  client_type : (Ctx → Bytes → ℤ → StatusCall S) → Dynamic S
  mock_type : (World S → ℤ) → Dynamic S
  other_type : Dynamic S

-- The methods that the strategies and the controller call. IsSealed returns a Boolean also with an
-- error.
pub record VaultClient (S : Type 0) : Type 0 where
  pub is_sealed : Ctx → World S → (Bool × Err) × World S
  pub get_seal_status : Ctx → StatusCall S
  pub unseal : Ctx → List Bytes → ℤ → StatusCall S
  pub dynamic : Dynamic S

abbrev pub UnsealCall : Type 0 → Type 0
UnsealCall S = Ctx → VaultClient S → List Bytes → ℤ → StatusCall S

-- The implementations of UnsealStrategy in the repository. The default one has the validator, and
-- whether there are metrics.
pub data UnsealStrategy (S : Type 0) : Type 0 where
  default_strategy : KeyValidator → Bool → UnsealStrategy S
  parallel_strategy : UnsealStrategy S → ℤ → UnsealStrategy S
  retry_strategy : UnsealStrategy S → RetryPolicy → UnsealStrategy S
