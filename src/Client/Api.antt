-- ===== src/Client/Api.antt =====
-- What the client uses of the HashiCorp Vault package (github.com/hashicorp/vault/api), as a
-- parameter: each request goes from the state of the server to a reply, a new state and a later time.
use vault_autounseal_operato.Prelude.{ℕ, ◌+◌, Bool, ◌∷◌}
use vault_autounseal_operato.GoLib.Strings.{Bytes}
use vault_autounseal_operato.Errors.{Err}
use vault_autounseal_operato.Strategy.World.{World, Ctx, SealStatus, Event}

-- The pair (value, error) of a request: a value, or a non-nil error.
pub data Reply (A : Type 0) : Type 0 where
  success : A → Reply A
  failure : Err → Reply A

pub record Answer (S A : Type 0) : Type 0 where
  pub reply : Reply A
  pub server : S
  pub elapsed : ℕ

-- The fields of api.HealthResponse that matter to a caller.
pub record HealthStatus : Type 0 where
  pub initialized : Bool
  pub sealed : Bool
  pub standby : Bool

pub record Api (S : Type 0) : Type 0 where
  pub seal_status : Ctx → ℕ → S → Answer S SealStatus
  pub submit_key : Ctx → Bytes → ℕ → S → Answer S SealStatus
  pub init_status : Ctx → ℕ → S → Answer S Bool
  pub health : Ctx → ℕ → S → Answer S HealthStatus

-- The world after a request, which the trace shows.
abbrev pub after_request : {S A : Type 0} → Event → Answer S A → World S → World S
after_request e a w = record { server = a.server; now = w.now + a.elapsed; trace = e ∷ w.trace }
