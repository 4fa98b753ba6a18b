-- ===== src/Strategy/World.antt =====
-- The world that the code runs in: the clock, the context of a call, the Vault server, and what the
-- code has sent out. Times are in nanoseconds.
use vault_autounseal_operato.Prelude.{
  ℕ, ◌+◌, Bool, true, false, Option, none, some, List, ◌∷◌, ℤ, pos, negsuc, leb, ltb, ◌==◌,
  if◌then◌else◌, max,
}
use vault_autounseal_operato.GoLib.Strings.{Bytes}
use vault_autounseal_operato.Errors.{Err}

-- The fields of api.SealStatusResponse that the code reads or passes on.
pub record SealStatus : Type 0 where
  pub sealed : Bool
  pub progress : ℤ
  pub required : ℤ

-- A context: when its Done channel closes, if ever, and what Err then returns. Where a `select` finds
-- both channels ready Go picks one at random; `prefers_done` is that pick.
pub record Ctx : Type 0 where
  pub done_at : Option ℕ
  pub prefers_done : Bool
  pub cause : Err

-- What leaves the process: a request with its key, or a metric (endpoint, success, duration).
pub data Event : Type 0 where
  asked_seal_status : Event
  sent_key : Bytes → Event
  asked_init_status : Event
  asked_health : Event
  unseal_attempt : Bytes → Bool → ℕ → Event
  seal_status_check : Bytes → Bool → ℕ → Event
  health_check : Bytes → Bool → ℕ → Event
  cleared_token : Event

-- `trace` holds the newest event first.
pub record World (S : Type 0) : Type 0 where
  pub server : S
  pub now : ℕ
  pub trace : List Event

abbrev pub emit : {S : Type 0} → Event → World S → World S
emit e w = record w { trace = e ∷ w.trace }

-- time.Sleep.
abbrev pub sleep : {S : Type 0} → ℕ → World S → World S
sleep d w = record w { now = w.now + d }

-- Whether Done is closed by the time `t`.
abbrev pub closed_by : Option ℕ → ℕ → Bool
closed_by none t = false
closed_by (some d) t = leb d t

-- select { case <-ctx.Done(): …; default: }
abbrev pub is_done : {S : Type 0} → Ctx → World S → Bool
is_done c w = closed_by c.done_at w.now

-- A timer of a negative duration fires at once.
abbrev pub clamp : ℤ → ℕ
clamp (pos n) = n
clamp (negsuc n) = 0

-- A `select` between Done and a timer that fires at `t`: whether Done wins, and when.
abbrev pub race : Ctx → ℕ → ℕ → Bool × ℕ
race c now t = elim c.done_at [
  | none ↦ (false, t)
  | some d ↦
      if ltb (max d now) t
      then (true, max d now)
      else if max d now == t
      then (c.prefers_done, t)
      else (false, t)
]
