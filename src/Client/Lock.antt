-- ===== src/Client/Lock.antt =====
-- pkg/vault/client.go: the mutex of a client, when its methods run at once. It is a sync.RWMutex: a
-- Lock waits for the readers to leave, and from its announcement on no RLock is granted. Unseal holds
-- the read lock while its strategy works, and the strategy calls GetSealStatus, which takes it again.
pub mod Deadlock
pub mod Open
pub mod Stuck
use vault_autounseal_operato.Prelude.{
  ℕ, zero, suc, ◌+◌, ◌-◌, Bool, true, false, Option, none, some, List, [], ◌∷◌, ◌==◌, if◌then◌else◌,
}

-- What a strategy does with the client: GetSealStatus, which locks, or SubmitSingleKey, which does not.
pub data Action : Type 0 where
  ask submit : Action

-- Where a call stands. A query is one of IsSealed, GetSealStatus, IsInitialized and HealthCheck from
-- outside; the calls of Unseal have the actions that its strategy is going to take, and `asking` holds
-- the read lock twice.
pub data Phase : Type 0 where
  query_called querying : Phase
  unseal_called unsealing asking : List Action → Phase
  close_called closing : Phase
  returned : Phase

-- `writer` is set from the announcement of a Lock to its Unlock.
pub record Mutex : Type 0 where
  pub readers : ℕ
  pub writer : Bool
  pub closed : Bool

abbrev pub lock_read : Mutex → Mutex
lock_read m = record m { readers = m.readers + 1 }

abbrev pub unlock_read : Mutex → Mutex
unlock_read m = record m { readers = m.readers - 1 }

-- A method that begins with RLock and the test of `closed`, and leaves at once if that is set.
abbrev pub enter : Mutex → Phase → Option (Mutex × Phase)
enter m p =
    if m.writer then none else if m.closed then some (m, returned) else some (lock_read m, p)

-- Lock announces the writer, unless there is one.
abbrev pub announce : Mutex → Option (Mutex × Phase)
announce m = if m.writer then none else some (record m { writer = true }, closing)

-- The rest of Close, once the readers have left.
abbrev pub shut : Mutex → Option (Mutex × Phase)
shut m =
    if m.readers == 0 then some (record m { writer = false; closed = true }, returned) else none

-- The next step of a call; none where it is blocked, or has returned.
unfoldable pub advance : Mutex → Phase → Option (Mutex × Phase)
advance m query_called = enter m querying
advance m querying = some (unlock_read m, returned)
advance m (unseal_called plan) = enter m (unsealing plan)
advance m (unsealing []) = some (unlock_read m, returned)
advance m (unsealing (submit ∷ plan)) = some (m, unsealing plan)
advance m (unsealing (ask ∷ plan)) = if m.writer then none else some (lock_read m, asking plan)
advance m (asking plan) = some (unlock_read m, unsealing plan)
advance m close_called = announce m
advance m closing = shut m
advance m returned = none

-- A blocked call stays where it is.
abbrev pub or_stay : Mutex → Phase → Option (Mutex × Phase) → Mutex × Phase
or_stay m p none = (m, p)
or_stay m p (some r) = r

-- The call number `i` takes a step.
unfoldable pub step_at : ℕ → Mutex → List Phase → Mutex × List Phase
unfolding advance
step_at i m [] = (m, [])
step_at zero m (p ∷ ps) = let (m', p') = or_stay m p (advance m p) in (m', p' ∷ ps)
step_at (suc i) m (p ∷ ps) = let (m', ps') = step_at i m ps in (m', p ∷ ps')

-- The calls move in the order of the schedule.
unfoldable pub run : List ℕ → Mutex → List Phase → Mutex × List Phase
unfolding step_at
run [] m ps = (m, ps)
run (i ∷ is) m ps = let (m', ps') = step_at i m ps in run is m' ps'

abbrev pub free : Mutex
free = record { readers = 0; writer = false; closed = false }

-- Calls that have not begun.
abbrev pub fresh : Phase → Bool
fresh query_called = true
fresh (unseal_called plan) = true
fresh close_called = true
fresh _ = false
