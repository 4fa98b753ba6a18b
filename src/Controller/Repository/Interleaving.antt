-- ===== src/Controller/Repository/Interleaving.antt =====
-- pkg/controller/vaultunsealconfig_controller.go: GetClient called by many goroutines at once, with its
-- sync.RWMutex: a Lock waits for the readers to leave, and from its announcement on no RLock is granted.
-- What a call does under a lock is one step with the unlocking; between the steps any other call may run.
pub mod Agreement
use vault_autounseal_operato.Prelude.{
  ℕ, suc, ◌+◌, ◌-◌, Bool, true, false, Option, none, some, List, [], ◌∷◌, ◌==◌, if◌then◌else◌,
}
use vault_autounseal_operato.GoLib.Strings.{Bytes}
use vault_autounseal_operato.GoLib.Outcome.{Outcome, ok, err, panic}
use vault_autounseal_operato.Errors.{Err}
use vault_autounseal_operato.Strategy.Interface.{VaultClient}
use vault_autounseal_operato.Client.Api.{Api}
use vault_autounseal_operato.Client.Methods.{Client, as_vault_client}
use vault_autounseal_operato.Controller.Types.{VaultInstance}
use vault_autounseal_operato.Controller.Repository.{ClientFactory, Clients, find_client, get_client}

-- Where a call stands: before its RLock, with the read lock, between the two locks, with its Lock
-- announced, with the write lock, or back with its answer.
pub data Progress (S : Type 0) : Type 0 where
  called : Progress S
  reading : Progress S
  missed : Progress S
  waiting : Progress S
  writing : Progress S
  answered : Outcome Err (VaultClient S) → Progress S

-- The map, how often the factory was called, the mutex, and the calls by number. `writer` is set from the
-- announcement of a Lock to its Unlock.
pub record Calls (S : Type 0) : Type 0 where
  pub cache : Clients S
  pub made : ℕ
  pub readers : ℕ
  pub writer : Bool
  pub progress : ℕ → Progress S

abbrev pub update : {A : Type 0} → (ℕ → A) → ℕ → A → ℕ → A
update f i a j = if i == j then a else f j

abbrev pub after_look : {S : Type 0} → Api S → Option (Client S) → Progress S
after_look api (some c) = answered (ok (as_vault_client api c))
after_look api none = missed

-- The factory is called only where the second look finds nothing.
abbrev pub count_make : {S : Type 0} → Option (Client S) → ℕ → ℕ
count_make (some c) n = n
count_make none n = suc n

-- Call `i` is for the key `key i` and the instance `instance_of i`; `factory n` is the factory at its
-- call number `n`, so that two calls may make two clients.
module _ {S : Type 0} (api : Api S) (factory : ℕ → ClientFactory S) (key : ℕ → Bytes)
    (instance_of : ℕ → VaultInstance) where
  unfoldable pub advance : ℕ → Calls S → Progress S → Calls S
  advance i s called =
      if s.writer
      then s
      else record s { readers = s.readers + 1; progress = update s.progress i reading }
  advance i s reading = record s {
    readers = s.readers - 1;
    progress = update s.progress i (after_look api (find_client (key i) s.cache));
  }
  advance i s missed =
      if s.writer then s else record s { writer = true; progress = update s.progress i waiting }
  advance i s waiting =
      if s.readers == 0 then record s { progress = update s.progress i writing } else s
  advance i s writing =
      let (o, cs) = get_client api (factory s.made) (key i) (instance_of i) s.cache in
      record s {
        cache = cs;
        made = count_make (find_client (key i) s.cache) s.made;
        writer = false;
        progress = update s.progress i (answered o);
      }
  advance i s (answered o) = s

  -- The calls move in the order of the schedule, one step at a time; a blocked call stays where it is.
  unfoldable pub run : List ℕ → Calls S → Calls S
  unfolding advance
  run [] s = s
  run (i ∷ is) s = run is (advance i s (s.progress i))

-- No call has begun.
abbrev pub all_called : {S : Type 0} → Clients S → Calls S
all_called cs = record { cache = cs; made = 0; readers = 0; writer = false; progress = λ i. called }
