-- ===== src/Client/Lock/Open.antt =====
-- pkg/vault/client.go: a client is not closed while a call works with it.
use vault_autounseal_operato.Prelude.{
  ◌⊎◌, ℕ, zero, suc, ◌+◌, ◌≡◌, refl, Bool, true, false, List, [], ◌∷◌, All, arith, Bool-cases, inl,
  inr,
}
use vault_autounseal_operato.Client.Lock.{
  ask, submit, Phase, query_called, querying, unseal_called, unsealing, asking, close_called,
  closing, returned, Mutex, advance, or_stay, step_at, run, free, fresh,
}

-- How often a call holds the read lock.
abbrev pub held : Phase → ℕ
held querying = 1
held (unsealing plan) = 1
held (asking plan) = 2
held _ = 0

abbrev pub waits : Phase → ℕ
waits closing = 1
waits _ = 0

abbrev pub bit : Bool → ℕ
bit true = 1
bit false = 0

unfoldable pub held_by : List Phase → ℕ
held_by [] = 0
held_by (p ∷ ps) = held p + held_by ps

unfoldable pub waiting : List Phase → ℕ
waiting [] = 0
waiting (p ∷ ps) = waits p + waiting ps

-- With `h` read locks and `c` waiting Closes: the mutex counts them, and a closed client has no reader.
pub record Counts (h c : ℕ) (m : Mutex) : Type 0 where
  pub readers : m.readers ≡ h
  pub writer : c ≡ bit m.writer
  pub shut : m.closed ≡ true → h ≡ 0

advance-Counts :
    (a b : ℕ) (m : Mutex) (p : Phase)
    → Counts (a + held p) (b + waits p) m
    → let (m', p') = or_stay m p (advance m p) in Counts (a + held p') (b + waits p') m'
unfolding advance
advance-Counts a b m query_called k = ground (arith, k.readers, k.writer, k.shut)
advance-Counts a b m querying k = ground (arith, k.readers, k.writer, k.shut)
advance-Counts a b m (unseal_called plan) k = ground (arith, k.readers, k.writer, k.shut)
advance-Counts a b m (unsealing []) k = ground (arith, k.readers, k.writer, k.shut)
advance-Counts a b m (unsealing (submit ∷ plan)) k = ground (arith, k.readers, k.writer, k.shut)
advance-Counts a b m (unsealing (ask ∷ plan)) k = ground (arith, k.readers, k.writer, k.shut)
advance-Counts a b m (asking plan) k = ground (arith, k.readers, k.writer, k.shut)
advance-Counts a b m close_called k = ground (arith, k.readers, k.writer, k.shut)
advance-Counts a b m closing k = ground (arith, k.readers, k.writer, k.shut)
advance-Counts a b m returned k = k

rebalance : {h h' c c' : ℕ} {m : Mutex} → h ≡ h' → c ≡ c' → Counts h c m → Counts h' c' m
rebalance eh ec k = ground (arith, k.readers, k.writer, k.shut, eh, ec)

step_at-Counts :
    (i : ℕ) (a b : ℕ) (m : Mutex) (ps : List Phase)
    → Counts (a + held_by ps) (b + waiting ps) m
    → let (m', ps') = step_at i m ps in Counts (a + held_by ps') (b + waiting ps') m'
unfolding step_at held_by waiting
step_at-Counts i a b m [] k = k
step_at-Counts zero a b m (p ∷ ps) k =
    let (m', p') = or_stay m p (advance m p) in
    rebalance (omega arith) (omega arith) (
      advance-Counts (a + held_by ps) (b + waiting ps) m p
        (rebalance (omega arith) (omega arith) k))
step_at-Counts (suc i) a b m (p ∷ ps) k =
    rebalance (omega arith) (omega arith)
      (step_at-Counts i (a + held p) (b + waits p) m ps (rebalance (omega arith) (omega arith) k))

pub run-Counts :
    (is : List ℕ) (m : Mutex) (ps : List Phase)
    → Counts (held_by ps) (waiting ps) m
    → let (m', ps') = run is m ps in Counts (held_by ps') (waiting ps') m'
unfolding run
run-Counts [] m ps k = k
run-Counts (i ∷ is) m ps k =
    let (m', ps') = step_at i m ps in
    run-Counts is m' ps' (
      rebalance (omega arith) (omega arith)
        (step_at-Counts i 0 0 m ps (rebalance (omega arith) (omega arith) k)))

fresh_idle : (p : Phase) → fresh p ≡ true → (held p ≡ 0) × (waits p ≡ 0)
fresh_idle query_called h = (refl, refl)
fresh_idle querying h = ground arith
fresh_idle (unseal_called plan) h = (refl, refl)
fresh_idle (unsealing plan) h = ground arith
fresh_idle (asking plan) h = ground arith
fresh_idle close_called h = (refl, refl)
fresh_idle closing h = ground arith
fresh_idle returned h = ground arith

fresh-held : (ps : List Phase) → All (λ p. fresh p ≡ true) ps → (held_by ps ≡ 0) × (waiting ps ≡ 0)
unfolding held_by waiting
fresh-held [] all = (refl, refl)
fresh-held (p ∷ ps) (f, all) =
    let (h, w) = fresh_idle p f in let (hs, ws) = fresh-held ps all in (omega arith, omega arith)

pub fresh-Counts :
    (ps : List Phase) → All (λ p. fresh p ≡ true) ps → Counts (held_by ps) (waiting ps) free
fresh-Counts ps all = let (h, w) = fresh-held ps all in ground (arith, h, w)

-- The client is open for every call that holds the lock.
abbrev pub OpenFor : Mutex → List Phase → Type 0
OpenFor m ps = All (λ p. (held p ≡ 0) ⊎ (m.closed ≡ false)) ps

open_for : (m : Mutex) (ps : List Phase) → (m.closed ≡ true → held_by ps ≡ 0) → OpenFor m ps
unfolding held_by
open_for m [] shut = tt
open_for m (p ∷ ps) shut = (
  elim (Bool-cases m.closed) [ inl e ↦ let z = shut e in inl (omega arith) | inr e ↦ inr e ],
  open_for m ps (λ e. let z = shut e in omega arith),
)

-- However calls of Unseal, Close and the queries of one client are interleaved, the client is not
-- closed while one of them works: from the grant of its read lock to the release.
pub run_open :
    (is : List ℕ) (ps : List Phase)
    → All (λ p. fresh p ≡ true) ps
    → let (m, qs) = run is free ps in OpenFor m qs
run_open is ps all =
    let (m, qs) = run is free ps in
    let k = run-Counts is free ps (fresh-Counts ps all) in open_for m qs k.shut
