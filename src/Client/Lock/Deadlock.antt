-- ===== src/Client/Lock/Deadlock.antt =====
-- pkg/vault/client.go: a Close that begins while an Unseal works.
use vault_autounseal_operato.Prelude.{
  ℕ, zero, suc, ◌≡◌, refl, ap, ◌∙◌, true, false, none, List, [], ◌∷◌, arith,
}
use vault_autounseal_operato.Client.Lock.{
  Action, ask, submit, Phase, query_called, querying, unseal_called, unsealing, asking,
  close_called, closing, returned, Mutex, advance, or_stay, step_at, run, free,
}
use vault_autounseal_operato.Client.Lock.Open.{
  held, waits, held_by, waiting, Counts, run-Counts, fresh-Counts,
}

-- An Unseal under way whose strategy still has to ask for the seal status.
abbrev pub HasAsk : List Action → Type 0
HasAsk [] = ⊥
HasAsk (ask ∷ plan) = Unit
HasAsk (submit ∷ plan) = HasAsk plan

abbrev pub StillAsks : Phase → Type 0
StillAsks (unsealing plan) = HasAsk plan
StillAsks (asking plan) = HasAsk plan
StillAsks _ = ⊥

-- The mutex while a Close waits for such a call.
abbrev Waits : Mutex → Phase → Type 0
Waits m q = StillAsks q × (m.writer ≡ true) × (m.readers ≡ held q)

-- The call may go on until it asks, but does not return.
advance-Waits :
    (m : Mutex) (q : Phase) → Waits m q → let (m', q') = or_stay m q (advance m q) in Waits m' q'
unfolding advance
advance-Waits m query_called w = absurd w.0
advance-Waits m querying w = absurd w.0
advance-Waits m (unseal_called plan) w = absurd w.0
advance-Waits m (unsealing []) w = absurd w.0
advance-Waits m (unsealing (submit ∷ plan)) w = w
advance-Waits m (unsealing (ask ∷ plan)) (a, b, c) = rw b (a, refl, c)
advance-Waits m (asking plan) (a, b, c) = (a, b, omega arith)
advance-Waits m close_called w = absurd w.0
advance-Waits m closing w = absurd w.0
advance-Waits m returned w = absurd w.0

-- The Close that waits does not go on.
closing-Waits : (m : Mutex) (q : Phase) → Waits m q → advance m closing ≡ none
unfolding advance
closing-Waits m query_called w = absurd w.0
closing-Waits m querying w = absurd w.0
closing-Waits m (unseal_called plan) w = absurd w.0
closing-Waits m (unsealing plan) (a, b, c) = ground arith
closing-Waits m (asking plan) (a, b, c) = ground arith
closing-Waits m close_called w = absurd w.0
closing-Waits m closing w = absurd w.0
closing-Waits m returned w = absurd w.0

-- What is left of an Unseal and a Close that wait for each other.
abbrev pub Deadlocked : List Phase → Type 0
Deadlocked ps = (q : Phase) × StillAsks q × (ps ≡ q ∷ closing ∷ [])

closing-stays :
    (m : Mutex) (q : Phase) → Waits m q → step_at 1 m (q ∷ closing ∷ []) ≡ (m, q ∷ closing ∷ [])
unfolding step_at
closing-stays m q w =
    ap (λ r. let (m', p') = or_stay m closing r in (m', q ∷ p' ∷ [])) (closing-Waits m q w)

moved :
    (i : ℕ) (is : List ℕ) (m m' : Mutex) (ps ps' : List Phase)
    → step_at i m ps ≡ (m', ps')
    → Deadlocked (run is m' ps').1
    → Deadlocked (run (i ∷ is) m ps).1
unfolding run
moved i is m m' ps ps' e (q, a, d) = (q, a, ap (λ r. (run is r.0 r.1).1) e ∙ d)

run-Waits :
    (is : List ℕ) (m : Mutex) (q : Phase) → Waits m q → Deadlocked (run is m (q ∷ closing ∷ [])).1
unfolding run step_at
run-Waits [] m q w = (q, w.0, refl)
run-Waits (zero ∷ is) m q w =
    let (m', q') = or_stay m q (advance m q) in run-Waits is m' q' (advance-Waits m q w)
run-Waits (suc zero ∷ is) m q w =
    moved 1 is m m (q ∷ closing ∷ []) (q ∷ closing ∷ []) (closing-stays m q w) (run-Waits is m q w)
run-Waits (suc (suc i) ∷ is) m q w = run-Waits is m q w

announce_step :
    (m : Mutex) (p : Phase)
    → m.writer ≡ false
    → step_at 1 m (p ∷ close_called ∷ []) ≡ (record m { writer = true }, p ∷ closing ∷ [])
unfolding step_at advance
announce_step m p e = ground (arith, e)

-- An Unseal that still asks holds the lock, so that no Close waits beside it yet.
announced :
    (is : List ℕ) (m : Mutex) (p : Phase)
    → Counts (held_by (p ∷ close_called ∷ [])) (waiting (p ∷ close_called ∷ [])) m
    → StillAsks p
    → waits p ≡ 0
    → Deadlocked (run (1 ∷ is) m (p ∷ close_called ∷ [])).1
unfolding held_by waiting
announced is m p k a none_waits =
    moved 1 is m (record m { writer = true }) (p ∷ close_called ∷ []) (p ∷ closing ∷ [])
      (announce_step m p (ground (arith, k.writer, none_waits)))
      (run-Waits is (record m { writer = true }) p (a, refl, ground (arith, k.readers)))

asks-waits : (p : Phase) → StillAsks p → waits p ≡ 0
asks-waits closing a = absurd a
asks-waits query_called a = refl
asks-waits querying a = refl
asks-waits (unseal_called plan) a = refl
asks-waits (unsealing plan) a = refl
asks-waits (asking plan) a = refl
asks-waits close_called a = refl
asks-waits returned a = refl

-- A Close that begins while an Unseal of the same client is under way, and its strategy still has to ask
-- for the seal status, blocks for ever: whatever the two calls did before, and however they are
-- scheduled from there on, neither returns, since the Unseal keeps its read lock and still asks, and
-- the Close still waits for it.
pub unseal_close_deadlock :
    (before is : List ℕ) (plan : List Action) (m : Mutex) (p : Phase)
    → run before free (unseal_called plan ∷ close_called ∷ []) ≡ (m, p ∷ close_called ∷ [])
    → StillAsks p
    → Deadlocked (run (1 ∷ is) m (p ∷ close_called ∷ [])).1
unseal_close_deadlock before is plan m p so_far a =
    announced is m p
      (rw so_far at (
        run-Counts before free (unseal_called plan ∷ close_called ∷ [])
          (fresh-Counts (unseal_called plan ∷ close_called ∷ []) (refl, (refl, tt)))))
      a (asks-waits p a)
