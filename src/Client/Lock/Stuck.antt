-- ===== src/Client/Lock/Stuck.antt =====
-- pkg/vault/client.go: when calls on one client block each other for ever.
use vault_autounseal_operato.Prelude.{
  ℕ, ◌<◌, ◌≡◌, refl, ◌⊎◌, true, false, none, List, [], ◌∷◌, All, arith, Bool-cases, inl, inr,
}
use vault_autounseal_operato.Client.Lock.{
  ask, submit, Phase, query_called, querying, unseal_called, unsealing, asking, close_called,
  closing, returned, Mutex, advance, run, free, fresh,
}
use vault_autounseal_operato.Client.Lock.Open.{
  held, waits, held_by, waiting, Counts, run-Counts, fresh-Counts,
}

-- No call can take a step.
abbrev pub Stuck : Mutex → List Phase → Type 0
Stuck m ps = All (λ p. advance m p ≡ none) ps

-- A call of Unseal whose strategy is about to ask for the seal status.
abbrev pub Asks : Phase → Type 0
Asks (unsealing (ask ∷ plan)) = Unit
Asks _ = ⊥

abbrev pub SomeAsks : List Phase → Type 0
SomeAsks [] = ⊥
SomeAsks (p ∷ ps) = Asks p ⊎ SomeAsks ps

-- Without a Close under way only a call that has returned is blocked.
idle_returned :
    (m : Mutex) (p : Phase) → m.writer ≡ false → waits p ≡ 0 → advance m p ≡ none → p ≡ returned
unfolding advance
idle_returned m query_called w h b = ground arith
idle_returned m querying w h b = ground arith
idle_returned m (unseal_called plan) w h b = ground arith
idle_returned m (unsealing []) w h b = ground arith
idle_returned m (unsealing (submit ∷ plan)) w h b = ground arith
idle_returned m (unsealing (ask ∷ plan)) w h b = ground arith
idle_returned m (asking plan) w h b = ground arith
idle_returned m close_called w h b = ground arith
idle_returned m closing w h b = ground arith
idle_returned m returned w h b = refl

each_returned :
    (m : Mutex) (ps : List Phase)
    → m.writer ≡ false
    → waiting ps ≡ 0
    → Stuck m ps
    → All (λ p. p ≡ returned) ps
unfolding waiting
each_returned m [] w h b = tt
each_returned m (p ∷ ps) w h (b, bs) =
    (idle_returned m p w (omega arith) b, each_returned m ps w (omega arith) bs)

-- A Close waits only for readers.
close_blocked : (m : Mutex) (p : Phase) → waits p ≡ 1 → advance m p ≡ none → 0 < m.readers
unfolding advance
close_blocked m query_called h b = ground arith
close_blocked m querying h b = ground arith
close_blocked m (unseal_called plan) h b = ground arith
close_blocked m (unsealing plan) h b = ground arith
close_blocked m (asking plan) h b = ground arith
close_blocked m close_called h b = ground arith
close_blocked m closing h b = ground arith
close_blocked m returned h b = ground arith

waits_cases : (p : Phase) → (waits p ≡ 0) ⊎ (waits p ≡ 1)
waits_cases closing = inr refl
waits_cases query_called = inl refl
waits_cases querying = inl refl
waits_cases (unseal_called plan) = inl refl
waits_cases (unsealing plan) = inl refl
waits_cases (asking plan) = inl refl
waits_cases close_called = inl refl
waits_cases returned = inl refl

some_reader : (m : Mutex) (ps : List Phase) → 0 < waiting ps → Stuck m ps → 0 < m.readers
unfolding waiting
some_reader m [] h b = absurd (omega arith)
some_reader m (p ∷ ps) h (b, bs) = elim (waits_cases p) [
  | inl e ↦ some_reader m ps (omega arith) bs
  | inr e ↦ close_blocked m p e b
]

-- A reader that is blocked asks for the status.
reader-Asks : (m : Mutex) (p : Phase) → advance m p ≡ none → (held p ≡ 0) ⊎ Asks p
unfolding advance
reader-Asks m query_called b = inl refl
reader-Asks m querying b = ground arith
reader-Asks m (unseal_called plan) b = inl refl
reader-Asks m (unsealing []) b = ground arith
reader-Asks m (unsealing (submit ∷ plan)) b = ground arith
reader-Asks m (unsealing (ask ∷ plan)) b = inr tt
reader-Asks m (asking plan) b = ground arith
reader-Asks m close_called b = inl refl
reader-Asks m closing b = inl refl
reader-Asks m returned b = inl refl

some_asks : (m : Mutex) (ps : List Phase) → 0 < held_by ps → Stuck m ps → SomeAsks ps
unfolding held_by
some_asks m [] h b = absurd (omega arith)
some_asks m (p ∷ ps) h (b, bs) = elim (reader-Asks m p b) [
  | inl e ↦ inr (some_asks m ps (omega arith) bs)
  | inr a ↦ inl a
]

Stuck-cases :
    (m : Mutex) (ps : List Phase)
    → Counts (held_by ps) (waiting ps) m
    → Stuck m ps
    → All (λ p. p ≡ returned) ps ⊎ ((m.writer ≡ true) × SomeAsks ps)
Stuck-cases m ps k b = elim (Bool-cases m.writer) [
  | inl e ↦
      let reader = some_reader m ps (ground (arith, k.writer, e)) b in
      inr (e, some_asks m ps (ground (arith, k.readers, reader)) b)
  | inr e ↦ inl (each_returned m ps e (ground (arith, k.writer, e)) b)
]

-- Whatever calls on one client have been interleaved, if none can go on, then all have returned, or a
-- Close has announced itself while an Unseal, which holds the read lock, asks for the seal status.
pub run-Stuck :
    (is : List ℕ) (ps : List Phase)
    → All (λ p. fresh p ≡ true) ps
    → let (m, qs) = run is free ps in
      Stuck m qs → All (λ p. p ≡ returned) qs ⊎ ((m.writer ≡ true) × SomeAsks qs)
run-Stuck is ps all =
    let (m, qs) = run is free ps in Stuck-cases m qs (run-Counts is free ps (fresh-Counts ps all))
