-- ===== src/Tests/Lock.antt =====
-- The mutex of a client at concrete inputs.
use vault_autounseal_operato.Prelude.{◌≡◌, refl, ◌⊎◌, true, List, [], ◌∷◌, All}
use vault_autounseal_operato.Client.Lock.{
  ask, submit, Phase, query_called, unseal_called, unsealing, close_called, returned, advance,
  step_at, run, free,
}
use vault_autounseal_operato.Client.Lock.Open.{OpenFor, run_open}
use vault_autounseal_operato.Client.Lock.Stuck.{Stuck, SomeAsks, run-Stuck}
use vault_autounseal_operato.Client.Lock.Deadlock.{Deadlocked, unseal_close_deadlock}

-- An Unseal that asks and sends one key, a query, and a Close.
abbrev three_calls : List Phase
three_calls = unseal_called (ask ∷ submit ∷ []) ∷ query_called ∷ close_called ∷ []

run_open_example : let (m, qs) = run (0 ∷ 1 ∷ 0 ∷ 2 ∷ []) free three_calls in OpenFor m qs
run_open_example = run_open (0 ∷ 1 ∷ 0 ∷ 2 ∷ []) three_calls (refl, (refl, (refl, tt)))

abbrev two_calls : List Phase
two_calls = unseal_called (ask ∷ []) ∷ close_called ∷ []

two_calls-Stuck : Stuck (run (0 ∷ 1 ∷ []) free two_calls).0 (run (0 ∷ 1 ∷ []) free two_calls).1
unfolding run step_at advance
two_calls-Stuck = (refl, (refl, tt))

run-Stuck_example :
    let (m, qs) = run (0 ∷ 1 ∷ []) free two_calls in
    All (λ p. p ≡ returned) qs ⊎ ((m.writer ≡ true) × SomeAsks qs)
run-Stuck_example = run-Stuck (0 ∷ 1 ∷ []) two_calls (refl, (refl, tt)) two_calls-Stuck

-- The Unseal has sent a key before the Close begins, and asks before the next one.
one_key_sent :
    run (0 ∷ 0 ∷ []) free (unseal_called (submit ∷ ask ∷ submit ∷ []) ∷ close_called ∷ [])
    ≡ (record free { readers = 1 }, unsealing (ask ∷ submit ∷ []) ∷ close_called ∷ [])
unfolding run step_at advance
one_key_sent = refl

unseal_close_deadlock_example :
    Deadlocked
      (run
        (1 ∷ 0 ∷ 1 ∷ 0 ∷ [])
        (record free { readers = 1 })
        (unsealing (ask ∷ submit ∷ []) ∷ close_called ∷ [])).1
unseal_close_deadlock_example =
    unseal_close_deadlock (0 ∷ 0 ∷ []) (0 ∷ 1 ∷ 0 ∷ []) (submit ∷ ask ∷ submit ∷ [])
      (record free { readers = 1 }) (unsealing (ask ∷ submit ∷ [])) one_key_sent tt
