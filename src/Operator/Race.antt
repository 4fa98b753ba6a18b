-- ===== src/Operator/Race.antt =====
-- pkg/operator/controller/controller/vaultunsealconfig_controller.go: processVaultInstance looks its client
-- up under the read lock, makes one outside of any lock, and writes it under the write lock, without a
-- second look. Here several such calls run at once; each of the two locks is held for one step.
use vault_autounseal_operato.Prelude.{
  ℕ, suc, ◌+◌, ◌≤◌, ◌≡◌, ◌≢◌, refl, ap, sym, ◌∙◌, false, Option, none, some, List, [], ◌∷◌, ◌==◌,
  ==_iff, arith, Bool-cases, inl, inr,
}
use vault_autounseal_operato.GoLib.Strings.{Bytes}
use vault_autounseal_operato.GoLib.Outcome.{Outcome, ok, err, panic}
use vault_autounseal_operato.Errors.{Err}
use vault_autounseal_operato.Client.Methods.{Client}
use vault_autounseal_operato.Controller.Repository.{Clients, find_client}
use vault_autounseal_operato.Controller.Repository.Interleaving.{update}
use vault_autounseal_operato.Operator.{put_client}

-- Before the look; before NewClient; with a new client before the write; with the client it works on;
-- back with the error of NewClient; or ended by its panic.
pub data Progress (S : Type 0) : Type 0 where
  called : Progress S
  missed : Progress S
  holding : Client S → Progress S
  working : Client S → Progress S
  refused : Err → Progress S
  panicked : Progress S

pub record Calls (S : Type 0) : Type 0 where
  pub cache : Clients S
  pub made : ℕ
  pub progress : ℕ → Progress S

abbrev pub after_look : {S : Type 0} → Option (Client S) → Progress S
after_look (some c) = working c
after_look none = missed

abbrev pub after_new : {S : Type 0} → Outcome Err (Client S) → Progress S
after_new (ok c) = holding c
after_new (err e) = refused e
after_new panic = panicked

-- Each call is for one key; `makes n` is what NewClient returns at its call number `n`, and `made` counts
-- its calls.
module _ {S : Type 0} (key : Bytes) (makes : ℕ → Outcome Err (Client S)) where
  unfoldable pub advance : ℕ → Calls S → Progress S → Calls S
  advance i s called = record s {
    progress = update s.progress i (after_look (find_client key s.cache));
  }
  advance i s missed = record s {
    made = suc s.made;
    progress = update s.progress i (after_new (makes s.made));
  }
  advance i s (holding c) = record s {
    cache = put_client key c s.cache;
    progress = update s.progress i (working c);
  }
  advance i s (working c) = s
  advance i s (refused e) = s
  advance i s panicked = s

  unfoldable pub run : List ℕ → Calls S → Calls S
  unfolding advance
  run [] s = s
  run (i ∷ is) s = run is (advance i s (s.progress i))

abbrev pub all_called : {S : Type 0} → Clients S → Calls S
all_called cs = record { cache = cs; made = 0; progress = λ i. called }

-- Whether a call that has missed has called NewClient since.
abbrev made_by : {S : Type 0} → Progress S → ℕ
made_by called = 0
made_by missed = 0
made_by (holding c) = 1
made_by (working c) = 1
made_by (refused e) = 1
made_by panicked = 1

module _ {S : Type 0} (key : Bytes) (makes : ℕ → Outcome Err (Client S)) where
  -- The calls 0 and 1 have missed, and each that went on has made a call of NewClient.
  record BothMissed (s : Calls S) : Type 0 where
    first : s.progress 0 ≢ called
    second : s.progress 1 ≢ called
    counted : made_by (s.progress 0) + made_by (s.progress 1) ≤ s.made

  new_moves : (o : Outcome Err (Client S)) → (after_new o ≢ called) × (made_by (after_new o) ≡ 1)
  new_moves (ok c) = (λ h. ground (arith, h), refl)
  new_moves (err e) = (λ h. ground (arith, h), refl)
  new_moves panic = (λ h. ground (arith, h), refl)

  -- A turn of a call that is neither.
  other_turn :
      (i : ℕ) (s : Calls S) (cs : Clients S) (n : ℕ) (q : Progress S)
      → (i == 0) ≡ false
      → (i == 1) ≡ false
      → s.made ≤ n
      → BothMissed s
      → BothMissed (record { cache = cs; made = n; progress = update s.progress i q })
  other_turn i s cs n q e0 e1 more b = record {
    first = rw e0 b.first;
    second = rw e1 b.second;
    counted = rw (e0, e1) (omega (arith, b.counted, more));
  }

  -- The call 0 goes from `p` to `q`, or the call 1.
  first_turn :
      (s : Calls S) (cs : Clients S) (n : ℕ) (p q : Progress S)
      → s.progress 0 ≡ p
      → q ≢ called
      → made_by q + s.made ≤ made_by p + n
      → BothMissed s
      → BothMissed (record { cache = cs; made = n; progress = update s.progress 0 q })
  first_turn s cs n p q h new more b = record {
    first = new;
    second = b.second;
    counted = let same = ap made_by h in omega (arith, b.counted, more, same);
  }

  second_turn :
      (s : Calls S) (cs : Clients S) (n : ℕ) (p q : Progress S)
      → s.progress 1 ≡ p
      → q ≢ called
      → made_by q + s.made ≤ made_by p + n
      → BothMissed s
      → BothMissed (record { cache = cs; made = n; progress = update s.progress 1 q })
  second_turn s cs n p q h new more b = record {
    first = b.first;
    second = new;
    counted = let same = ap made_by h in omega (arith, b.counted, more, same);
  }

  turn :
      (i : ℕ) (s : Calls S) (cs : Clients S) (n : ℕ) (p q : Progress S)
      → s.progress i ≡ p
      → (p ≢ called → (q ≢ called) × (made_by q + s.made ≤ made_by p + n))
      → s.made ≤ n
      → BothMissed s
      → BothMissed (record { cache = cs; made = n; progress = update s.progress i q })
  turn i s cs n p q h goes most b = elim (Bool-cases (i == 0)) [
    | inl e ↦
        let z = (==_iff i 0).0 e in
        let here = ap s.progress (sym z) ∙ h in
        let (new, more) = goes (λ k. b.first (here ∙ k)) in
        rw z (first_turn s cs n p q here new more b)
    | inr e ↦ elim (Bool-cases (i == 1)) [
      | inl d ↦
          let z = (==_iff i 1).0 d in
          let here = ap s.progress (sym z) ∙ h in
          let (new, more) = goes (λ k. b.second (here ∙ k)) in
          rw z (second_turn s cs n p q here new more b)
      | inr d ↦ other_turn i s cs n q e d most b
    ]
  ]

  advance-BothMissed :
      (i : ℕ) (s : Calls S) (p : Progress S)
      → s.progress i ≡ p
      → BothMissed s
      → BothMissed (advance key makes i s p)
  unfolding advance
  advance-BothMissed i s called h b =
      turn i s s.cache s.made called (after_look (find_client key s.cache)) h (λ k. absurd (k refl))
        (omega arith) b
  advance-BothMissed i s missed h b =
      let (new, one) = new_moves (makes s.made) in
      turn i s s.cache (suc s.made) missed (after_new (makes s.made)) h
        (λ k. (new, omega (arith, one))) (omega arith) b
  advance-BothMissed i s (holding c) h b =
      turn i s (put_client key c s.cache) s.made (holding c) (working c) h
        (λ k. (λ j. ground (arith, j), omega arith)) (omega arith) b
  advance-BothMissed i s (working c) h b = b
  advance-BothMissed i s (refused e) h b = b
  advance-BothMissed i s panicked h b = b

  run-BothMissed : (is : List ℕ) (s : Calls S) → BothMissed s → BothMissed (run key makes is s)
  unfolding run
  run-BothMissed [] s b = b
  run-BothMissed (i ∷ is) s b =
      run-BothMissed is (advance key makes i s (s.progress i))
        (advance-BothMissed i s (s.progress i) refl b)

  one_made : (p : Progress S) → p ≢ called → p ≢ missed → made_by p ≡ 1
  one_made called h k = absurd (h refl)
  one_made missed h k = absurd (k refl)
  one_made (holding c) h k = refl
  one_made (working c) h k = refl
  one_made (refused e) h k = refl
  one_made panicked h k = refl

  both_looked :
      (cs : Clients S)
      → find_client key cs ≡ none
      → BothMissed (run key makes (0 ∷ 1 ∷ []) (all_called cs))
  unfolding run advance
  both_looked cs h = rw h (record {
    first = λ e. ground (arith, e);
    second = λ e. ground (arith, e);
    counted = omega arith;
  })

  -- Two calls for a key that the map does not have, and that both look before either goes on, make a
  -- client each: however these and any other calls for the key are scheduled from there on, and whatever
  -- NewClient returns, once neither of the two stands before its NewClient, this was called at least
  -- twice; also where one had written its client to the map before the other called NewClient.
  pub both_make :
      (is : List ℕ) (cs : Clients S)
      → find_client key cs ≡ none
      → let s = run key makes (0 ∷ 1 ∷ is) (all_called cs) in
        s.progress 0 ≢ missed → s.progress 1 ≢ missed → 2 ≤ s.made
  unfolding run
  both_make is cs h moved0 moved1 =
      let b = run-BothMissed is (run key makes (0 ∷ 1 ∷ []) (all_called cs)) (both_looked cs h) in
      let one = one_made _ b.first moved0 in
      let two = one_made _ b.second moved1 in omega (arith, b.counted, one, two)
