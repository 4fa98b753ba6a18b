-- ===== src/Client/Submission.antt =====
-- pkg/vault/strategy.go and pkg/vault/client.go together: which keys leave the process when a client
-- is unsealed.
pub mod Budget
use vault_autounseal_operato.Prelude.{
  ℕ, suc, ◌+◌, ◌*◌, ◌≤◌, ◌≡◌, refl, ap, ◌∙◌, ◌⊎◌, inl, inr, Bool, true, false, Option, none, some,
  List, [], ◌∷◌, length, length-take, take, take-take, ℤ, pos, negsuc, arith, Bool-cases, ltb_ℤ,
}
use vault_autounseal_operato.Prelude.Int.{pos_part}
use vault_autounseal_operato.GoLib.Strings.{Bytes}
use vault_autounseal_operato.GoLib.Base64.{Decoded, decoded, corrupt, decode_string}
use vault_autounseal_operato.GoLib.Outcome.{Outcome, ok, err, panic}
use vault_autounseal_operato.Errors.{Err}
use vault_autounseal_operato.Validator.Default.{KeyValidator}
use vault_autounseal_operato.Strategy.Interface.{StatusCall}
use vault_autounseal_operato.Strategy.Default.{
  Round, continue, stop, proceed, default_unseal, submit_keys, submit_keys_from, submit_round,
  submit_single_key, after_key, after_status, submit_sealed, keys_to_submit, record_attempt,
}
use vault_autounseal_operato.Strategy.World.{
  World, Ctx, SealStatus, Event, asked_seal_status, sent_key, asked_init_status, asked_health,
  unseal_attempt, seal_status_check, health_check, cleared_token,
}
use vault_autounseal_operato.Client.Api.{Api, Reply, success, failure}
use vault_autounseal_operato.Client.Methods
use vault_autounseal_operato.Client.Methods.{
  Client, view, after_decode, submitted_of, get_seal_status,
}

-- The keys that a trace shows, the newest first.
pub keys_sent : List Event → List Bytes
keys_sent [] = []
keys_sent (sent_key k ∷ es) = k ∷ keys_sent es
keys_sent (asked_seal_status ∷ es) = keys_sent es
keys_sent (asked_init_status ∷ es) = keys_sent es
keys_sent (asked_health ∷ es) = keys_sent es
keys_sent (unseal_attempt a b d ∷ es) = keys_sent es
keys_sent (seal_status_check a b d ∷ es) = keys_sent es
keys_sent (health_check a b d ∷ es) = keys_sent es
keys_sent (cleared_token ∷ es) = keys_sent es

-- The keys of a list, sent in their order, on top of those sent before.
abbrev pub then_sent : List Bytes → List Bytes → List Bytes
then_sent [] before = before
then_sent (k ∷ ks) before = then_sent ks (k ∷ before)

-- An outcome at which the loop stops early: an unsealed answer, or an error.
abbrev pub Stops : Outcome Err (Option SealStatus) → Type 0
Stops (ok none) = ⊥
Stops (ok (some st)) = st.sealed ≡ false
Stops (err e) = Unit
Stops panic = ⊥

module _ {S : Type 0} (api : Api S) (c : Client S) (u : Ctx → List Bytes → ℤ → StatusCall S)
    (ctx : Ctx) where
  abbrev sent : World S → List Bytes
  sent w = keys_sent w.trace

  abbrev SendsOne : World S → Bytes → Round S → Type 0
  SendsOne w k (continue st w') = (st.sealed ≡ true) × (sent w' ≡ k ∷ sent w)
  SendsOne w k (stop o w') = Stops o × ((sent w' ≡ sent w) ⊎ (sent w' ≡ k ∷ sent w))

  reply-SendsOne :
      (i : ℕ) (index : ℤ) (k : Bytes) (w w' : World S) (r : Reply SealStatus)
      → sent w' ≡ k ∷ sent w
      → SendsOne w k (after_key i (submitted_of c api ctx index r, w'))
  reply-SendsOne i index k w w' (success st) h = elim (Bool-cases st.sealed) [
    | inl e ↦ rw e (refl, h)
    | inr e ↦ rw e (refl, inr h)
  ]
  reply-SendsOne i index k w w' (failure e) h = (tt, inr h)

  key-SendsOne :
      (i : ℕ) (k : Bytes) (w : World S) (d : Decoded)
      → SendsOne w k (after_key i (after_decode c api ctx k (pos (i + 1)) d w))
  unfolding keys_sent
  key-SendsOne i k w (corrupt j) = (tt, inl refl)
  key-SendsOne i k w (decoded bs) =
      reply-SendsOne i (pos (i + 1)) k w _ (api.submit_key ctx k w.now w.server).reply refl

  round-SendsOne :
      (i : ℕ) (k : Bytes) (w : World S) → SendsOne w k (submit_round ctx (view api c u) i k w)
  unfolding submit_round submit_single_key Methods.submit_single_key
  round-SendsOne i k w = ground (arith, key-SendsOne i k w (decode_string k))

  -- `n` keys of the list are sent, in order, and the loop ends early only at an unsealed answer or an
  -- error.
  abbrev pub Submitted : List Bytes → World S → Outcome Err (Option SealStatus) × World S → Type 0
  Submitted ks w r =
      (n : ℕ) × (n ≤ length ks)
      × (sent r.1 ≡ then_sent (take n ks) (sent w))
      × (Stops r.0 ⊎ (n ≡ length ks))

  proceed-Submitted :
      (i : ℕ) (k : Bytes) (ks : List Bytes) (w : World S) (r : Round S)
      → SendsOne w k r
      → ((st : SealStatus) (w' : World S)
          → Submitted ks w' (submit_keys_from ctx (view api c u) (i + 1) ks (some st) w'))
      → Submitted
          (k ∷ ks)
          w
          (proceed (λ st w'. submit_keys_from ctx (view api c u) (i + 1) ks (some st) w') r)
  proceed-Submitted i k ks w (continue st w') (sealed, one) ih =
      let (n, le, all, end) = ih st w' in
      (
        suc n,
        omega arith,
        all ∙ ap (then_sent (take n ks)) one,
        elim end [ inl early ↦ inl early | inr whole ↦ inr (omega arith) ],
      )
  proceed-Submitted i k ks w (stop o w') (early, inl none_sent) ih =
      (0, omega arith, none_sent, inl early)
  proceed-Submitted i k ks w (stop o w') (early, inr one) ih = (1, omega arith, one, inl early)

  -- The loop over the keys submits them in their order, each once, from the first on; it ends before the
  -- last one only at an unsealed answer or at an error.
  pub submit_keys_from-Submitted :
      (i : ℕ) (ks : List Bytes) (last : Option SealStatus) (w : World S)
      → Submitted ks w (submit_keys_from ctx (view api c u) i ks last w)
  unfolding submit_keys_from
  submit_keys_from-Submitted i [] last w = (0, omega arith, refl, inr refl)
  submit_keys_from-Submitted i (k ∷ ks) last w =
      proceed-Submitted i k ks w (submit_round ctx (view api c u) i k w) (round-SendsOne i k w)
        (λ st w'. submit_keys_from-Submitted (i + 1) ks (some st) w')

  -- No key is sent, or the first `n` of the keys, which are at most `t`.
  abbrev pub FirstKeys : List Bytes → ℕ → World S → World S → Type 0
  FirstKeys keys t w w' =
      (n : ℕ) × (n ≤ t) × (n ≤ length keys) × (sent w' ≡ then_sent (take n keys) (sent w))

  record_attempt-sent :
      (m : Bool) (start : ℕ) (r : Outcome Err (Option SealStatus) × World S)
      → sent (record_attempt m start r).1 ≡ sent r.1
  unfolding keys_sent
  record_attempt-sent false start r = refl
  record_attempt-sent true start (ok none, w) = refl
  record_attempt-sent true start (ok (some st), w) = refl
  record_attempt-sent true start (err e, w) = refl
  record_attempt-sent true start (panic, w) = refl

  get_seal_status-sent : (w : World S) → sent (get_seal_status c api ctx w).1 ≡ sent w
  unfolding get_seal_status keys_sent
  get_seal_status-sent w = ground arith

  keys_to_submit-pos :
      (keys : List Bytes) (t : ℕ)
      → (ks : List Bytes) × (keys_to_submit keys (pos t) ≡ ok ks)
        × (length ks ≤ t)
        × (length ks ≤ length keys)
        × ((n : ℕ) → n ≤ length ks → take n ks ≡ take n keys)
  keys_to_submit-pos keys t = elim (Bool-cases (ltb_ℤ (pos t) (pos (length keys)))) [
    | inl cut ↦ (
      take t keys,
      rw cut refl,
      omega (arith, length-take t keys),
      omega (arith, length-take t keys),
      λ n le. take-take n t keys (omega (arith, length-take t keys)),
    )
    | inr whole ↦ (keys, rw whole refl, ground arith, omega arith, λ n le. refl)
  ]

  negative_threshold : (keys : List Bytes) (k : ℕ) → keys_to_submit keys (negsuc k) ≡ panic
  negative_threshold keys k = ground arith

  nothing : (keys : List Bytes) (t : ℕ) (w w' : World S) → sent w' ≡ sent w → FirstKeys keys t w w'
  nothing keys t w w' h = (0, omega arith, omega arith, h)

  submit_sealed-FirstKeys :
      (m : Bool) (keys : List Bytes) (t : ℤ) (start : ℕ) (w : World S)
      → FirstKeys keys (pos_part t) w (submit_sealed m ctx (view api c u) keys t start w).1
  unfolding submit_sealed submit_keys
  submit_sealed-FirstKeys m keys (negsuc k) start w =
      rw (negative_threshold keys k, submit_sealed) (nothing keys 0 w w refl)
  submit_sealed-FirstKeys m keys (pos t) start w =
      let (ks, cut, short, within, same) = keys_to_submit-pos keys t in
      let (n, le, all, _) = submit_keys_from-Submitted 0 ks none w in
      rw (cut, submit_sealed)
        (
          n,
          omega arith,
          omega arith,
          record_attempt-sent m start (submit_keys_from ctx (view api c u) 0 ks none w)
              ∙ all
              ∙ ap (λ js. then_sent js (sent w)) (same n le),
        )

  after_status-FirstKeys :
      (m : Bool) (keys : List Bytes) (t : ℤ) (start : ℕ)
      (r : Outcome Err (Option SealStatus) × World S)
      → FirstKeys keys (pos_part t) r.1 (after_status m ctx (view api c u) keys t start r).1
  unfolding after_status
  after_status-FirstKeys m keys t start (ok none, w) = nothing keys (pos_part t) w w refl
  after_status-FirstKeys m keys t start (ok (some st), w) = elim (Bool-cases st.sealed) [
    | inl e ↦ simp e (submit_sealed-FirstKeys m keys t start w)
    | inr e ↦ simp e (
        nothing keys (pos_part t) w (record_attempt m start (ok (some st), w)).1
          (record_attempt-sent m start (ok (some st), w)))
  ]
  after_status-FirstKeys m keys t start (err e, w) = nothing keys (pos_part t) w w refl
  after_status-FirstKeys m keys t start (panic, w) = nothing keys (pos_part t) w w refl

  -- One run of the default strategy on a client sends the first keys of the list in their order, each
  -- once, and no more than the threshold says (none if it is negative); whatever the validator, the
  -- server and the context do.
  pub default_unseal-FirstKeys :
      (validator : KeyValidator) (m : Bool) (keys : List Bytes) (t : ℤ) (w : World S)
      → FirstKeys keys (pos_part t) w (default_unseal validator m ctx (view api c u) keys t w).1
  unfolding default_unseal
  default_unseal-FirstKeys validator m keys t w = go (validator.validate_keys keys t) refl
    where
      go :
          (o : Outcome Err (Unit {0}))
          → validator.validate_keys keys t ≡ o
          → FirstKeys keys (pos_part t) w (default_unseal validator m ctx (view api c u) keys t w).1
      go (ok a) e =
          let (n, le, within, all) =
            after_status-FirstKeys m keys t w.now (get_seal_status c api ctx w) in
          rw (e, default_unseal)
            (n, le, within, all ∙ ap (then_sent (take n keys)) (get_seal_status-sent w))
      go (err x) e = rw (e, default_unseal) (nothing keys (pos_part t) w w refl)
      go panic e = rw (e, default_unseal) (nothing keys (pos_part t) w w refl)
