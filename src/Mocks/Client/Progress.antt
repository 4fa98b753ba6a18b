-- ===== src/Mocks/Client/Progress.antt =====
-- The mock client under the default strategy: the keys that it takes, and the progress that it shows.
use vault_autounseal_operato.Prelude.{
  ℕ, zero, suc, ◌+◌, ◌≤◌, ◌<◌, ◌≡◌, refl, ap, ◌∙◌, Bool, true, false, ◌||◌, Option, none, some,
  List, [], ◌∷◌, ◌++◌, length, length-append, length-take, take, take-take, ℤ, pos, negsuc, arith,
  leb_ℤ, ltb_ℤ, Bool-cases, if_false, inl, inr, if◌then◌else◌,
}
use mathlib.Core.List.{append_assoc}
use vault_autounseal_operato.GoLib.Strings.{Bytes, codes}
use vault_autounseal_operato.GoLib.Outcome.{Outcome, ok, err, panic}
use vault_autounseal_operato.Errors.{Err}
use vault_autounseal_operato.Validator.Default.{KeyValidator}
use vault_autounseal_operato.Strategy.World.{
  World, Ctx, SealStatus, sleep, clamp, is_done, closed_by,
}
use vault_autounseal_operato.Strategy.Default.{
  default_unseal, submit_keys_from, submit_round, submit_single_key, after_key, key_delay,
  record_attempt, after_status, submit_sealed, submit_keys, keys_to_submit,
}
use vault_autounseal_operato.Mocks.Client.{
  MockVaultClient, as_vault_client, unseal, unseal_answer, take_keys, status_answer, shown_progress,
  reset, is_zero, count_call, get_seal_status, answering,
}

shown_reset : (z : ℤ) → (if is_zero z || false then pos 0 else z) ≡ z
shown_reset (pos zero) = refl
shown_reset (pos (suc n)) = refl
shown_reset (negsuc n) = refl

-- GetSealStatus of a mock that was reset shows the progress that its response had before, and not 0.
pub status_answer-reset :
    (m : MockVaultClient)
    → (status_answer (reset m)).0 ≡ ok (some (record m.seal_status_resp { sealed = true }))
unfolding status_answer shown_progress reset
status_answer-reset m = rw (shown_reset m.seal_status_resp.progress) refl

-- A sealed mock that is short of `need` keys, and that does not fail.
pub record ShortOf (need : ℕ) (m : MockVaultClient) : Type 0 where
  pub is_locked : m.sealed ≡ true
  pub answers : m.fail_unseal ≡ false
  pub total : ℕ
  pub threshold : m.unseal_threshold ≡ pos total
  pub short : length m.submitted_keys + need ≡ total

not_enough : (total n : ℕ) → n < total → leb_ℤ (pos total) (pos n) ≡ false
not_enough total n h = ground arith

enough : (total n : ℕ) → total ≤ n → leb_ℤ (pos total) (pos n) ≡ true
enough total n h = ground arith

-- The answer to one key, of several that are missing, and of the last one.
takes_key :
    (need : ℕ) (k : Bytes) (m : MockVaultClient)
    → ShortOf (suc (suc need)) m
    → let out = unseal_answer (k ∷ []) m.unseal_threshold m in
      (st : SealStatus) × (out.0 ≡ ok (some st))
      × (st.sealed ≡ true)
      × ShortOf (suc need) out.1
      × (out.1.submitted_keys ≡ m.submitted_keys ++ k ∷ [])
unfolding unseal_answer take_keys
takes_key need k m s =
    let n = length-append m.submitted_keys (k ∷ []) in
    let e = not_enough s.total (length (m.submitted_keys ++ k ∷ [])) (omega (arith, n, s.short)) in
    rw (s.answers, s.threshold, e)
      (
        _,
        refl,
        s.is_locked,
        record {
          is_locked = s.is_locked;
          answers = refl;
          total = s.total;
          threshold = refl;
          short = omega (arith, n, s.short);
        },
        refl,
      )

takes_last_key :
    (k : Bytes) (m : MockVaultClient)
    → ShortOf 1 m
    → let out = unseal_answer (k ∷ []) m.unseal_threshold m in
      (st : SealStatus) × (out.0 ≡ ok (some st))
      × (st.sealed ≡ false)
      × (out.1.sealed ≡ false)
      × (out.1.submitted_keys ≡ m.submitted_keys ++ k ∷ [])
unfolding unseal_answer take_keys
takes_last_key k m s =
    let n = length-append m.submitted_keys (k ∷ []) in
    let e = enough s.total (length (m.submitted_keys ++ k ∷ [])) (omega (arith, n, s.short)) in
    rw (s.answers, s.threshold, e) (_, refl, refl, refl, refl)

abbrev waited : World MockVaultClient → ℕ
waited w =
    if ltb_ℤ (pos 0) w.server.response_delay then w.now + clamp w.server.response_delay else w.now

-- The keys that the strategy submits, where both bounds leave as many as are needed.
chosen_keys :
    (keys : List Bytes) (n need : ℕ)
    → need ≤ n
    → need ≤ length keys
    → (ks : List Bytes) × (keys_to_submit keys (pos n) ≡ ok ks)
      × (need ≤ length ks)
      × (take need ks ≡ take need keys)
chosen_keys keys n need hn hk = elim (Bool-cases (ltb_ℤ (pos n) (pos (length keys)))) [
  | inl q ↦ (take n keys, rw q refl, omega (arith, length-take n keys), take-take need n keys hn)
  | inr q ↦ (keys, rw q refl, hk, refl)
]

-- The mock is open, with as many keys of the list as it needed.
abbrev pub Opened :
    List Bytes
    → ℕ
    → World MockVaultClient
    → Outcome Err (Option SealStatus) × World MockVaultClient
    → Type 0
Opened keys need w out =
    (st : SealStatus) × (out.0 ≡ ok (some st))
    × (st.sealed ≡ false)
    × (out.1.server.sealed ≡ false)
    × (out.1.server.submitted_keys ≡ w.server.submitted_keys ++ take need keys)

module _ (ctx : Ctx) (endless : ctx.done_at ≡ none) where
  answering-endless :
      {A : Type 0} (name : Bytes) (given_up : A) (work : MockVaultClient → A × MockVaultClient)
      (w : World MockVaultClient)
      → let out = work (count_call name w.server) in
        answering name ctx given_up work w ≡ (out.0, record w { server = out.1; now = waited w })
  answering-endless name given_up work w =
      elim (Bool-cases (ltb_ℤ (pos 0) w.server.response_delay)) [
        | inl q ↦ rw (endless, q) refl
        | inr q ↦ rw (endless, q) refl
      ]

  -- The call is counted, and otherwise the mock is as before.
  ShortOf-count :
      {need : ℕ} (name : Bytes) (m : MockVaultClient)
      → ShortOf need m
      → ShortOf need (count_call name m)
  ShortOf-count name m s = record {
    is_locked = s.is_locked;
    answers = s.answers;
    total = s.total;
    threshold = s.threshold;
    short = s.short;
  }

  abbrev answer : Bytes → World MockVaultClient → Outcome Err (Option SealStatus) × MockVaultClient
  answer k w =
      unseal_answer (k ∷ []) w.server.unseal_threshold (count_call (codes "Unseal") w.server)

  abbrev answered : Bytes → World MockVaultClient → World MockVaultClient
  answered k w = record w { server = (answer k w).1; now = waited w }

  round-endless :
      (i : ℕ) (k : Bytes) (w : World MockVaultClient)
      → submit_round ctx as_vault_client i k w ≡ after_key i ((answer k w).0, answered k w)
  unfolding submit_round submit_single_key unseal
  round-endless i k w =
      if_false (is_done ctx w) _ _ (ap (λ d. closed_by d w.now) endless)
      ∙ ap (after_key i) (
          answering-endless (codes "Unseal") (err ctx.cause)
            (unseal_answer (k ∷ []) w.server.unseal_threshold) w)

  submit_keys_from-Opened :
      (i need : ℕ) (keys : List Bytes) (last : Option SealStatus) (w : World MockVaultClient)
      → ShortOf (suc need) w.server
      → suc need ≤ length keys
      → Opened keys (suc need) w (submit_keys_from ctx as_vault_client i keys last w)
  unfolding submit_keys_from
  submit_keys_from-Opened i need [] last w s h = absurd (omega arith)
  submit_keys_from-Opened i zero (k ∷ ks) last w s h =
      let (st, e, free, opened, taken) =
        takes_last_key k (count_call (codes "Unseal") w.server)
          (ShortOf-count (codes "Unseal") w.server s) in
      rw (round-endless i k w, e, free) (st, refl, free, opened, taken)
  submit_keys_from-Opened i (suc need) (k ∷ ks) last w s h =
      let (st, e, shut, short, taken) =
        takes_key need k (count_call (codes "Unseal") w.server)
          (ShortOf-count (codes "Unseal") w.server s) in
      let (st', e', free, opened, all) =
        submit_keys_from-Opened (i + 1) need ks (some st) (sleep key_delay (answered k w)) short
          (omega (arith, h)) in
      rw (round-endless i k w, e, shut)
        (st', e', free, opened, rw all (rw taken (append_assoc w.server.submitted_keys (k ∷ []) _)))

  record_attempt-Opened :
      (has_metrics : Bool) (start n need : ℕ) (keys : List Bytes) (w : World MockVaultClient)
      (out : Outcome Err (Option SealStatus) × World MockVaultClient)
      → Opened keys need w out
      → Opened keys need w (record_attempt has_metrics start out)
  record_attempt-Opened false start n need keys w out h = h
  record_attempt-Opened true start n need keys w (ok none, w') h = ground (arith, h.1)
  record_attempt-Opened true start n need keys w (ok (some s), w') h = h
  record_attempt-Opened true start n need keys w (err x, w') h = ground (arith, h.1)
  record_attempt-Opened true start n need keys w (panic, w') h = ground (arith, h.1)

  -- GetSealStatus of such a mock says that it is sealed, and changes nothing that matters here.
  asks_status :
      (need : ℕ) (m : MockVaultClient)
      → ShortOf need m
      → m.fail_seal_status ≡ false
      → (st : SealStatus) × ((status_answer m).0 ≡ ok (some st))
        × (st.sealed ≡ true)
        × ShortOf need (status_answer m).1
        × ((status_answer m).1.submitted_keys ≡ m.submitted_keys)
  unfolding status_answer
  asks_status need m s answers = rw answers (
    _,
    refl,
    s.is_locked,
    record {
      is_locked = s.is_locked;
      answers = s.answers;
      total = s.total;
      threshold = s.threshold;
      short = s.short;
    },
    refl,
  )

  -- The default strategy opens a sealed mock that does not fail: with a context that does not end, a
  -- validator that accepts the keys, and both the threshold and the number of keys at least what the
  -- mock is short of, it returns an unsealed status, the mock is unsealed, and it has taken the first
  -- keys that it was short of, and no more.
  pub default_unseal-Opened :
      (validator : KeyValidator) (has_metrics : Bool) (keys : List Bytes) (n need : ℕ)
      (w : World MockVaultClient)
      → validator.validate_keys keys (pos n) ≡ ok tt
      → ShortOf (suc need) w.server
      → w.server.fail_seal_status ≡ false
      → suc need ≤ n
      → suc need ≤ length keys
      → Opened keys
          (suc need)
          w
          (default_unseal validator has_metrics ctx as_vault_client keys (pos n) w)
  unfolding default_unseal after_status submit_sealed submit_keys get_seal_status
  default_unseal-Opened validator has_metrics keys n need w accepted s answers hn hk =
      let (st, e, shut, short, taken) =
        asks_status (suc need) (count_call (codes "GetSealStatus") w.server)
          (ShortOf-count (codes "GetSealStatus") w.server s) answers in
      let (ks, chosen, many, same) = chosen_keys keys n (suc need) hn hk in
      let w' = record w {
        server = (status_answer (count_call (codes "GetSealStatus") w.server)).1;
        now = waited w;
      } in
      let opened = submit_keys_from-Opened 0 need ks none w' short many in
      let runs : default_unseal validator has_metrics ctx as_vault_client keys (pos n) w
          ≡ record_attempt has_metrics w.now (submit_keys_from ctx as_vault_client 0 ks none w') =
        rw
          (
            accepted,
            default_unseal,
            answering-endless (codes "GetSealStatus") (err ctx.cause) status_answer w,
            after_status,
            e,
            shut,
            submit_sealed,
            chosen,
          )
          refl in
      let (st', e', free, unsealed, all) = opened in
      rw runs (
        record_attempt-Opened has_metrics w.now n (suc need) keys w _
          (st', e', free, unsealed, cc (all, taken, same)))
