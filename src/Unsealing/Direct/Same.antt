-- ===== src/Unsealing/Direct/Same.antt =====
-- pkg/unsealing/client/client.go: unsealing without a strategy against the default strategy.
use vault_autounseal_operato.Prelude.{
  ℕ, ◌+◌, ◌≡◌, refl, true, false, Option, none, some, List, [], ◌∷◌, ℤ, pos, arith, Bool-cases, inl,
  inr,
}
use vault_autounseal_operato.GoLib.Strings.{Bytes}
use vault_autounseal_operato.GoLib.Outcome.{Outcome, ok, err, panic}
use vault_autounseal_operato.Errors.{Err}
use vault_autounseal_operato.Validator.Default.{KeyValidator}
use vault_autounseal_operato.Strategy.World.{World, Ctx, SealStatus}
use vault_autounseal_operato.Strategy.Interface.{StatusCall}
use vault_autounseal_operato.Strategy.Default.{
  Round, continue, stop, proceed, keys_to_submit, submit_single_key, submit_round, submit_keys_from,
  submit_keys, submit_sealed, after_status, after_key, default_unseal,
}
use vault_autounseal_operato.Client.Api.{Api, success}
use vault_autounseal_operato.Client.Methods
use vault_autounseal_operato.Client.Methods.{Client, get_seal_status, ask_status, view}
use vault_autounseal_operato.Unsealing.Direct.{
  DirectClient, unseal, after_direct_key, direct_round, submit_direct, after_direct_status,
  unseal_direct,
}

-- The same end: the same status, an error of whatever text, or a panic.
abbrev pub AlikeStatus : Outcome Err (Option SealStatus) → Outcome Err (Option SealStatus) → Type 0
AlikeStatus (ok a) (ok b) = a ≡ b
AlikeStatus (err e) (err f) = Unit
AlikeStatus panic panic = Unit
AlikeStatus _ _ = ⊥

module _ {S : Type 0} where
  abbrev pub AlikeResult :
      Outcome Err (Option SealStatus) × World S → Outcome Err (Option SealStatus) × World S → Type 0
  AlikeResult l r = AlikeStatus l.0 r.0 × (l.1 ≡ r.1)

  abbrev AlikeRound : Round S → Round S → Type 0
  AlikeRound (continue s v) (continue t w) = (s ≡ t) × (v ≡ w)
  AlikeRound (stop o v) (stop q w) = AlikeStatus o q × (v ≡ w)
  AlikeRound _ _ = ⊥

  module _ (api : Api S) (c : Client S) (u : Ctx → List Bytes → ℤ → StatusCall S) (ctx : Ctx) where
    key-AlikeRound :
        (i : ℕ) (r : Outcome Err (Option SealStatus) × World S)
        → AlikeRound (after_direct_key api c ctx r) (after_key i r)
    key-AlikeRound i (ok none, w) = (tt, refl)
    key-AlikeRound i (ok (some st), w) = elim (Bool-cases st.sealed) [
      | inl e ↦ rw e (refl, refl)
      | inr e ↦ rw e (refl, refl)
    ]
    key-AlikeRound i (err e, w) = (tt, refl)
    key-AlikeRound i (panic, w) = (tt, refl)

    round-AlikeRound :
        (i : ℕ) (k : Bytes) (w : World S)
        → AlikeRound (direct_round api c ctx i k w) (submit_round ctx (view api c u) i k w)
    unfolding direct_round submit_round submit_single_key
    round-AlikeRound i k w =
        ground (arith, key-AlikeRound i (Methods.submit_single_key c api ctx k (pos (i + 1)) w))

    proceed-AlikeResult :
        (f g : SealStatus → World S → Outcome Err (Option SealStatus) × World S) (l r : Round S)
        → AlikeRound l r
        → ((st : SealStatus) (w : World S) → AlikeResult (f st w) (g st w))
        → AlikeResult (proceed f l) (proceed g r)
    proceed-AlikeResult f g (continue s v) (continue t w) (e, d) next = rw (e, d) (next t w)
    proceed-AlikeResult f g (stop o v) (stop q w) a next = a
    proceed-AlikeResult f g (continue s v) (stop q w) a next = elim a [ ]
    proceed-AlikeResult f g (stop o v) (continue t w) a next = elim a [ ]

    submit-AlikeResult :
        (i : ℕ) (ks : List Bytes) (last : Option SealStatus) (w : World S)
        → AlikeResult
            (submit_direct api c ctx i ks last w)
            (submit_keys_from ctx (view api c u) i ks last w)
    unfolding submit_direct submit_keys_from
    submit-AlikeResult i [] last w = (refl, refl)
    submit-AlikeResult i (k ∷ ks) last w =
        proceed-AlikeResult (λ st w'. submit_direct api c ctx (i + 1) ks (some st) w')
          (λ st w'. submit_keys_from ctx (view api c u) (i + 1) ks (some st) w')
          (direct_round api c ctx i k w) (submit_round ctx (view api c u) i k w)
          (round-AlikeRound i k w) (λ st w'. submit-AlikeResult (i + 1) ks (some st) w')

    module _ (v : KeyValidator) (keys : List Bytes) (t : ℤ) where
      chosen-AlikeResult :
          (o : Outcome Err (List Bytes)) (w : World S)
          → AlikeResult
              (elim o [
                | ok ks ↦ submit_direct api c ctx 0 ks none w
                | err e ↦ (err e, w)
                | panic ↦ (panic, w)
              ])
              (elim o [
                | ok ks ↦ submit_keys ctx (view api c u) ks w
                | err e ↦ (err e, w)
                | panic ↦ (panic, w)
              ])
      unfolding submit_keys
      chosen-AlikeResult (ok ks) w = submit-AlikeResult 0 ks none w
      chosen-AlikeResult (err e) w = (tt, refl)
      chosen-AlikeResult panic w = (tt, refl)

      status-AlikeResult :
          (start : ℕ) (r : Outcome Err (Option SealStatus) × World S)
          → AlikeResult
              (after_direct_status api c ctx keys t r)
              (after_status false ctx (view api c u) keys t start r)
      unfolding after_status submit_sealed
      status-AlikeResult start (ok none, w) = (tt, refl)
      status-AlikeResult start (ok (some st), w) = elim (Bool-cases st.sealed) [
        | inl e ↦ rw e (chosen-AlikeResult (keys_to_submit keys t) w)
        | inr e ↦ rw e (refl, refl)
      ]
      status-AlikeResult start (err e, w) = (tt, refl)
      status-AlikeResult start (panic, w) = (tt, refl)

      direct-AlikeResult :
          (w : World S)
          → v.validate_keys keys t ≡ ok tt
          → AlikeResult
              (unseal_direct api c ctx keys t w)
              (default_unseal v false ctx (view api c u) keys t w)
      unfolding unseal_direct default_unseal
      direct-AlikeResult w valid =
          rw (valid, default_unseal) (status-AlikeResult w.now (get_seal_status c api ctx w))

    direct_nil :
        (n : ℕ) (w : World S) (st : SealStatus)
        → c.closed ≡ false
        → (api.seal_status ctx w.now w.server).reply ≡ success st
        → st.sealed ≡ true
        → (unseal_direct api c ctx [] (pos n) w).0 ≡ ok none
    unfolding unseal_direct get_seal_status submit_direct ask_status
    direct_nil n w st live reply sealed = ground arith

module _ {S : Type 0} (api : Api S) (c : DirectClient S) (ctx : Ctx) (live : c.base.closed ≡ false)
    (bare : c.own_strategy ≡ none) where
  pub unseal_bare :
      (keys : List Bytes) (t : ℤ) (w : World S)
      → unseal api c ctx keys t w ≡ unseal_direct api c.base ctx keys t w
  unfolding unseal
  unseal_bare keys t w = rw (live, bare) refl

  -- For keys that a validator accepts, an open client without a strategy unseals as the default strategy
  -- with this validator and without metrics does, but for the texts of errors: it ends with the same
  -- status, an error or a panic, after the same requests and at the same time.
  pub unseal-AlikeResult :
      (u : Ctx → List Bytes → ℤ → StatusCall S) (v : KeyValidator) (keys : List Bytes) (t : ℤ)
      (w : World S)
      → v.validate_keys keys t ≡ ok tt
      → AlikeResult
          (unseal api c ctx keys t w)
          (default_unseal v false ctx (view api c.base u) keys t w)
  unseal-AlikeResult u v keys t w valid =
      rw (unseal_bare keys t w) (direct-AlikeResult api c.base u ctx v keys t w valid)

  -- Without a strategy nothing validates the keys: for a sealed server and no keys, Unseal of an open
  -- client returns neither a status nor an error, for any threshold that is not negative.
  pub unseal_nil :
      (n : ℕ) (w : World S) (st : SealStatus)
      → (api.seal_status ctx w.now w.server).reply ≡ success st
      → st.sealed ≡ true
      → (unseal api c ctx [] (pos n) w).0 ≡ ok none
  unseal_nil n w st reply sealed =
      rw (unseal_bare [] (pos n) w)
        (direct_nil api c.base (λ x keys t v. (panic, v)) ctx n w st live reply sealed)
