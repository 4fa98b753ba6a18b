-- ===== src/Client/Safety.antt =====
-- pkg/vault/strategy.go and pkg/vault/client.go: Unseal never dereferences a nil answer, and never
-- returns a nil answer without an error.
use vault_autounseal_operato.Prelude.{
  ℕ, zero, suc, ◌+◌, ◌<◌, ◌≡◌, refl, inl, inr, Bool, true, false, Option, none, some, List, [], ◌∷◌,
  length, length-take, take, ℤ, pos, negsuc, arith, Bool-cases, ltb_ℤ,
}
use vault_autounseal_operato.Prelude.Int.{◌≤ℤ◌, pos_part}
use vault_autounseal_operato.GoLib.Strings.{Bytes}
use vault_autounseal_operato.GoLib.Base64.{Decoded, decoded, corrupt, decode_string}
use vault_autounseal_operato.GoLib.Outcome.{Outcome, ok, err, panic}
use vault_autounseal_operato.Errors.{Err, nil}
use vault_autounseal_operato.Validator.Default.{KeyValidator, DefaultKeyValidator, as_key_validator}
use vault_autounseal_operato.Validator.Default.Sets.{validate_keys_iff, validate_keys-ne-panic}
use vault_autounseal_operato.Strategy
use vault_autounseal_operato.Strategy.Interface.{
  StatusCall, UnsealStrategy, default_strategy, parallel_strategy, retry_strategy,
}
use vault_autounseal_operato.Strategy.Policy.{RetryPolicy}
use vault_autounseal_operato.Strategy.Default.{
  Round, continue, stop, proceed, default_unseal, submit_keys, submit_keys_from, submit_round,
  submit_single_key, after_key, after_status, submit_sealed, keys_to_submit, record_attempt,
}
use vault_autounseal_operato.Strategy.Retry
use vault_autounseal_operato.Strategy.Retry.{
  Attempt, again, return, wait, after_error, after_base, attempt_once, retry_from, retry_unseal,
}
use vault_autounseal_operato.Strategy.World.{World, Ctx, SealStatus}
use vault_autounseal_operato.Client.Api.{Api, Reply, success, failure}
use vault_autounseal_operato.Client.Methods
use vault_autounseal_operato.Client.Methods.{
  Client, view, after_decode, submitted_of, get_seal_status, ask_status, status_of, no_unseal,
}
use vault_autounseal_operato.Client.Methods.Laws.{unseal-open, unseal-closed}

-- An answer, or an error.
abbrev pub Sound : Outcome Err (Option SealStatus) → Type 0
Sound (ok none) = ⊥
Sound (ok (some st)) = Unit
Sound (err e) = Unit
Sound panic = ⊥

-- What the interface promises of a validator here: it returns, and accepts only thresholds from 1 to
-- the number of keys.
pub record IsSane (v : KeyValidator) : Type 0 where
  pub returns : (keys : List Bytes) (t : ℤ) → ¬ (v.validate_keys keys t ≡ panic)
  pub in_range :
      (keys : List Bytes) (t : ℤ)
      → v.validate_keys keys t ≡ ok tt
      → (pos 1 ≤ℤ t) × (t ≤ℤ pos (length keys))

module _ {S : Type 0} (api : Api S) (c : Client S) (u : Ctx → List Bytes → ℤ → StatusCall S)
    (ctx : Ctx) where
  abbrev RoundSound : Round S → Type 0
  RoundSound (continue st w) = Unit
  RoundSound (stop o w) = Sound o

  reply_sound :
      (i : ℕ) (index : ℤ) (w : World S) (r : Reply SealStatus)
      → RoundSound (after_key i (submitted_of c api ctx index r, w))
  reply_sound i index w (success st) = ground arith
  reply_sound i index w (failure e) = tt

  key_sound :
      (i : ℕ) (k : Bytes) (w : World S) (d : Decoded)
      → RoundSound (after_key i (after_decode c api ctx k (pos (i + 1)) d w))
  key_sound i k w (corrupt j) = tt
  key_sound i k w (decoded bs) =
      reply_sound i (pos (i + 1)) _ (api.submit_key ctx k w.now w.server).reply

  round_sound :
      (i : ℕ) (k : Bytes) (w : World S) → RoundSound (submit_round ctx (view api c u) i k w)
  unfolding submit_round submit_single_key Methods.submit_single_key
  round_sound i k w = ground (arith, key_sound i k w (decode_string k))

  proceed-Sound :
      (f : SealStatus → World S → Outcome Err (Option SealStatus) × World S) (r : Round S)
      → RoundSound r
      → ((st : SealStatus) (w : World S) → Sound (f st w).0)
      → Sound (proceed f r).0
  proceed-Sound f (continue st w) h later = later st w
  proceed-Sound f (stop o w) h later = h

  from-Sound :
      (i : ℕ) (ks : List Bytes) (st : SealStatus) (w : World S)
      → Sound (submit_keys_from ctx (view api c u) i ks (some st) w).0
  unfolding submit_keys_from
  from-Sound i [] st w = tt
  from-Sound i (k ∷ ks) st w =
      proceed-Sound _ (submit_round ctx (view api c u) i k w) (round_sound i k w)
        (from-Sound (i + 1) ks)

  some_keys-Sound :
      (ks : List Bytes) (w : World S)
      → 0 < length ks
      → Sound (submit_keys ctx (view api c u) ks w).0
  unfolding submit_keys submit_keys_from
  some_keys-Sound [] w h = absurd (omega arith)
  some_keys-Sound (k ∷ ks) w h =
      proceed-Sound _ (submit_round ctx (view api c u) 0 k w) (round_sound 0 k w) (from-Sound 1 ks)

  attempt-Sound :
      (m : Bool) (start : ℕ) (r : Outcome Err (Option SealStatus) × World S)
      → Sound r.0
      → Sound (record_attempt m start r).0
  attempt-Sound false start r h = h
  attempt-Sound true start (ok none, w) h = h
  attempt-Sound true start (ok (some st), w) h = h
  attempt-Sound true start (err e, w) h = h
  attempt-Sound true start (panic, w) h = h

  cut_sound :
      (keys : List Bytes) (t : ℤ)
      → pos 1 ≤ℤ t
      → t ≤ℤ pos (length keys)
      → (ks : List Bytes) × (keys_to_submit keys t ≡ ok ks) × (0 < length ks)
  cut_sound keys (pos n) low high = elim (Bool-cases (ltb_ℤ (pos n) (pos (length keys)))) [
    | inl cut ↦ (take n keys, rw cut refl, omega (arith, length-take n keys))
    | inr whole ↦ (keys, rw whole refl, ground arith)
  ]
  cut_sound keys (negsuc n) low high = absurd (ground arith)

  module _ (m : Bool) (keys : List Bytes) (t : ℤ) (low : pos 1 ≤ℤ t) (high : t ≤ℤ pos (length keys))
      (start : ℕ) where
    sealed-Sound : (w : World S) → Sound (submit_sealed m ctx (view api c u) keys t start w).0
    unfolding submit_sealed
    sealed-Sound w =
        let (ks, cut, some_key) = cut_sound keys t low high in
        rw (cut, submit_sealed)
          (attempt-Sound m start (submit_keys ctx (view api c u) ks w)
            (some_keys-Sound ks w some_key))

    status-Sound :
        (r : Outcome Err (Option SealStatus) × World S)
        → Sound r.0
        → Sound (after_status m ctx (view api c u) keys t start r).0
    unfolding after_status
    status-Sound (ok none, w) h = h
    status-Sound (ok (some st), w) h = elim (Bool-cases st.sealed) [
      | inl e ↦ simp e (sealed-Sound w)
      | inr e ↦ simp e (attempt-Sound m start (ok (some st), w) tt)
    ]
    status-Sound (err e, w) h = tt
    status-Sound (panic, w) h = h

  reply_status-Sound : (r : Reply SealStatus) → Sound (status_of c r)
  reply_status-Sound (success st) = tt
  reply_status-Sound (failure e) = tt

  get_seal_status-Sound : (w : World S) → Sound (get_seal_status c api ctx w).0
  unfolding get_seal_status ask_status
  get_seal_status-Sound w =
      ground (arith, reply_status-Sound (api.seal_status ctx w.now w.server).reply)

  default-Sound :
      (v : KeyValidator)
      → IsSane v
      → (m : Bool) (keys : List Bytes) (t : ℤ) (w : World S)
      → Sound (default_unseal v m ctx (view api c u) keys t w).0
  unfolding default_unseal
  default-Sound v sane m keys t w = go (v.validate_keys keys t) refl
    where
      go :
          (o : Outcome Err (Unit {0}))
          → v.validate_keys keys t ≡ o
          → Sound (default_unseal v m ctx (view api c u) keys t w).0
      go (ok a) e =
          let (low, high) = sane.in_range keys t e in
          rw (e, default_unseal)
            (status-Sound m keys t low high w.now (get_seal_status c api ctx w)
              (get_seal_status-Sound w))
      go (err x) e = rw (e, default_unseal) tt
      go panic e = absurd (sane.returns keys t e)

module _ {S : Type 0} (base : World S → Outcome Err (Option SealStatus) × World S)
    (policy : RetryPolicy) (ctx : Ctx) where
  abbrev AttemptSound : Attempt S → Type 0
  AttemptSound (again e w) = Unit
  AttemptSound (return o w) = Sound o

  error_sound : (a : ℕ) (e : Err) (w : World S) → AttemptSound (after_error base policy ctx a e w)
  unfolding after_error wait
  error_sound a e w = ground arith

  base-Sound :
      (a : ℕ) (r : Outcome Err (Option SealStatus) × World S)
      → Sound r.0
      → AttemptSound (after_base base policy ctx a r)
  base-Sound a (ok st, w) h = h
  base-Sound a (err e, w) h = error_sound a e w
  base-Sound a (panic, w) h = h

  module _ (sound : (w : World S) → Sound (base w).0) where
    once_sound : (a : ℕ) (w : World S) → AttemptSound (attempt_once base policy ctx a w)
    unfolding attempt_once
    once_sound a w = ground (arith, base-Sound a (base w) (sound w))

    next-Sound :
        (f : Err → World S → Outcome Err (Option SealStatus) × World S) (o : Attempt S)
        → AttemptSound o
        → ((e : Err) (w : World S) → Sound (f e w).0)
        → Sound (Retry.proceed f o).0
    next-Sound f (again e w) h later = later e w
    next-Sound f (return o w) h later = h

    retry-Sound :
        (n a : ℕ) (last : Err) (w : World S) → Sound (retry_from base policy ctx n a last w).0
    unfolding retry_from
    retry-Sound zero a last w = tt
    retry-Sound (suc n) a last w =
        next-Sound _ (attempt_once base policy ctx a w) (once_sound a w) (retry-Sound n (a + 1))

-- The strategies that end in a default one with a sane validator.
unfoldable pub SaneStrategy : {S : Type 0} → UnsealStrategy S → Type 0
SaneStrategy (default_strategy v m) = IsSane v
SaneStrategy (parallel_strategy base n) = SaneStrategy base
SaneStrategy (retry_strategy base policy) = SaneStrategy base

strategy-Sound :
    {S : Type 0} (api : Api S) (c : Client S) (u : Ctx → List Bytes → ℤ → StatusCall S) (ctx : Ctx)
    (s : UnsealStrategy S) (keys : List Bytes) (t : ℤ)
    → SaneStrategy s
    → (w : World S) → Sound (Strategy.unseal s ctx (view api c u) keys t w).0
unfolding Strategy.unseal SaneStrategy retry_unseal
strategy-Sound api c u ctx (default_strategy v m) keys t sane w =
    default-Sound api c u ctx v sane m keys t w
strategy-Sound api c u ctx (parallel_strategy base n) keys t sane w =
    strategy-Sound api c u ctx base keys t sane w
strategy-Sound api c u ctx (retry_strategy base policy) keys t sane w =
    retry-Sound (λ v. Strategy.unseal base ctx (view api c u) keys t v) policy ctx
      (strategy-Sound api c u ctx base keys t sane) (pos_part policy.max_attempts) 0 nil w

-- Unseal of a client whose strategy ends in a default one with a sane validator returns: with a status,
-- or with an error. It neither panics, nor does it return nil for both, whatever the server, the keys,
-- the threshold and the context are.
pub unseal-Sound :
    {S : Type 0} (api : Api S) (c : Client S) (ctx : Ctx) (keys : List Bytes) (t : ℤ) (w : World S)
    → SaneStrategy c.strategy
    → Sound (Methods.unseal api c ctx keys t w).0
unseal-Sound api c ctx keys t w sane = elim (Bool-cases c.closed) [
  | inl e ↦ rw (unseal-closed api c ctx keys t w e) tt
  | inr e ↦
      rw (unseal-open api c ctx keys t w e)
        (strategy-Sound api c (no_unseal api) ctx c.strategy keys t sane w)
]

-- The default validator is sane.
pub as_key_validator-IsSane :
    (unicode_lower : Bytes → Bytes) (d : DefaultKeyValidator)
    → IsSane (as_key_validator unicode_lower d)
as_key_validator-IsSane unicode_lower d = record {
  returns = validate_keys-ne-panic unicode_lower d;
  in_range = λ keys t h.
      let (low, high, _, _) = (validate_keys_iff unicode_lower d keys t).0 h in (low, high);
}
