-- ===== src/Client/Methods.antt =====
-- pkg/vault/client.go: the methods of Client. The mutex is not in this sequential view.
pub mod Laws
use vault_autounseal_operato.Prelude.{
  ℕ, ◌-◌, Bool, true, false, Option, none, some, List, ℤ, if◌then◌else◌,
}
use vault_autounseal_operato.GoLib.Strings.{Bytes}
use vault_autounseal_operato.GoLib.Base64.{Decoded, decoded, corrupt, decode_string}
use vault_autounseal_operato.GoLib.Outcome.{Outcome, ok, err, panic}
use vault_autounseal_operato.Errors.{
  Err, Operation, nil, vault_error, validation_error, wrapped, formatted, text, field_key,
  client_closed, invalid_base64_key, failed_to_submit, is_sealed_op, seal_status_op,
  get_seal_status_op, unseal_op, unseal_key_submit, is_initialized_op, init_status_op,
  health_check_op,
}
use vault_autounseal_operato.Validator.Default.{KeyValidator}
use vault_autounseal_operato.Strategy
use vault_autounseal_operato.Strategy.World.{
  World, Ctx, SealStatus, Event, asked_seal_status, sent_key, asked_init_status, asked_health,
  seal_status_check, health_check, cleared_token, emit,
}
use vault_autounseal_operato.Strategy.Interface.{
  VaultClient, StatusCall, UnsealStrategy, client_type,
}
use vault_autounseal_operato.Client.Api.{
  Api, Answer, Reply, success, failure, HealthStatus, after_request,
}

pub record HttpClient : Type 0 where
  pub timeout : ℤ
  pub insecure_skip_verify : Bool

pub record Client (S : Type 0) : Type 0 where
  pub http_client : HttpClient
  pub url : Bytes
  pub timeout : ℤ
  pub validator : KeyValidator
  pub strategy : UnsealStrategy S
  pub has_metrics : Bool
  pub closed : Bool

abbrev pub is_success : {A : Type 0} → Reply A → Bool
is_success (success a) = true
is_success (failure e) = false

-- A metric is recorded if the client has metrics; `start` is the time before the request.
abbrev pub record_if : {S : Type 0} → Bool → (ℕ → Event) → ℕ → World S → World S
record_if true e start w = emit (e (w.now - start)) w
record_if false e start w = w

module _ {S : Type 0} (c : Client S) where
  -- NewVaultError(op, c.url, fmt.Errorf("client is closed"), false).
  abbrev pub closed_error : Operation → Err
  closed_error op = vault_error op c.url (formatted client_closed) false

  abbrev pub request_error : Operation → Err → Err
  request_error op e = vault_error op c.url e true

  abbrev pub sealed_of : Reply SealStatus → Bool × Err
  sealed_of (success st) = (st.sealed, nil)
  sealed_of (failure e) = (true, request_error seal_status_op e)

  abbrev pub status_of : Reply SealStatus → Outcome Err (Option SealStatus)
  status_of (success st) = ok (some st)
  status_of (failure e) = err (request_error seal_status_op e)

  module _ (api : Api S) (ctx : Ctx) where
    -- The request for the seal status with its metric.
    unfoldable pub ask_status : World S → Reply SealStatus × World S
    ask_status w =
        let a = api.seal_status ctx w.now w.server in
        (
          a.reply,
          record_if c.has_metrics (seal_status_check c.url (is_success a.reply)) w.now
              (after_request asked_seal_status a w),
        )

    unfoldable pub is_sealed : World S → (Bool × Err) × World S
    unfolding ask_status
    is_sealed w =
        if c.closed
        then ((true, closed_error is_sealed_op), w)
        else let (r, w') = ask_status w in (sealed_of r, w')

    unfoldable pub get_seal_status : StatusCall S
    unfolding ask_status
    get_seal_status w =
        if c.closed
        then (err (closed_error get_seal_status_op), w)
        else let (r, w') = ask_status w in (status_of r, w')

    abbrev pub submitted_of : ℤ → Reply SealStatus → Outcome Err (Option SealStatus)
    submitted_of index (success st) = ok (some st)
    submitted_of index (failure e) =
        err (request_error unseal_key_submit (wrapped (failed_to_submit index) e))

    abbrev pub after_decode : Bytes → ℤ → Decoded → StatusCall S
    after_decode key index (corrupt i) w =
        (err (validation_error field_key (text key) (invalid_base64_key index i)), w)
    after_decode key index (decoded bs) w =
        let a = api.submit_key ctx key w.now w.server in
        (submitted_of index a.reply, after_request (sent_key key) a w)

    -- SubmitSingleKey looks neither at `closed` nor at the mutex.
    unfoldable pub submit_single_key : Bytes → ℤ → StatusCall S
    submit_single_key key index w = after_decode key index (decode_string key) w

    abbrev pub initialized_of : Reply Bool → Bool × Err
    initialized_of (success b) = (b, nil)
    initialized_of (failure e) = (false, request_error init_status_op e)

    pub is_initialized : World S → (Bool × Err) × World S
    is_initialized w =
        if c.closed
        then ((false, closed_error is_initialized_op), w)
        else let a = api.init_status ctx w.now w.server in
          (initialized_of a.reply, after_request asked_init_status a w)

    abbrev pub health_of : Reply HealthStatus → Outcome Err HealthStatus
    health_of (success h) = ok h
    health_of (failure e) = err (request_error health_check_op e)

    pub check_health : World S → Outcome Err HealthStatus × World S
    check_health w =
        if c.closed
        then (err (closed_error health_check_op), w)
        else let a = api.health ctx w.now w.server in
          (
            health_of a.reply,
            record_if c.has_metrics (health_check c.url (is_success a.reply)) w.now
                (after_request asked_health a w),
          )

-- Close always returns nil.
unfoldable pub close : {S : Type 0} → Client S → World S → Client S × World S
close c w = if c.closed then (c, w) else (record c { closed = true }, emit cleared_token w)

module _ {S : Type 0} (api : Api S) where
  -- What a strategy sees of the client. The strategies of the repository submit keys to a *Client by
  -- SubmitSingleKey and never call its Unseal, which `Laws` proves; that method is left open here.
  abbrev pub view : Client S → (Ctx → List Bytes → ℤ → StatusCall S) → VaultClient S
  view c unseal_method = record {
    is_sealed = is_sealed c api;
    get_seal_status = get_seal_status c api;
    unseal = unseal_method;
    dynamic = client_type (submit_single_key c api);
  }

  -- The place of a method that is never called.
  pub no_unseal : Ctx → List Bytes → ℤ → StatusCall S
  no_unseal ctx keys threshold w = (panic, w)

  unfoldable pub unseal : Client S → Ctx → List Bytes → ℤ → StatusCall S
  unfolding no_unseal
  unseal c ctx keys threshold w =
      if c.closed
      then (err (closed_error c unseal_op), w)
      else Strategy.unseal c.strategy ctx (view c no_unseal) keys threshold w

  -- The client behind the interface VaultClient.
  abbrev pub as_vault_client : Client S → VaultClient S
  as_vault_client c = view c (unseal c)
