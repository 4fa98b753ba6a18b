-- ===== src/Client/Config.antt =====
-- pkg/vault/client.go: the configuration of a client and its constructors.
pub mod Built
use vault_autounseal_operato.Prelude.{
  ℕ, Bool, false, not, ◌&&◌, Option, none, some, List, [], ◌∷◌, length, ◌==◌, ltb, ℤ, pos, ltb_ℤ,
  leb_ℤ, if◌then◌else◌,
}
use vault_autounseal_operato.GoLib.Strings.{Bytes, codes, has_prefix}
use vault_autounseal_operato.GoLib.Outcome.{Outcome, ok, ◌>>=◌, ◌>>◌, fail_if, map_err}
use vault_autounseal_operato.Errors.{
  Err, vault_error, validation_error, text, number, duration, field_url, field_timeout,
  field_max_retries, url_empty, url_scheme, url_too_long, timeout_too_small, retries_negative,
  tls_config, client_creation,
}
use vault_autounseal_operato.Validator.Default.{
  KeyValidator, new_default_key_validator, as_key_validator,
}
use vault_autounseal_operato.Strategy.Policy.{as_retry_policy}
use vault_autounseal_operato.Strategy.Interface.{UnsealStrategy, default_strategy, retry_strategy}
use vault_autounseal_operato.Client.Methods.{Client, HttpClient}

-- `validator`, `strategy` may be nil; of the metrics only that matters.
pub record ClientConfig (S : Type 0) : Type 0 where
  pub url : Bytes
  pub tls_skip_verify : Bool
  pub timeout : ℤ
  pub validator : Option KeyValidator
  pub strategy : Option (UnsealStrategy S)
  pub has_metrics : Bool
  pub max_retries : ℤ
  pub retry_delay : ℤ

abbrev pub millisecond : ℕ
millisecond = 1_000_000

abbrev pub default_timeout : ℤ
default_timeout = pos 30_000_000_000

-- The part of api.Config that the constructor sets.
pub record ApiConfig : Type 0 where
  pub address : Bytes
  pub timeout : ℤ
  pub http_client : HttpClient

-- The calls of the Vault package that may fail: ConfigureTLS with Insecure set, which changes the
-- configuration, and NewClient.
pub record ApiPackage : Type 0 where
  pub configure_tls : ApiConfig → Outcome Err ApiConfig
  pub new_client : ApiConfig → Outcome Err (Unit {0})
  pub default_http_client : HttpClient

-- Functional options.
abbrev pub ClientOption : Type 0 → Type 0
ClientOption S = ClientConfig S → ClientConfig S

module _ (unicode_lower : Bytes → Bytes) where
  abbrev pub default_validator : KeyValidator
  default_validator = as_key_validator unicode_lower new_default_key_validator

  abbrev pub or_default_validator : Option KeyValidator → KeyValidator
  or_default_validator none = default_validator
  or_default_validator (some v) = v

module _ {S : Type 0} where
  unfoldable pub validate_client_config : ClientConfig S → Outcome Err (Unit {0})
  validate_client_config c = do
    fail_if (length c.url == 0) (validation_error field_url (text c.url) url_empty)
    fail_if (not (has_prefix c.url (codes "http://")) && not (has_prefix c.url (codes "https://")))
        (validation_error field_url (text c.url) url_scheme)
    fail_if (ltb 2048 (length c.url)) (validation_error field_url (text c.url) url_too_long)
    fail_if (ltb_ℤ c.timeout (pos millisecond))
        (validation_error field_timeout (duration c.timeout) timeout_too_small)
    fail_if (ltb_ℤ c.max_retries (pos 0))
        (validation_error field_max_retries (number c.max_retries) retries_negative)

  abbrev pub with_timeout : ℤ → ClientOption S
  with_timeout t c = record c { timeout = t }

  abbrev pub with_tls_skip_verify : Bool → ClientOption S
  with_tls_skip_verify skip c = record c { tls_skip_verify = skip }

  abbrev pub with_validator : Option KeyValidator → ClientOption S
  with_validator v c = record c { validator = v }

  abbrev pub with_strategy : Option (UnsealStrategy S) → ClientOption S
  with_strategy s c = record c { strategy = s }

  abbrev pub with_metrics : Bool → ClientOption S
  with_metrics m c = record c { has_metrics = m }

  abbrev pub with_retry_policy : ℤ → ℤ → ClientOption S
  with_retry_policy retries delay c = record c { max_retries = retries; retry_delay = delay }

  apply_options : List (ClientOption S) → ClientConfig S → ClientConfig S
  apply_options [] c = c
  apply_options (o ∷ os) c = apply_options os (o c)

  module _ (unicode_lower : Bytes → Bytes) (api_package : ApiPackage) where
    -- The strategy of a client whose configuration names none.
    abbrev pub built_strategy : KeyValidator → ClientConfig S → UnsealStrategy S
    built_strategy v c =
        if ltb_ℤ (pos 1) c.max_retries
        then retry_strategy (default_strategy v c.has_metrics) (
            as_retry_policy (record {
              attempt_limit = c.max_retries;
              base_delay = c.retry_delay;
              max_delay = pos 10_000_000_000;
            }))
        else default_strategy v c.has_metrics

    abbrev pub choose_strategy : Option (UnsealStrategy S) → UnsealStrategy S → UnsealStrategy S
    choose_strategy (some s) built = s
    choose_strategy none built = built

    -- `if config.Timeout <= 0`, which the validation before it has ruled out.
    abbrev pub fix_timeout : ClientConfig S → ClientConfig S
    fix_timeout c = if leb_ℤ c.timeout (pos 0) then record c { timeout = pos 30_000_000_000 } else c

    unfoldable pub configure : ClientConfig S → Outcome Err ApiConfig
    configure c =
        let start : ApiConfig = record {
          address = c.url;
          timeout = c.timeout;
          http_client = api_package.default_http_client;
        } in
        if c.tls_skip_verify
        then map_err (λ e. vault_error tls_config c.url e false) (api_package.configure_tls start)
        else ok start

    -- `vaultConfig.HttpClient = httpClient`: a client with a transport of its own.
    abbrev pub set_http_client : ClientConfig S → ApiConfig → ApiConfig
    set_http_client c a = record a {
      http_client = record { timeout = c.timeout; insecure_skip_verify = false };
    }

    abbrev pub make_client : ClientConfig S → ApiConfig → Client S
    make_client c a = record {
      http_client = a.http_client;
      url = c.url;
      timeout = c.timeout;
      validator = or_default_validator unicode_lower c.validator;
      strategy =
          choose_strategy c.strategy
            (built_strategy (or_default_validator unicode_lower c.validator) c);
      has_metrics = c.has_metrics;
      closed = false;
    }

    pub new_client_with_config : ClientConfig S → Outcome Err (Client S)
    unfolding validate_client_config configure
    new_client_with_config config = do
      validate_client_config config
      let c = fix_timeout config
      tls ← configure c
      let a = set_http_client c tls
      map_err (λ e. vault_error client_creation c.url e false) (api_package.new_client a)
      ok (make_client c a)

    -- The configuration before the options.
    abbrev pub initial_config : Bytes → ClientConfig S
    initial_config url = record {
      url = url;
      tls_skip_verify = false;
      timeout = default_timeout;
      validator = some (default_validator unicode_lower);
      strategy = none;
      has_metrics = false;
      max_retries = pos 3;
      retry_delay = pos 1_000_000_000;
    }

    pub new_client_with_options : Bytes → List (ClientOption S) → Outcome Err (Client S)
    unfolding apply_options new_client_with_config
    new_client_with_options url options =
        new_client_with_config (apply_options options (initial_config url))

    -- NewClient, and DefaultClientFactory.NewClient.
    unfoldable pub new_client : Bytes → Bool → ℤ → Outcome Err (Client S)
    unfolding new_client_with_options
    new_client url tls_skip_verify timeout =
        new_client_with_options url
          (with_tls_skip_verify tls_skip_verify ∷ with_timeout timeout ∷ [])
