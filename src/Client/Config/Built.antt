-- ===== src/Client/Config/Built.antt =====
-- pkg/vault/client.go: what a client is that NewClientWithConfig returns.
use vault_autounseal_operato.Prelude.{
  ◌≤◌, ◌≡◌, ◌≢◌, ◌↔◌, refl, sym, ap, ◌∙◌, inl, inr, Bool, true, false, ◌||◌, length, [], ◌∷◌, ℤ,
  pos, arith, Bool-cases,
}
use vault_autounseal_operato.Prelude.Int.{◌≤ℤ◌}
use vault_autounseal_operato.GoLib.Strings.{Bytes, codes, has_prefix}
use vault_autounseal_operato.GoLib.Outcome.{Outcome, ok, err, panic, ◌>>=◌, >>=-eq-ok, map_err}
use vault_autounseal_operato.Errors.{Err}
use vault_autounseal_operato.Strategy.Policy.{as_retry_policy}
use vault_autounseal_operato.Strategy.Interface.{default_strategy, retry_strategy}
use vault_autounseal_operato.Client.Methods.{Client}
use vault_autounseal_operato.Client.Config.{
  ClientConfig, ApiConfig, ApiPackage, millisecond, validate_client_config, configure, fix_timeout,
  set_http_client, make_client, choose_strategy, built_strategy, or_default_validator,
  default_validator, new_client_with_config, new_client_with_options, new_client, initial_config,
  apply_options,
}

no_prefix : (url : Bytes) → length url ≡ 0 → has_prefix url (codes "http://") ≡ false
unfolding has_prefix
no_prefix [] h = refl
no_prefix (x ∷ url) h = absurd (omega arith)

no_secure_prefix : (url : Bytes) → length url ≡ 0 → has_prefix url (codes "https://") ≡ false
unfolding has_prefix
no_secure_prefix [] h = refl
no_secure_prefix (x ∷ url) h = absurd (omega arith)

map_err-eq-ok :
    {A : Type 0} (f : Err → Err) (o : Outcome Err A) (a : A) → map_err f o ≡ ok a → o ≡ ok a
map_err-eq-ok f (ok b) a h = h
map_err-eq-ok f (err e) a h = ground arith
map_err-eq-ok f panic a h = ground arith

ok_injective : {A : Type 0} {a b : A} → ◌≡◌ {A = Outcome Err A} (ok a) (ok b) → a ≡ b
ok_injective h = ground (arith, h)

module _ {S : Type 0} where
  -- A configuration is accepted exactly when its URL starts with http:// or https:// and has at most
  -- 2048 bytes, its timeout is at least a millisecond and its number of retries is not negative.
  validate_client_config_iff :
      (c : ClientConfig S)
      → (validate_client_config c ≡ ok tt) ↔ (
          ((has_prefix c.url (codes "http://") || has_prefix c.url (codes "https://")) ≡ true)
          × (length c.url ≤ 2048)
          × (pos millisecond ≤ℤ c.timeout)
          × (pos 0 ≤ℤ c.max_retries))
  unfolding validate_client_config
  validate_client_config_iff c = ground (arith, no_prefix c.url, no_secure_prefix c.url)

  module _ (unicode_lower : Bytes → Bytes) (api_package : ApiPackage) where
    fix_timeout_accepted :
        (c : ClientConfig S)
        → pos millisecond ≤ℤ c.timeout
        → fix_timeout unicode_lower api_package c ≡ c
    fix_timeout_accepted c h = ground arith

    -- A client is built only from a configuration that is accepted. It is open, has the URL, the timeout
    -- and the metrics of the configuration, the default validator and the built strategy where the
    -- configuration names none, and an HTTP client that verifies certificates, also where
    -- TLSSkipVerify is set.
    new_client_with_config_ok :
        (config : ClientConfig S) (c : Client S)
        → new_client_with_config unicode_lower api_package config ≡ ok c
        → (validate_client_config config ≡ ok tt)
          × (c ≡ record {
            http_client = record { timeout = config.timeout; insecure_skip_verify = false };
            url = config.url;
            timeout = config.timeout;
            validator = or_default_validator unicode_lower config.validator;
            strategy = choose_strategy unicode_lower api_package config.strategy (
                built_strategy unicode_lower api_package
                  (or_default_validator unicode_lower config.validator)
                  config);
            has_metrics = config.has_metrics;
            closed = false;
          })
    unfolding new_client_with_config
    new_client_with_config_ok config c h =
        let (_, accepted, rest) = >>=-eq-ok (validate_client_config config) _ h in
        let (a, b, d, e) = (validate_client_config_iff config).0 accepted in
        let same = fix_timeout_accepted config d in
        let (tls, configured, made) =
          >>=-eq-ok
            (configure unicode_lower api_package (fix_timeout unicode_lower api_package config)) _
            rest in
        let (_, created, done) =
          >>=-eq-ok
            (map_err _ (
              api_package.new_client (
                set_http_client unicode_lower api_package
                  (fix_timeout unicode_lower api_package config) tls)))
            _ made in
        (
          accepted,
          sym (ok_injective done)
              ∙ ap
                  (λ x.
                    make_client unicode_lower api_package x
                      (set_http_client unicode_lower api_package x tls))
                  same,
        )

    -- The client of NewClient, which the operator's factory calls too: its strategy retries a default
    -- one at most three times, with the default validator, and certificates are verified whatever
    -- tlsSkipVerify says.
    pub new_client_ok :
        (url : Bytes) (tls_skip_verify : Bool) (timeout : ℤ) (c : Client S)
        → new_client unicode_lower api_package url tls_skip_verify timeout ≡ ok c
        → (c.url ≡ url)
          × (c.closed ≡ false)
          × (c.http_client.insecure_skip_verify ≡ false)
          × (pos millisecond ≤ℤ c.timeout)
          × (c.strategy
              ≡ retry_strategy (default_strategy (default_validator unicode_lower) false) (
                  as_retry_policy (record {
                    attempt_limit = pos 3;
                    base_delay = pos 1_000_000_000;
                    max_delay = pos 10_000_000_000;
                  })))
    unfolding new_client new_client_with_options apply_options
    new_client_ok url tls_skip_verify timeout c h =
        let config = record (initial_config unicode_lower api_package url) {
          tls_skip_verify = tls_skip_verify;
          timeout = timeout;
        } in
        let (accepted, built) = new_client_with_config_ok config c h in
        let (_, _, long, _) = (validate_client_config_iff config).0 accepted in
        (
          ap (λ d. d.url) built,
          ap (λ d. d.closed) built,
          ap (λ d. d.http_client.insecure_skip_verify) built,
          rw built long,
          ap (λ d. d.strategy) built,
        )

-- The Vault package returns: what its documentation promises, and all that is asked of it here.
pub record Returns (p : ApiPackage) : Type 0 where
  pub tls : (a : ApiConfig) → p.configure_tls a ≢ panic
  pub made : (a : ApiConfig) → p.new_client a ≢ panic

map_err-ne-panic :
    {A : Type 0} (f : Err → Err) (o : Outcome Err A) → o ≢ panic → map_err f o ≢ panic
map_err-ne-panic f (ok a) safe h = ground (arith, h)
map_err-ne-panic f (err e) safe h = ground (arith, h)
map_err-ne-panic f panic safe h = safe h

bind-ne-panic :
    {A B : Type 0} (m : Outcome Err A) (f : A → Outcome Err B)
    → m ≢ panic
    → ((a : A) → f a ≢ panic)
    → (m >>= f) ≢ panic
bind-ne-panic (ok a) f first later h = later a h
bind-ne-panic (err e) f first later h = ground (arith, h)
bind-ne-panic panic f first later h = first refl

module _ {S : Type 0} (unicode_lower : Bytes → Bytes) (p : ApiPackage) (safe : Returns p) where
  validate_client_config-ne-panic : (c : ClientConfig S) → validate_client_config c ≢ panic
  unfolding validate_client_config
  validate_client_config-ne-panic c h = ground (arith, h)

  configure-ne-panic : (c : ClientConfig S) → configure unicode_lower p c ≢ panic
  unfolding configure
  configure-ne-panic c h = elim (Bool-cases c.tls_skip_verify) [
    | inl e ↦ map_err-ne-panic _ _ (safe.tls _) (simp e at h)
    | inr e ↦ ground (arith, h)
  ]

  -- Building a client ends with a client or with an error.
  new_client_with_config-ne-panic :
      (config : ClientConfig S) → new_client_with_config unicode_lower p config ≢ panic
  unfolding new_client_with_config
  new_client_with_config-ne-panic config =
      bind-ne-panic (validate_client_config config) _ (validate_client_config-ne-panic config) λ _.
        bind-ne-panic (configure unicode_lower p (fix_timeout unicode_lower p config)) _
          (configure-ne-panic (fix_timeout unicode_lower p config))
          λ tls.
            bind-ne-panic
              (map_err _ (
                p.new_client
                  (set_http_client unicode_lower p (fix_timeout unicode_lower p config) tls)))
              _ (map_err-ne-panic _ _ (safe.made _)) λ _ h. ground (arith, h)

  pub new_client-ne-panic :
      (url : Bytes) (skip : Bool) (timeout : ℤ)
      → new_client {S = S} unicode_lower p url skip timeout ≢ panic
  unfolding new_client new_client_with_options apply_options
  new_client-ne-panic url skip timeout =
      new_client_with_config-ne-panic
        (record (initial_config unicode_lower p url) { tls_skip_verify = skip; timeout = timeout })
