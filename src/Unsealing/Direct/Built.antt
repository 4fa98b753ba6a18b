-- ===== src/Unsealing/Direct/Built.antt =====
-- pkg/unsealing/client/client.go: the constructors, which drop the strategy, the validator and the retry
-- settings of the configuration.
use vault_autounseal_operato.Prelude.{◌≡◌, ap, sym, false, none, List, ℤ, arith}
use vault_autounseal_operato.GoLib.Strings.{Bytes}
use vault_autounseal_operato.GoLib.Outcome.{Outcome, ok, ◌>>=◌, ◌>>◌, >>=-eq-ok, map_err}
use vault_autounseal_operato.Errors.{Err, vault_error, client_creation}
use vault_autounseal_operato.Strategy.World.{World, Ctx}
use vault_autounseal_operato.Client.Api.{Api}
use vault_autounseal_operato.Client.Config.{
  ClientConfig, ApiPackage, validate_client_config, fix_timeout, configure, set_http_client,
  make_client,
}
use vault_autounseal_operato.Unsealing.Direct.{DirectClient, unseal, unseal_direct}
use vault_autounseal_operato.Unsealing.Direct.Same.{unseal_bare}

ok_injective : {A : Type 0} {a b : A} → ◌≡◌ {A = Outcome Err A} (ok a) (ok b) → a ≡ b
ok_injective h = ground (arith, h)

module _ {S : Type 0} (unicode_lower : Bytes → Bytes) (api_package : ApiPackage) where
  -- Of `base` only what the two clients share counts.
  unfoldable pub new_direct_client : ClientConfig S → Outcome Err (DirectClient S)
  unfolding validate_client_config configure
  new_direct_client config = do
    validate_client_config config
    let c = fix_timeout unicode_lower api_package config
    tls ← configure unicode_lower api_package c
    let a = set_http_client unicode_lower api_package c tls
    map_err (λ e. vault_error client_creation c.url e false) (api_package.new_client a)
    ok (record { base = make_client unicode_lower api_package c a; own_strategy = none })

  -- Whatever strategy the configuration names, a client that is built from it is open and unseals without
  -- one.
  pub new_direct_client-unseal :
      (config : ClientConfig S) (c : DirectClient S)
      → new_direct_client config ≡ ok c
      → (c.base.closed ≡ false)
        × ((api : Api S) (ctx : Ctx) (keys : List Bytes) (t : ℤ) (w : World S)
            → unseal api c ctx keys t w ≡ unseal_direct api c.base ctx keys t w)
  unfolding new_direct_client
  new_direct_client-unseal config c h =
      let (_, accepted, rest) = >>=-eq-ok (validate_client_config config) _ h in
      let fixed = fix_timeout unicode_lower api_package config in
      let (tls, configured, made) = >>=-eq-ok (configure unicode_lower api_package fixed) _ rest in
      let (_, created, done) =
        >>=-eq-ok
          (map_err _ (api_package.new_client (set_http_client unicode_lower api_package fixed tls)))
          _ made in
      let built = ok_injective done in
      let live = sym (ap (λ d. d.base.closed) built) in
      let bare = sym (ap (λ d. d.own_strategy) built) in
      (live, λ api ctx keys t w. unseal_bare api c ctx live bare keys t w)
