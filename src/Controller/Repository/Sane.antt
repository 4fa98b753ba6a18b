-- ===== src/Controller/Repository/Sane.antt =====
-- DefaultClientFactory of pkg/vault/client.go behind the repository of
-- pkg/controller/vaultunsealconfig_controller.go: the clients that it hands out are safe to unseal with.
use vault_autounseal_operato.Prelude.{◌≡◌, refl, List, ℤ}
use vault_autounseal_operato.GoLib.Strings.{Bytes}
use vault_autounseal_operato.GoLib.Outcome.{Outcome, ok, err, panic}
use vault_autounseal_operato.Errors.{Err}
use vault_autounseal_operato.Validator.Default.{new_default_key_validator}
use vault_autounseal_operato.Strategy.World.{World, Ctx}
use vault_autounseal_operato.Strategy.Interface.{VaultClient}
use vault_autounseal_operato.Client.Api.{Api}
use vault_autounseal_operato.Client.Methods.{Client, as_vault_client}
use vault_autounseal_operato.Client.Config.{ApiPackage, new_client}
use vault_autounseal_operato.Client.Config.Built.{Returns, new_client_ok, new_client-ne-panic}
use vault_autounseal_operato.Client.Safety.{
  Sound, SaneStrategy, unseal-Sound, as_key_validator-IsSane,
}
use vault_autounseal_operato.Controller.Repository.{
  ClientFactory, Clients, default_client_factory, made_of,
}
use vault_autounseal_operato.Controller.Repository.Invariant.{Cached, MadeGood, GoodFactory}

module _ {S : Type 0} where
  -- Unseal returns a status or an error, whatever it is given.
  abbrev pub IsSaneClient : VaultClient S → Type 0
  IsSaneClient v =
      (ctx : Ctx) (keys : List Bytes) (t : ℤ) (w : World S) → Sound (v.unseal ctx keys t w).0

  abbrev pub SaneStrategyOf : Client S → Type 0
  SaneStrategyOf c = SaneStrategy c.strategy

  -- The factory returns, and what it makes is sane.
  abbrev pub IsSaneFactory : ClientFactory S → Type 0
  IsSaneFactory = GoodFactory SaneStrategyOf IsSaneClient

  abbrev pub SaneClients : Clients S → Type 0
  SaneClients = Cached SaneStrategyOf

  pub client-IsSaneClient :
      (api : Api S) (c : Client S) → SaneStrategyOf c → IsSaneClient (as_vault_client api c)
  client-IsSaneClient api c sane ctx keys t w = unseal-Sound api c ctx keys t w sane

-- The default factory makes only such clients, if the Vault package returns.
pub default_client_factory-IsSaneFactory :
    (S : Type 0) (unicode_lower : Bytes → Bytes) (p : ApiPackage)
    → Returns p
    → IsSaneFactory {S = S} (default_client_factory unicode_lower p)
unfolding default_client_factory SaneStrategy
default_client_factory-IsSaneFactory S unicode_lower p safe url skip timeout =
    go (new_client unicode_lower p url skip timeout) refl
  where
    go :
        (o : Outcome Err (Client S))
        → new_client unicode_lower p url skip timeout ≡ o
        → MadeGood SaneStrategyOf IsSaneClient (made_of o)
    go (ok c) e =
        let (_, _, _, _, built) = new_client_ok unicode_lower p url skip timeout c e in
        rw built (as_key_validator-IsSane unicode_lower new_default_key_validator)
    go (err x) e = tt
    go panic e = new_client-ne-panic unicode_lower p safe url skip timeout e
