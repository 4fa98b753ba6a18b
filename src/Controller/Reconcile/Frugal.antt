-- ===== src/Controller/Reconcile/Frugal.antt =====
-- pkg/controller/vaultunsealconfig_controller.go with DefaultClientFactory of pkg/vault/client.go: how
-- many keys a run of Reconcile sends.
use vault_autounseal_operato.Prelude.{
  ◌+◌, ◌≤◌, ◌≡◌, ◌≢◌, refl, Bool, true, Option, none, some, List, length,
}
use vault_autounseal_operato.GoLib.Strings.{Bytes}
use vault_autounseal_operato.GoLib.Outcome.{Outcome, ok, err, panic}
use vault_autounseal_operato.Errors.{Err}
use vault_autounseal_operato.Strategy.World.{World, Ctx}
use vault_autounseal_operato.Client.Api.{Api}
use vault_autounseal_operato.Client.Methods.{Client}
use vault_autounseal_operato.Client.Config.{ApiPackage, new_client}
use vault_autounseal_operato.Client.Config.Built.{Returns, new_client_ok, new_client-ne-panic}
use vault_autounseal_operato.Client.Submission.{keys_sent}
use vault_autounseal_operato.Controller.Types.{VaultInstanceStatus, VaultUnsealConfig}
use vault_autounseal_operato.Controller.Repository.{
  Clients, ClientFactory, default_client_factory, made_of,
}
use vault_autounseal_operato.Controller.Repository.Invariant.{Cached, MadeGood, GoodFactory}
use vault_autounseal_operato.Controller.Instance.{process_vault_instances}
use vault_autounseal_operato.Controller.Instance.Budget.{
  Frugal, Built, budget, process_vault_instances-sent,
}
use vault_autounseal_operato.Controller.Reconcile.{
  NamespacedName, Kube, ReconcilerOptions, write_status, after_get, reconcile, earlier,
}

-- The clients of the default factory make three attempts.
default_client_factory-Built :
    (S : Type 0) (unicode_lower : Bytes → Bytes) (p : ApiPackage)
    → Returns p
    → GoodFactory (Built {S = S} 3) (Frugal 3) (default_client_factory unicode_lower p)
unfolding default_client_factory
default_client_factory-Built S unicode_lower p safe url skip timeout =
    go (new_client unicode_lower p url skip timeout) refl
  where
    go :
        (o : Outcome Err (Client S))
        → new_client unicode_lower p url skip timeout ≡ o
        → MadeGood (Built 3) (Frugal 3) (made_of o)
    go (ok c) e =
        let (_, _, _, _, built) = new_client_ok unicode_lower p url skip timeout c e in
        (_, _, _, built, refl)
    go (err x) e = tt
    go panic e = new_client-ne-panic unicode_lower p safe url skip timeout e

module _ {S : Type 0} (api : Api S) (unicode_lower : Bytes → Bytes) (p : ApiPackage)
    (safe : Returns p) (kube : Kube) (options : ReconcilerOptions) where
  write_status-world :
      (config : VaultUnsealConfig)
      (r : Option (List VaultInstanceStatus × Bool) × Clients S × World S)
      → let written =
          write_status api (default_client_factory unicode_lower p) kube options config r in
        (written.world ≡ r.2) × (written.clients ≡ r.1)
  unfolding write_status
  write_status-world config (none, cs, w) = (refl, refl)
  write_status-world config (some (sts, all), cs, w) = (refl, refl)

  -- With the default factory, one run of Reconcile for a configuration sends at most three times the
  -- threshold keys for each of its instances, whatever the servers, the keys and the context are, if
  -- the cached clients are the factory's and the functions of the Vault package that make a client do
  -- not panic; and the cached clients still are the factory's after the run.
  pub reconcile-length-keys_sent :
      (ctx : Ctx) (request : NamespacedName) (config : VaultUnsealConfig) (cs : Clients S)
      (w : World S)
      → kube.get request ≡ ok config
      → Cached (Built 3) cs
      → let r =
          reconcile api (default_client_factory unicode_lower p) kube options ctx request cs w in
        (length (keys_sent r.world.trace)
          ≤ length (keys_sent w.trace) + budget 3 config.vault_instances)
        × Cached (Built 3) r.clients
  unfolding reconcile after_get
  reconcile-length-keys_sent ctx request config cs w found all =
      let inner = earlier ctx (w.now + options.timeout) kube.deadline_exceeded in
      let work =
        process_vault_instances inner api (default_client_factory unicode_lower p)
          config.vault_instances config.namespace true cs w in
      let (few, kept) =
        process_vault_instances-sent inner api (default_client_factory unicode_lower p) 3
          (default_client_factory-Built S unicode_lower p safe) config.namespace
          config.vault_instances true cs w all in
      let (same_world, same_clients) = write_status-world config work in
      rw (found, after_get) ((rw same_world few), (rw same_clients kept))

-- A run that reads no configuration touches neither the clients nor the servers.
module _ {S : Type 0} (api : Api S) (factory : ClientFactory S) (kube : Kube)
    (options : ReconcilerOptions) (ctx : Ctx) (request : NamespacedName) (cs : Clients S)
    (w : World S) where
  pub reconcile-unread :
      (found : Outcome Err VaultUnsealConfig)
      → kube.get request ≡ found
      → ((config : VaultUnsealConfig) → found ≢ ok config)
      → let r = reconcile api factory kube options ctx request cs w in
        (r.world ≡ w) × (r.clients ≡ cs)
  unfolding reconcile after_get
  reconcile-unread (ok config) e unread = absurd (unread config refl)
  reconcile-unread (err x) e unread = rw (e, after_get) (refl, refl)
  reconcile-unread panic e unread = rw (e, after_get) (refl, refl)
