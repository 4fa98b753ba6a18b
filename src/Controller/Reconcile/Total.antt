-- ===== src/Controller/Reconcile/Total.antt =====
-- pkg/controller/vaultunsealconfig_controller.go: Reconcile returns, over the clients of
-- pkg/vault/client.go.
use vault_autounseal_operato.Prelude.{◌≡◌, ◌≢◌, refl, Bool, true, Option, none, some, List, arith}
use vault_autounseal_operato.GoLib.Outcome.{Outcome, ok, err, panic}
use vault_autounseal_operato.Errors.{Err}
use vault_autounseal_operato.Strategy.World.{World, Ctx}
use vault_autounseal_operato.Client.Api.{Api}
use vault_autounseal_operato.Controller.Types.{VaultInstanceStatus, VaultUnsealConfig}
use vault_autounseal_operato.Controller.Repository.{ClientFactory, Clients}
use vault_autounseal_operato.Controller.Repository.Sane.{IsSaneFactory, SaneClients}
use vault_autounseal_operato.Controller.Instance.{process_vault_instances}
use vault_autounseal_operato.Controller.Instance.Returns.{process_vault_instances-returns}
use vault_autounseal_operato.Controller.Reconcile.{
  NamespacedName, Kube, ReconcilerOptions, Run, after_update, write_status, after_get, reconcile,
}

-- The API server returns.
pub record KubeReturns (k : Kube) : Type 0 where
  pub get : (r : NamespacedName) → k.get r ≢ panic
  pub update : (c : VaultUnsealConfig) → k.update_status c ≢ panic

module _ {S : Type 0} (api : Api S) (factory : ClientFactory S) (good : IsSaneFactory factory)
    (kube : Kube) (answers : KubeReturns kube) (options : ReconcilerOptions) where
  abbrev pub Finished : Run S → Type 0
  Finished r = (r.result ≢ panic) × SaneClients r.clients

  update-returns :
      (o : Outcome Err (Unit {0})) → o ≢ panic → after_update api factory kube options o ≢ panic
  update-returns (ok a) safe h = ground (arith, h)
  update-returns (err e) safe h = ground (arith, h)
  update-returns panic safe h = safe refl

  write_status-Finished :
      (config : VaultUnsealConfig)
      (r : Option (List VaultInstanceStatus × Bool) × Clients S × World S)
      (p : List VaultInstanceStatus × Bool)
      → r.0 ≡ some p
      → SaneClients r.1
      → Finished (write_status api factory kube options config r)
  unfolding write_status
  write_status-Finished config (none, cs, w) p h sane = ground (arith, h)
  write_status-Finished config (some (sts, all), cs, w) p h sane =
      (update-returns _ (answers.update _), sane)

  after_get-Finished :
      (ctx : Ctx) (cs : Clients S) (w : World S) (o : Outcome Err VaultUnsealConfig)
      → SaneClients cs
      → o ≢ panic
      → Finished (after_get api factory kube options ctx cs w o)
  unfolding after_get
  after_get-Finished ctx cs w (ok config) sane safe =
      let ((p, e), kept) =
        process_vault_instances-returns ctx api factory good config.namespace config.vault_instances
          true cs w sane in
      write_status-Finished config
        (process_vault_instances ctx api factory config.vault_instances config.namespace true cs w)
        p e kept
  after_get-Finished ctx cs w (err e) sane safe = ((λ h. ground (arith, h)), sane)
  after_get-Finished ctx cs w panic sane safe = absurd (safe refl)

  -- If the factory makes only clients that are safe to unseal with, and the cache holds only such
  -- clients, and the API server returns, then a run of Reconcile ends without a panic, whatever the
  -- servers and the context do, and leaves only such clients in the cache.
  pub reconcile-Finished :
      (ctx : Ctx) (request : NamespacedName) (cs : Clients S) (w : World S)
      → SaneClients cs
      → Finished (reconcile api factory kube options ctx request cs w)
  unfolding reconcile
  reconcile-Finished ctx request cs w sane =
      after_get-Finished _ cs w (kube.get request) sane (answers.get request)
