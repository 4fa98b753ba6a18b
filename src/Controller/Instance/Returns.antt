-- ===== src/Controller/Instance/Returns.antt =====
-- pkg/controller/vaultunsealconfig_controller.go: the work on the instances returns, over clients that are
-- safe to unseal with.
use vault_autounseal_operato.Prelude.{
  ◌≡◌, ◌≢◌, refl, Bool, not, ◌&&◌, Option, none, some, List, [], ◌∷◌, arith,
}
use vault_autounseal_operato.GoLib.Strings.{Bytes}
use vault_autounseal_operato.GoLib.Outcome.{Outcome, ok, err, panic}
use vault_autounseal_operato.Errors.{Err}
use vault_autounseal_operato.Strategy.World.{World, Ctx, SealStatus}
use vault_autounseal_operato.Strategy.Interface.{VaultClient}
use vault_autounseal_operato.Client.Api.{Api}
use vault_autounseal_operato.Client.Safety.{Sound}
use vault_autounseal_operato.Controller.Types.{VaultInstance, VaultInstanceStatus}
use vault_autounseal_operato.Controller.Repository.{ClientFactory, Clients, client_key, get_client}
use vault_autounseal_operato.Controller.Repository.Invariant.{FineAnswer, get_client-Cached}
use vault_autounseal_operato.Controller.Repository.Sane.{
  IsSaneClient, IsSaneFactory, SaneStrategyOf, SaneClients, client-IsSaneClient,
}
use vault_autounseal_operato.Controller.Instance.{
  after_unseal, after_is_sealed, work_on, with_client, process_vault_instance,
  process_vault_instances, status_or_failed, get_threshold,
}

module _ {S : Type 0} (ctx : Ctx) where
  unseal-ne-panic :
      (name : Bytes) (r : Outcome Err (Option SealStatus) × World S)
      → Sound r.0
      → (after_unseal ctx name r).0 ≢ panic
  unseal-ne-panic name (ok none, w) sound h = sound
  unseal-ne-panic name (ok (some st), w) sound h = ground (arith, h)
  unseal-ne-panic name (err e, w) sound h = ground (arith, h)
  unseal-ne-panic name (panic, w) sound h = sound

  work_on-ne-panic :
      (client : VaultClient S) (i : VaultInstance) (w : World S)
      → IsSaneClient client
      → (work_on ctx client i w).0 ≢ panic
  unfolding work_on
  work_on-ne-panic client i w sane h = asked (client.is_sealed ctx w) h
    where
      asked : (r : (Bool × Err) × World S) → (after_is_sealed ctx client i r).0 ≢ panic
      asked ((is_sealed, e), v) q = ground (
        arith,
        q,
        unseal-ne-panic i.name (client.unseal ctx i.unseal_keys (get_threshold i) v)
            (sane ctx i.unseal_keys (get_threshold i) v),
      )

  module _ (api : Api S) (factory : ClientFactory S) (good : IsSaneFactory factory)
      (namespace : Bytes) where
    with_client-returns :
        (i : VaultInstance) (r : Outcome Err (VaultClient S) × Clients S) (w : World S)
        → FineAnswer IsSaneClient r.0
        → SaneClients r.1
        → ((with_client ctx api factory i r w).0 ≢ panic)
          × SaneClients (with_client ctx api factory i r w).1
    with_client-returns i (ok client, cs) w sane all = (work_on-ne-panic client i w sane, all)
    with_client-returns i (err e, cs) w sane all = ((λ h. ground (arith, h)), all)
    with_client-returns i (panic, cs) w sane all = absurd sane

    -- The work on one instance ends with a status or an error, and keeps the cache sane.
    process_vault_instance-returns :
        (i : VaultInstance) (cs : Clients S) (w : World S)
        → SaneClients cs
        → ((process_vault_instance ctx api factory i namespace cs w).0 ≢ panic)
          × SaneClients (process_vault_instance ctx api factory i namespace cs w).1
    unfolding process_vault_instance
    process_vault_instance-returns i cs w sane =
        let (answer, kept) =
          get_client-Cached api factory SaneStrategyOf IsSaneClient (client-IsSaneClient api) good
            (client_key namespace i.name) i cs sane in
        with_client-returns i (get_client api factory (client_key namespace i.name) i cs) w answer
          kept

    status-given :
        (name : Bytes) (o : Outcome Err VaultInstanceStatus)
        → o ≢ panic
        → (st : VaultInstanceStatus) × (status_or_failed name o ≡ some st)
    status-given name (ok st) h = (st, refl)
    status-given name (err e) h = (_, refl)
    status-given name panic h = absurd (h refl)

    -- So the work on all of them ends, with a list of statuses.
    pub process_vault_instances-returns :
        (is : List VaultInstance) (ready : Bool) (cs : Clients S) (w : World S)
        → SaneClients cs
        → let r = process_vault_instances ctx api factory is namespace ready cs w in
          ((sts : List VaultInstanceStatus × Bool) × (r.0 ≡ some sts)) × SaneClients r.1
    unfolding process_vault_instances
    process_vault_instances-returns [] ready cs w sane = ((([], ready), refl), sane)
    process_vault_instances-returns (i ∷ is) ready cs w sane =
        let one = process_vault_instance ctx api factory i namespace cs w in
        let (returns, kept) = process_vault_instance-returns i cs w sane in
        let (st, e) = status-given i.name one.0 returns in
        let ((r, f), left) =
          process_vault_instances-returns is (ready && not st.sealed) one.1 one.2 kept in
        rw (e, process_vault_instances) (((st ∷ r.0, r.1), rw f refl), left)
