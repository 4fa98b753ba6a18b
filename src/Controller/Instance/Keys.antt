-- ===== src/Controller/Instance/Keys.antt =====
-- pkg/controller/vaultunsealconfig_controller.go: which instances are sent keys, and how many.
use vault_autounseal_operato.Prelude.{◌+◌, ◌≡◌, refl, ap, Bool, false, some, arith}
use vault_autounseal_operato.GoLib.Strings.{Bytes}
use vault_autounseal_operato.GoLib.Outcome.{ok}
use vault_autounseal_operato.Errors.{Err, nil}
use vault_autounseal_operato.Strategy.World.{World, Ctx, SealStatus}
use vault_autounseal_operato.Strategy.Interface.{VaultClient}
use vault_autounseal_operato.Client.Api.{Api, success}
use vault_autounseal_operato.Client.Methods.{Client, as_vault_client, is_sealed, ask_status}
use vault_autounseal_operato.Client.Submission.{keys_sent}
use vault_autounseal_operato.Client.Submission.Budget.{is_sealed-keys_sent}
use vault_autounseal_operato.Controller.Types.{VaultInstance}
use vault_autounseal_operato.Controller.Repository.{ClientFactory, Clients, client_key, find_client}
use vault_autounseal_operato.Controller.Repository.Cache.{get_client-found}
use vault_autounseal_operato.Controller.Instance.{
  after_is_sealed, work_on, process_vault_instance, unsealed_status,
}

module _ {S : Type 0} (ctx : Ctx) (api : Api S) (factory : ClientFactory S) where
  told_unsealed :
      (c : Client S) (w : World S) (st : SealStatus)
      → c.closed ≡ false
      → (api.seal_status ctx w.now w.server).reply ≡ success st
      → st.sealed ≡ false
      → let r = is_sealed c api ctx w in
        (r.0 ≡ (false, nil)) × (r.1.now ≡ w.now + (api.seal_status ctx w.now w.server).elapsed)
  unfolding is_sealed ask_status
  told_unsealed c w st live reply unsealed = ground arith

  leave_alone :
      (client : VaultClient S) (i : VaultInstance) (r : (Bool × Err) × World S)
      → r.0 ≡ (false, nil)
      → after_is_sealed ctx client i r ≡ (ok (unsealed_status i.name r.1.now), r.1)
  leave_alone client i ((b, e), w) h = ground (arith, h)

  -- An instance whose cached, open client hears from the server that it is unsealed is reported as
  -- unsealed at that time; no key is sent, and the cache stays as it is.
  pub process_vault_instance_unsealed :
      (i : VaultInstance) (namespace : Bytes) (cs : Clients S) (w : World S) (c : Client S)
      (st : SealStatus)
      → find_client (client_key namespace i.name) cs ≡ some c
      → c.closed ≡ false
      → (api.seal_status ctx w.now w.server).reply ≡ success st
      → st.sealed ≡ false
      → let r = process_vault_instance ctx api factory i namespace cs w in
        (r.0 ≡ ok (unsealed_status i.name (w.now + (api.seal_status ctx w.now w.server).elapsed)))
        × (r.1 ≡ cs)
        × (keys_sent r.2.trace ≡ keys_sent w.trace)
  unfolding process_vault_instance work_on
  process_vault_instance_unsealed i namespace cs w c st found live reply unsealed =
      let (answer, time) = told_unsealed c w st live reply unsealed in
      rw
        (
          get_client-found api factory (client_key namespace i.name) i cs c found,
          leave_alone (as_vault_client api c) i (is_sealed c api ctx w) answer,
        )
        (ap (λ t. ok (unsealed_status i.name t)) time, refl, is_sealed-keys_sent api c ctx w)
