-- ===== src/Tests/Controller.antt =====
-- The controller of pkg/controller at concrete inputs.
use vault_autounseal_operato.Prelude.{
  ℕ, ◌+◌, ◌≤◌, ◌≡◌, refl, true, false, ◌&&◌, some, List, [], ◌∷◌, length, pos, arith,
}
use vault_autounseal_operato.GoLib.Strings.{Bytes, codes, bytes_eq}
use vault_autounseal_operato.GoLib.Outcome.{ok}
use vault_autounseal_operato.Errors.{external}
use vault_autounseal_operato.Client.Methods.{Client, as_vault_client, is_sealed}
use vault_autounseal_operato.Client.Submission.{keys_sent}
use vault_autounseal_operato.Controller.Types.{VaultInstance, VaultUnsealConfig}
use vault_autounseal_operato.Controller.Repository.{
  ClientFactory, Clients, client_key, find_client, get_client, default_client_factory, made_client,
}
use vault_autounseal_operato.Controller.Repository.Cache.{get_client-keeps}
use vault_autounseal_operato.Controller.Repository.Invariant.{Cached}
use vault_autounseal_operato.Controller.Repository.Sane.{default_client_factory-IsSaneFactory}
use vault_autounseal_operato.Controller.Repository.Interleaving.{
  answered, Calls, advance, run, all_called,
}
use vault_autounseal_operato.Controller.Repository.Interleaving.Agreement.{Holds, run_agree}
use vault_autounseal_operato.Controller.Instance.{
  process_vault_instance, process_vault_instances, unsealed_status,
}
use vault_autounseal_operato.Controller.Instance.Statuses.{
  DescribesAll, none_sealed, process_vault_instances-DescribesAll,
}
use vault_autounseal_operato.Controller.Instance.Budget.{budget, Built}
use vault_autounseal_operato.Controller.Status.{update_vault_config_status}
use vault_autounseal_operato.Controller.Reconcile.{
  NamespacedName, Kube, default_reconciler_options, after_update, reconcile,
}
use vault_autounseal_operato.Controller.Reconcile.Written.{
  Reflects, EndsWell, reconcile-written, reconcile-EndsWell,
}
use vault_autounseal_operato.Controller.Reconcile.Total.{KubeReturns, Finished, reconcile-Finished}
use vault_autounseal_operato.Controller.Reconcile.Frugal.{reconcile-length-keys_sent}
use vault_autounseal_operato.Tests.Fixtures.{
  same_bytes, two_keys, forever, two_key_server, sealed_world, unsealed_world, demo_client,
  default_keys, three_attempts, willing_package, willing_package-Returns,
}

abbrev demo_factory : ClientFactory ℕ
demo_factory = default_client_factory same_bytes willing_package

abbrev demo_instance : VaultInstance
demo_instance = record {
  name = codes "main";
  endpoint = codes "http://vault";
  unseal_keys = two_keys;
  threshold = some (pos 2);
  tls_skip_verify = false;
  ha_enabled = false;
  pod_selector = [];
  namespace = [];
}

abbrev demo_namespace : Bytes
demo_namespace = codes "prod"

abbrev demo_unseal_config : VaultUnsealConfig
demo_unseal_config = record {
  name = codes "demo";
  namespace = demo_namespace;
  generation = 4;
  vault_instances = demo_instance ∷ [];
  conditions = [];
  vault_statuses = [];
}

-- The cache that an earlier run has left.
abbrev demo_clients : Clients ℕ
demo_clients = (client_key demo_namespace (codes "main"), demo_client) ∷ []

abbrev pub demo_request : NamespacedName
demo_request = record { namespace = demo_namespace; name = codes "demo" }

-- An API server that has the configuration and accepts every status.
abbrev pub demo_kube : Kube
demo_kube = record {
  get = λ r. ok demo_unseal_config;
  is_not_found = λ e. false;
  update_status = λ c. ok tt;
  deadline_exceeded = external 1;
}

pub demo_kube-KubeReturns : KubeReturns demo_kube
demo_kube-KubeReturns = record { get = λ r h. ground (arith, h); update = λ c h. ground (arith, h) }

demo_found : find_client (client_key demo_namespace (codes "main")) demo_clients ≡ some demo_client
unfolding find_client bytes_eq
demo_found = refl

reconcile-Finished_example :
    Finished two_key_server demo_factory
      (default_client_factory-IsSaneFactory ℕ same_bytes willing_package willing_package-Returns)
      demo_kube
      demo_kube-KubeReturns
      default_reconciler_options
      (reconcile two_key_server demo_factory demo_kube default_reconciler_options forever
        demo_request [] sealed_world)
reconcile-Finished_example =
    reconcile-Finished two_key_server demo_factory
      (default_client_factory-IsSaneFactory ℕ same_bytes willing_package willing_package-Returns)
      demo_kube demo_kube-KubeReturns default_reconciler_options forever demo_request []
      sealed_world tt

demo_client-Built : Built 3 demo_client
demo_client-Built = (default_keys, true, three_attempts, refl, refl)

reconcile-length-keys_sent_example :
    let r =
      reconcile two_key_server
        (default_client_factory same_bytes willing_package)
        demo_kube
        default_reconciler_options
        forever
        demo_request
        demo_clients
        sealed_world in
    (length (keys_sent r.world.trace) ≤ length (keys_sent []) + budget 3 (demo_instance ∷ []))
    × Cached (Built 3) r.clients
reconcile-length-keys_sent_example =
    reconcile-length-keys_sent two_key_server same_bytes willing_package willing_package-Returns
      demo_kube default_reconciler_options forever demo_request demo_unseal_config demo_clients
      sealed_world refl (demo_client-Built, tt)

demo_pass :
    (process_vault_instances forever two_key_server demo_factory
      (demo_instance ∷ [])
      demo_namespace
      true
      demo_clients
      unsealed_world).0
    ≡ some (unsealed_status (codes "main") 1 ∷ [], true)
unfolding process_vault_instances get_client bytes_eq is_sealed process_vault_instance
demo_pass = refl

demo_written :
    (reconcile two_key_server demo_factory demo_kube default_reconciler_options forever demo_request
      demo_clients unsealed_world).written
    ≡ some (
        update_vault_config_status 1
          (unsealed_status (codes "main") 1 ∷ [])
          true
          demo_unseal_config)
unfolding reconcile process_vault_instances get_client bytes_eq is_sealed process_vault_instance
demo_written = refl

process_vault_instances-DescribesAll_example :
    DescribesAll (demo_instance ∷ []) (unsealed_status (codes "main") 1 ∷ [])
    × (true ≡ (true && none_sealed (unsealed_status (codes "main") 1 ∷ [])))
process_vault_instances-DescribesAll_example =
    process_vault_instances-DescribesAll forever two_key_server demo_factory demo_namespace
      (demo_instance ∷ []) true demo_clients unsealed_world (unsealed_status (codes "main") 1 ∷ [])
      true demo_pass

abbrev demo_update : VaultUnsealConfig
demo_update =
    update_vault_config_status 1 (unsealed_status (codes "main") 1 ∷ []) true demo_unseal_config

reconcile-written_example :
    (config : VaultUnsealConfig) × (demo_kube.get demo_request ≡ ok config)
    × Reflects two_key_server demo_factory demo_kube default_reconciler_options config demo_update
    × ((reconcile two_key_server demo_factory demo_kube default_reconciler_options forever
          demo_request demo_clients unsealed_world).result
        ≡ after_update two_key_server demo_factory demo_kube default_reconciler_options
            (demo_kube.update_status demo_update))
reconcile-written_example =
    reconcile-written two_key_server demo_factory demo_kube default_reconciler_options forever
      demo_request demo_clients unsealed_world demo_update demo_written

demo_result :
    (reconcile two_key_server demo_factory demo_kube default_reconciler_options forever demo_request
      demo_clients unsealed_world).result
    ≡ ok (some 30_000_000_000)
unfolding reconcile process_vault_instances get_client bytes_eq is_sealed process_vault_instance
demo_result = refl

reconcile-EndsWell_example :
    EndsWell two_key_server demo_factory demo_kube default_reconciler_options
      (demo_kube.get demo_request)
      demo_clients
      unsealed_world
      (reconcile two_key_server demo_factory demo_kube default_reconciler_options forever
        demo_request demo_clients unsealed_world)
      (some 30_000_000_000)
reconcile-EndsWell_example =
    reconcile-EndsWell two_key_server demo_factory demo_kube default_reconciler_options forever
      demo_request demo_clients unsealed_world (some 30_000_000_000) demo_result

-- A factory whose clients differ from call to call.
abbrev numbered_client : ℕ → Client ℕ
numbered_client n = record demo_client { timeout = pos n }

abbrev numbered_factory : ℕ → ClientFactory ℕ
numbered_factory n url skip timeout = ok (made_client (numbered_client n))

-- Both calls look before either makes a client; call 0 is blocked once at each lock.
abbrev both_look_first : List ℕ
both_look_first = 0 ∷ 1 ∷ 1 ∷ 0 ∷ 1 ∷ 0 ∷ 1 ∷ 0 ∷ 1 ∷ 0 ∷ 0 ∷ 0 ∷ []

abbrev demo_calls : Calls ℕ
demo_calls =
    run two_key_server numbered_factory (λ i. codes "k") (λ i. demo_instance) both_look_first
      (all_called [])

first_answer :
    demo_calls.progress 0 ≡ answered (ok (as_vault_client two_key_server (numbered_client 0)))
unfolding run advance find_client get_client bytes_eq
first_answer = refl

second_answer :
    demo_calls.progress 1 ≡ answered (ok (as_vault_client two_key_server (numbered_client 0)))
unfolding run advance find_client get_client bytes_eq
second_answer = refl

run_agree_example :
    let v = as_vault_client two_key_server (numbered_client 0) in
    (v ≡ v) × Holds two_key_server (codes "k") demo_calls.cache v
run_agree_example =
    run_agree two_key_server numbered_factory (λ i. codes "k") (λ i. demo_instance)
      (λ n url skip timeout. tt) both_look_first [] 0 1 _ _ first_answer second_answer refl

get_client-keeps_example :
    let key = client_key demo_namespace (codes "main") in
    let cs' =
      (get_client two_key_server demo_factory (codes "prod/other") demo_instance demo_clients).1 in
    (find_client key cs' ≡ some demo_client)
    × (get_client two_key_server demo_factory key
          (record demo_instance { endpoint = codes "http://moved" })
          cs'
        ≡ (ok (as_vault_client two_key_server demo_client), cs'))
get_client-keeps_example =
    get_client-keeps two_key_server demo_factory (codes "prod/other")
      (client_key demo_namespace (codes "main")) demo_instance
      (record demo_instance { endpoint = codes "http://moved" }) demo_clients demo_client demo_found
