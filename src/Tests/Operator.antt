-- ===== src/Tests/Operator.antt =====
-- The controller of pkg/operator/controller at concrete inputs.
use vault_autounseal_operato.Prelude.{
  ◌≡◌, refl, true, false, none, some, [], ◌∷◌, ℕ, zero, suc, ◌≤◌, pos, arith,
}
use vault_autounseal_operato.GoLib.Strings.{codes}
use vault_autounseal_operato.GoLib.Outcome.{Outcome, ok, err}
use vault_autounseal_operato.Errors.{Err, external}
use vault_autounseal_operato.Client.Methods.{Client}
use vault_autounseal_operato.Controller.Types.{VaultInstance}
use vault_autounseal_operato.Controller.Repository.{default_client_factory, find_client}
use vault_autounseal_operato.Controller.Instance
use vault_autounseal_operato.Operator
use vault_autounseal_operato.Operator.Same.{AlikePass, SameMap, process_vault_instances-alike}
use vault_autounseal_operato.Operator.Race.{
  Calls, working, refused, advance, run, all_called, both_make,
}
use vault_autounseal_operato.Tests.Fixtures.{
  same_bytes, willing_package, two_key_server, forever, sealed_world, two_keys, demo_client,
}

abbrev operator_instance : VaultInstance
operator_instance = record {
  name = codes "main";
  endpoint = codes "http://vault";
  unseal_keys = two_keys;
  threshold = some (pos 2);
  tls_skip_verify = false;
  ha_enabled = false;
  pod_selector = [];
  namespace = [];
}

process_vault_instances-alike_example :
    let l =
      Operator.process_vault_instances same_bytes willing_package two_key_server forever
        (operator_instance ∷ [])
        (codes "prod")
        true
        []
        sealed_world in
    let r =
      Instance.process_vault_instances forever two_key_server
        (default_client_factory same_bytes willing_package)
        (operator_instance ∷ [])
        (codes "prod")
        true
        []
        sealed_world in
    AlikePass l.0 r.0 × SameMap l.1 r.1 × (l.2 ≡ r.2)
process_vault_instances-alike_example =
    process_vault_instances-alike same_bytes willing_package two_key_server forever (codes "prod")
      (operator_instance ∷ []) true [] [] sealed_world (λ key. refl)

-- What NewClient returns, by number: its second call fails.
abbrev second_fails : ℕ → Outcome Err (Client ℕ)
second_fails zero = ok demo_client
second_fails (suc n) = err (external n)

no_client_yet : find_client {S = ℕ} (codes "prod/main") [] ≡ none
unfolding find_client
no_client_yet = refl

-- The call 0 has written its client when the call 1 makes its own.
abbrev demo_calls : Calls ℕ
demo_calls = run (codes "prod/main") second_fails (0 ∷ 1 ∷ 0 ∷ 0 ∷ 1 ∷ []) (all_called [])

first_works : demo_calls.progress 0 ≡ working demo_client
unfolding run advance find_client
first_works = refl

second_refused : demo_calls.progress 1 ≡ refused (external 0)
unfolding run advance find_client
second_refused = refl

both_make_example : 2 ≤ demo_calls.made
both_make_example =
    both_make (codes "prod/main") second_fails (0 ∷ 0 ∷ 1 ∷ []) [] no_client_yet
      (λ h. ground (arith, h, first_works)) (λ h. ground (arith, h, second_refused))
