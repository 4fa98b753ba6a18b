-- ===== src/Tests/Life.antt =====
-- Two calls of Reconcile of the operator that main.go sets up, the second an hour after the first.
use vault_autounseal_operato.Prelude.{ℕ, ◌+◌, ◌≤◌, ◌≢◌, All, [], ◌∷◌, List, length}
use vault_autounseal_operato.GoLib.Outcome.{panic}
use vault_autounseal_operato.Client.Submission.{keys_sent}
use vault_autounseal_operato.Main.{operator_reconciler}
use vault_autounseal_operato.Main.Life.{Turn, serve, allowances, serve-Safe}
use vault_autounseal_operato.Tests.Controller.{demo_kube, demo_request, demo_kube-KubeReturns}
use vault_autounseal_operato.Tests.Fixtures.{
  same_bytes, forever, willing_package, willing_package-Returns, two_key_server, sealed_world,
}

abbrev demo_turn : ℕ → Turn
demo_turn pause = record { pause = pause; ctx = forever; request = demo_request; kube = demo_kube }

abbrev demo_turns : List Turn
demo_turns = demo_turn 0 ∷ demo_turn 3_600_000_000_000 ∷ []

serve-Safe_example :
    let out =
      serve two_key_server
        (operator_reconciler same_bytes willing_package)
        demo_turns
        sealed_world in
    All (λ result. result ≢ panic) out.0
    × (length (keys_sent out.1.trace) ≤ length (keys_sent []) + allowances demo_turns)
serve-Safe_example =
    serve-Safe two_key_server same_bytes willing_package willing_package-Returns demo_turns
      sealed_world (demo_kube-KubeReturns, (demo_kube-KubeReturns, tt))
