-- ===== src/Tests/Main.antt =====
-- main.go with a cluster of which only the manager's start fails.
use vault_autounseal_operato.Prelude.{ℕ, ◌≡◌, refl, true, [], ◌∷◌}
use vault_autounseal_operato.Errors.{external}
use vault_autounseal_operato.Client.Api.{success, failure}
use vault_autounseal_operato.Main.{
  Cluster, new_operator_config, parse_flags, settings, leader_elect, main, run_main, run,
  setup_controllers, setup_health_checks, set_flags, set_flag,
}
use vault_autounseal_operato.Main.Exit.{full_run}
use vault_autounseal_operato.Tests.Fixtures.{same_bytes, forever, willing_package}

abbrev halting : Cluster ℕ ℕ ℕ
halting = record {
  get_config = success 0;
  new_manager = λ kube_config options. success 1;
  complete = λ mgr reconciler. success tt;
  add_healthz_check = λ mgr name. success tt;
  add_readyz_check = λ mgr name. success tt;
  start = λ mgr ctx. failure (external 7);
}

-- All calls were made, the last one failed.
halting_exits :
    main halting same_bytes willing_package forever (settings (leader_elect true ∷ []))
    ≡ (1, full_run (record new_operator_config { enable_leader_election = true }))
unfolding main parse_flags set_flags set_flag run_main run setup_controllers setup_health_checks
halting_exits = refl
