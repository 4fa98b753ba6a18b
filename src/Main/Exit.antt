-- ===== src/Main/Exit.antt =====
-- How a run of main in src/main.go ends, and what it has done by then.
use vault_autounseal_operato.Prelude.{
  ℕ, suc, ◌-◌, ◌≡◌, ◌⊎◌, Bool, true, false, ◌||◌, List, [], ◌∷◌, drop,
}
use vault_autounseal_operato.GoLib.Strings.{Bytes, codes}
use vault_autounseal_operato.GoLib.Outcome.{Outcome, ok, err}
use vault_autounseal_operato.Strategy.World.{Ctx}
use vault_autounseal_operato.Client.Api.{Reply, success, failure}
use vault_autounseal_operato.Client.Config.{ApiPackage}
use vault_autounseal_operato.Main.{
  OperatorConfig, manager_options, Cluster, Call, asked_config, made_manager, completed_controller,
  added_healthz, added_readyz, started, RunError, operator_reconciler,
}

-- All calls of a run, newest first.
abbrev pub full_run : OperatorConfig → List Call
full_run config =
    started
    ∷ added_readyz (codes "readyz")
    ∷ added_healthz (codes "healthz")
    ∷ completed_controller
    ∷ made_manager (manager_options config)
    ∷ asked_config
    ∷ []

-- How many calls are made of which the first is this one: the later ones follow a success only.
abbrev made_by : {A : Type 0} → (A → ℕ) → Reply A → ℕ
made_by next (success a) = suc (next a)
made_by next (failure e) = 1

abbrev accepts : {A : Type 0} → (A → Bool) → Reply A → Bool
accepts next (success a) = next a
accepts next (failure e) = false

module _ {S Config Manager : Type 0} (cluster : Cluster S Config Manager)
    (unicode_lower : Bytes → Bytes) (api_package : ApiPackage) (ctx : Ctx) where
  -- Whether no call fails.
  abbrev pub all_accepted : OperatorConfig → Bool
  all_accepted config =
      accepts
        (λ kube_config.
          accepts
            (λ mgr.
              accepts
                (λ _.
                  accepts
                    (λ _.
                      accepts (λ _. accepts (λ _. true) (cluster.start mgr ctx))
                        (cluster.add_readyz_check mgr (codes "readyz")))
                    (cluster.add_healthz_check mgr (codes "healthz")))
                (cluster.complete mgr (operator_reconciler unicode_lower api_package)))
            (cluster.new_manager kube_config (manager_options config)))
        cluster.get_config

  -- How many calls there are up to the first that fails.
  abbrev pub calls_made : OperatorConfig → ℕ
  calls_made config =
      made_by
        (λ kube_config.
          made_by
            (λ mgr.
              made_by
                (λ _.
                  made_by
                    (λ _.
                      made_by (λ _. made_by (λ _. 0) (cluster.start mgr ctx))
                        (cluster.add_readyz_check mgr (codes "readyz")))
                    (cluster.add_healthz_check mgr (codes "healthz")))
                (cluster.complete mgr (operator_reconciler unicode_lower api_package)))
            (cluster.new_manager kube_config (manager_options config)))
        cluster.get_config

  -- The calls of the full run up to the first that fails, newest first.
  abbrev pub run_to_failure : OperatorConfig → List Call
  run_to_failure config = drop (6 - calls_made config) (full_run config)

  -- Either all calls were made and none failed, or those up to the first that failed.
  abbrev RunEnds : OperatorConfig → Outcome RunError (Unit {0}) × List Call → Type 0
  RunEnds config out =
      ((all_accepted config ≡ true) × (out ≡ (ok tt, full_run config)))
      ⊎ ((all_accepted config ≡ false) × (e : RunError) × (out ≡ (err e, run_to_failure config)))

  -- The same of the process, of which the flags -version and -health-check are looked at first.
  abbrev pub ProcessEnds : OperatorConfig → ℕ × List Call → Type 0
  ProcessEnds config out =
      ((config.show_version || config.health_check ≡ true) × (out ≡ (0, [])))
      ⊎ ((config.show_version || config.health_check ≡ false)
          × (((all_accepted config ≡ true) × (out ≡ (0, full_run config)))
              ⊎ ((all_accepted config ≡ false) × (out ≡ (1, run_to_failure config)))))
