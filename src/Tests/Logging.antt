-- ===== src/Tests/Logging.antt =====
-- The logger at concrete configurations.
use vault_autounseal_operato.Prelude.{ℕ, ◌≡◌, false, ◌&&◌}
use vault_autounseal_operato.GoLib.Strings.{codes}
use vault_autounseal_operato.Logging.{LoggerConfig, setup_logger, setup_global_logger}
use vault_autounseal_operato.Logging.Accepted.{
  one_of, level_names, encoder_names, succeeded, setup_logger-accepts,
}

abbrev warning_json : LoggerConfig
warning_json = record { level = codes "warning"; development = false; encoder = codes "json" }

setup_logger-accepts_example :
    (succeeded (setup_logger warning_json)
      ≡ (one_of (codes "warning") level_names && one_of (codes "json") encoder_names))
    × (succeeded (setup_global_logger {G = ℕ} warning_json 7).0
        ≡ (one_of (codes "warning") level_names && one_of (codes "json") encoder_names))
    × ((setup_global_logger {G = ℕ} warning_json 7).1 ≡ 7)
setup_logger-accepts_example = setup_logger-accepts {G = ℕ} warning_json 7
