-- ===== src/Logging.antt =====
-- pkg/logging/logger.go: the configuration of the logger. Package zap is not in the repository: an encoder
-- is the kind that is asked of it, with the keys and formats of its configuration, and a logger is the
-- options that it is made from. The environment is a function from names to values, empty where unset.
pub mod Accepted
use vault_autounseal_operato.Prelude.{
  Bool, true, false, ◌||◌, Option, none, some, List, [], ◌∷◌, if◌then◌else◌,
}
use vault_autounseal_operato.GoLib.Strings.{Bytes, codes, bytes_eq}
use vault_autounseal_operato.GoLib.Outcome.{Outcome, ok, err, panic, ◌>>=◌}

pub record LoggerConfig : Type 0 where
  pub level : Bytes
  pub development : Bool
  pub encoder : Bytes

pub data Level : Type 0 where
  debug_level info_level warn_level error_level fatal_level : Level

-- The keys of zapcore.EncoderConfig, and whether levels are coloured. Both encoders end lines, and write
-- times, durations and callers, alike.
pub record EncoderConfig : Type 0 where
  pub time_key : Bytes
  pub level_key : Bytes
  pub name_key : Bytes
  pub caller_key : Bytes
  pub message_key : Bytes
  pub stacktrace_key : Bytes
  pub coloured_levels : Bool

pub data Encoder : Type 0 where
  json_encoder console_encoder : EncoderConfig → Encoder

-- The errors, under "invalid log level" and "invalid encoder" in SetupLogger.
pub data LoggingError : Type 0 where
  unknown_log_level unknown_encoder : Bytes → LoggingError

-- zap.Options; `iso8601_times` is set for production logs.
pub record Logger : Type 0 where
  pub development : Bool
  pub level : Level
  pub encoder : Encoder
  pub iso8601_times : Bool

unfoldable pub parse_log_level : Bytes → Outcome LoggingError Level
parse_log_level level =
    if bytes_eq level (codes "debug")
    then ok debug_level
    else if bytes_eq level (codes "info")
    then ok info_level
    else if bytes_eq level (codes "warn") || bytes_eq level (codes "warning")
    then ok warn_level
    else if bytes_eq level (codes "error")
    then ok error_level
    else if bytes_eq level (codes "fatal")
    then ok fatal_level
    else err (unknown_log_level level)

abbrev json_config : EncoderConfig
json_config = record {
  time_key = codes "timestamp";
  level_key = codes "level";
  name_key = codes "logger";
  caller_key = codes "caller";
  message_key = codes "message";
  stacktrace_key = codes "stacktrace";
  coloured_levels = false;
}

abbrev console_config : EncoderConfig
console_config = record {
  time_key = codes "T";
  level_key = codes "L";
  name_key = codes "N";
  caller_key = codes "C";
  message_key = codes "M";
  stacktrace_key = codes "S";
  coloured_levels = true;
}

unfoldable pub parse_encoder : Bytes → Outcome LoggingError Encoder
parse_encoder encoder =
    if bytes_eq encoder (codes "json")
    then ok (json_encoder json_config)
    else if bytes_eq encoder (codes "console")
    then ok (console_encoder console_config)
    else err (unknown_encoder encoder)

abbrev made_logger : LoggerConfig → Level → Encoder → Logger
made_logger config level encoder = record {
  development = config.development;
  level = level;
  encoder = encoder;
  iso8601_times = if config.development then false else true;
}

unfoldable pub setup_logger : LoggerConfig → Outcome LoggingError Logger
unfolding parse_log_level parse_encoder
setup_logger config = do
  level ← parse_log_level config.level
  encoder ← parse_encoder config.encoder
  ok (made_logger config level encoder)

-- The logger that was made is dropped: the global one, `g`, stays.
unfoldable pub setup_global_logger :
    {G : Type 0} → LoggerConfig → G → Outcome LoggingError (Unit {0}) × G
unfolding setup_logger
setup_global_logger config g = (setup_logger config >>= λ logger. ok tt, g)

abbrev pub Environment : Type 0
Environment = Bytes → Bytes

-- LogLevelFromEnv, and EncoderFromEnv with the same body.
unfoldable pub from_env : Environment → Bytes → Bytes → Bytes
from_env env name default_value = elim (env name) [ [] ↦ default_value | c ∷ cs ↦ c ∷ cs ]

abbrev pub is_development_from_env : Environment → Bytes → Bool
is_development_from_env env name =
    bytes_eq (env name) (codes "true") || bytes_eq (env name) (codes "1")
