-- ===== src/Mocks/Metrics.antt =====
-- MockClientMetrics of pkg/vault/mocks.go: what was recorded, in the order of the calls. The getters
-- return copies of the three lists.
use vault_autounseal_operato.Prelude.{ℕ, Bool, List, [], ◌∷◌, ◌++◌}
use vault_autounseal_operato.GoLib.Strings.{Bytes}
use vault_autounseal_operato.Strategy.World.{
  Event, asked_seal_status, sent_key, asked_init_status, asked_health, unseal_attempt,
  seal_status_check, health_check, cleared_token,
}

-- UnsealAttemptMetric, HealthCheckMetric and SealStatusCheckMetric have the same fields.
pub record Metric : Type 0 where
  pub endpoint : Bytes
  pub success : Bool
  pub duration : ℕ

pub record MockClientMetrics : Type 0 where
  pub unseal_attempts : List Metric
  pub health_checks : List Metric
  pub seal_status_checks : List Metric

-- NewMockClientMetrics, and Reset.
abbrev pub new_mock_client_metrics : MockClientMetrics
new_mock_client_metrics = record {
  unseal_attempts = [];
  health_checks = [];
  seal_status_checks = [];
}

abbrev metric : Bytes → Bool → ℕ → Metric
metric endpoint success duration = record {
  endpoint = endpoint;
  success = success;
  duration = duration;
}

unfoldable pub record_unseal_attempt : Bytes → Bool → ℕ → MockClientMetrics → MockClientMetrics
record_unseal_attempt endpoint success duration m = record m {
  unseal_attempts = m.unseal_attempts ++ metric endpoint success duration ∷ [];
}

unfoldable pub record_health_check : Bytes → Bool → ℕ → MockClientMetrics → MockClientMetrics
record_health_check endpoint success duration m = record m {
  health_checks = m.health_checks ++ metric endpoint success duration ∷ [];
}

unfoldable pub record_seal_status_check : Bytes → Bool → ℕ → MockClientMetrics → MockClientMetrics
record_seal_status_check endpoint success duration m = record m {
  seal_status_checks = m.seal_status_checks ++ metric endpoint success duration ∷ [];
}

-- The calls that a trace shows, made on the mock from the oldest on.
pub recorded : List Event → MockClientMetrics
unfolding record_unseal_attempt record_health_check record_seal_status_check
recorded [] = new_mock_client_metrics
recorded (unseal_attempt endpoint success duration ∷ es) =
    record_unseal_attempt endpoint success duration (recorded es)
recorded (health_check endpoint success duration ∷ es) =
    record_health_check endpoint success duration (recorded es)
recorded (seal_status_check endpoint success duration ∷ es) =
    record_seal_status_check endpoint success duration (recorded es)
recorded (asked_seal_status ∷ es) = recorded es
recorded (sent_key key ∷ es) = recorded es
recorded (asked_init_status ∷ es) = recorded es
recorded (asked_health ∷ es) = recorded es
recorded (cleared_token ∷ es) = recorded es
