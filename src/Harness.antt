-- ===== src/Harness.antt =====
-- pkg/vault/integration_framework.go: the harness of the integration tests, with its circuit breaker, its
-- health checks and its runner.
pub mod Breaker
pub mod Health
pub mod Runner
