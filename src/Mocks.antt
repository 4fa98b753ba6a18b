-- ===== src/Mocks.antt =====
-- pkg/vault/mocks.go: the mock client, which keeps the state of the server that it stands for, the mock
-- metrics and the mock factory. Calls are taken one at a time, under the mutex. GetSealStatus, Unseal
-- and HealthCheck return a pointer to the mock's own response, which is given here as it then reads.
pub mod Client
pub mod Metrics
pub mod Factory
