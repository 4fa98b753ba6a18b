-- ===== src/Client.antt =====
-- pkg/vault/client.go: the client of one Vault server, and how it is made.
pub mod Api
pub mod Methods
pub mod Config
pub mod Submission
pub mod Lock
pub mod Safety
