-- ===== src/Validator.antt =====
-- pkg/vault/validator.go: the default and the strict key validator.
pub mod Pattern
pub mod Default
pub mod Strict
pub mod Secrecy
