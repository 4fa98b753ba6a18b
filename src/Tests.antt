-- ===== src/Tests.antt =====
-- Runs on concrete inputs, and the theorems of the library applied to them.
pub mod Fixtures
pub mod Validator
pub mod Unseal
pub mod Client
pub mod Controller
pub mod Pods
pub mod Operator
pub mod Lock
pub mod Secrecy
pub mod Unsealing
mod Resource
mod Main
mod Mocks
mod Harness
mod Logging
mod Life
