-- ===== src/Controller.antt =====
-- pkg/controller/vaultunsealconfig_controller.go, over the types of pkg/api/v1/types.go.
pub mod Types
pub mod Repository
pub mod Instance
pub mod Status
pub mod Reconcile
pub mod Pods
