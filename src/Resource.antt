-- ===== src/Resource.antt =====
-- pkg/api/v1/types.go, and the same file under pkg/operator/crd: the resource as it stands in memory,
-- and the functions that copy it deeply.
pub mod Memory
pub mod DeepCopy
pub mod Shape
