-- ===== src/Strategy.antt =====
-- pkg/vault/strategy.go, with the interfaces of pkg/vault/interfaces.go that it uses.
pub mod World
pub mod Policy
pub mod Interface
pub mod Default
pub mod Retry
use vault_autounseal_operato.Strategy.Interface.{
  UnsealStrategy, default_strategy, parallel_strategy, retry_strategy, UnsealCall,
}
use vault_autounseal_operato.Strategy.Default.{default_unseal}
use vault_autounseal_operato.Strategy.Retry.{retry_unseal}
use vault_autounseal_operato.Prelude.{ℤ, pos, leb_ℤ, if◌then◌else◌}

-- NewParallelUnsealStrategy.
abbrev pub new_parallel_unseal_strategy : {S : Type 0} → UnsealStrategy S → ℤ → UnsealStrategy S
new_parallel_unseal_strategy base max_concurrency =
    parallel_strategy base (if leb_ℤ max_concurrency (pos 0) then pos 5 else max_concurrency)

-- The method Unseal of each implementation. The parallel strategy hands the call on.
unfoldable pub unseal : {S : Type 0} → UnsealStrategy S → UnsealCall S
unseal (default_strategy validator has_metrics) = default_unseal validator has_metrics
unseal (parallel_strategy base max_concurrency) = unseal base
unseal (retry_strategy base policy) = retry_unseal (unseal base) policy
