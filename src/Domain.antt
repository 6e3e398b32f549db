-- ===== src/Domain.antt =====
-- packages/core/src/domain/states.ts: the state literals, one enumeration for each.
mod Execution
mod Lifecycle
mod Runs
mod Policy
mod Planning
unfoldable pub use Execution.*
unfoldable pub use Lifecycle.*
unfoldable pub use Runs.*
unfoldable pub use Policy.*
unfoldable pub use Planning.*
