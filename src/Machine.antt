-- ===== src/Machine.antt =====
-- packages/core/src/statemachine: the transition matrices and the validator over them.
pub mod Defs
pub mod Endings
pub mod Feature
pub mod Lifecycle
pub mod Runs
pub mod Validator
pub mod Graph
