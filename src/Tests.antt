-- ===== src/Tests.antt =====
-- Concrete runs of the program's parts.
pub mod Data
pub mod Commands
pub mod Parts
pub mod Queues
pub mod Reconciling
pub mod Clarifying
pub mod Leasing
pub mod Planning
