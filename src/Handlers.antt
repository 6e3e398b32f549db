-- ===== src/Handlers.antt =====
-- packages/core/src/commands/handlers: the handlers that move a feature run.
pub mod Steps
pub mod Transition
pub mod Findings
pub mod Selection
pub mod Coding
pub mod Github
pub mod Reviews
pub mod Human
pub mod Skipping
pub mod Disagreement
pub mod Merging
pub mod Evolution
pub mod Cascade
pub mod Attempts
pub mod Waiting
pub mod Outcome
pub mod Evolving
pub mod Moves
pub mod Guards
pub mod Commands
pub mod Histories
