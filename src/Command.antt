-- ===== src/Command.antt =====
-- packages/core/src/commands: the envelope, the executor and the helpers of the handlers.
pub mod Helpers
pub mod Fence
pub mod Claims
pub mod Text
pub mod Outbox
