-- ===== src/Auth.antt =====
-- packages/core/src/auth: authorization and redaction.
pub mod Guards
pub mod Roles
pub mod Redaction
pub mod Secrets
