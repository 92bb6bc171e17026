-- ===== src/Session.antt =====
-- The sessions (internal/session).
pub mod Binding
mod Examples
