-- ===== src/Contextmgr.antt =====
-- The context of a conversation (internal/contextmgr).
pub mod Loader
mod Examples
