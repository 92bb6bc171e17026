-- ===== src/Media.antt =====
-- Media objects (internal/media).
pub mod Locks
mod Examples
