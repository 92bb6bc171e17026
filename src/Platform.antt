-- ===== src/Platform.antt =====
-- The shared parts of the platforms (internal/platform).
pub mod Backoff
pub mod Examples
