-- ===== src/Signal.antt =====
-- The signals (internal/signal).
pub mod Queue
mod Examples
