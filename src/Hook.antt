-- ===== src/Hook.antt =====
-- The hooks (internal/hook).
pub mod Block
mod Examples
