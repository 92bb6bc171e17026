-- ===== src/Elyph.antt =====
-- The ELyph language of skills and tasks (internal/elyph).
pub mod Syntax
pub mod Parser
pub mod Statements
pub mod Document
pub mod Effects
pub mod Lines
pub mod Header
pub mod Steps
pub mod Accepted
pub mod Promises
mod Examples
