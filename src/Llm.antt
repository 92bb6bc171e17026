-- ===== src/Llm.antt =====
-- The language-model layer (internal/llm): message segments and the retry loop.
pub mod Segment
pub mod Retry
mod Examples
