-- ===== src/Fileops.antt =====
-- File text and edit batches (internal/fileops).
--
-- A file's text is the list of its bytes, and positions are byte offsets, as in the source.
pub mod Lines
mod Examples
pub mod Match
pub mod Edit
pub mod Diff
pub mod Rollback
