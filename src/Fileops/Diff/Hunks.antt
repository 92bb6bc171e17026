-- ===== src/Fileops/Diff/Hunks.antt =====
-- The hunks of a diff, applied to the old file, give the new one (internal/fileops/diff.go).
pub mod Ranges
pub mod Apply
pub mod Patch
