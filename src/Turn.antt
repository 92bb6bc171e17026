-- ===== src/Turn.antt =====
-- The turn lifecycle (internal/turn/lifecycle): which execution owns a session, in which phase.
pub mod Input
pub mod State
pub mod Attempt
pub mod Confirmation
pub mod Ops
pub mod Channels
pub mod Invariant
pub mod Frame
pub mod Snapshot
pub mod Phases
pub mod Runs
pub mod Merge
pub mod Waits
pub mod Owners
mod Examples
