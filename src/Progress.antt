-- ===== src/Progress.antt =====
-- rust_backend/crates/core/src/progress: the sparse download progress that every consumer shares.
pub mod Item
pub mod Registry
pub mod Reads
pub mod Subscription
pub mod Steps
pub mod Order
pub mod Keeps
pub mod Updated
pub mod Invariant
pub mod Sync
pub mod Carried
pub mod CatchUp
pub mod Reporter
