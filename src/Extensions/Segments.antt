-- ===== src/Extensions/Segments.antt =====
-- rust_backend/crates/extensions/src/download: the transfer of a resource in segments, with
-- segment_store.rs in Stage and Store.
pub mod Stage
pub mod Store
pub mod Writing
pub mod Assembled
pub mod Append
pub mod Resume
pub mod Reopen
pub mod Fetch
pub mod Bodies
pub mod Attempts
pub mod Fetched
pub mod Jobs
pub mod Counts
pub mod Steps
pub mod Effects
pub mod Places
pub mod Handed
pub mod Sound
pub mod Running
pub mod Stepping
pub mod Complete
pub mod Life
pub mod Published
pub mod Steady
pub mod Lasting
pub mod Delivered
