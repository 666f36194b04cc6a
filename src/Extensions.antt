-- ===== src/Extensions.antt =====
-- rust_backend/crates/extensions/src: the host of the providers' scripts.
pub mod Auth
pub mod Segments
pub mod TransferPolicy
