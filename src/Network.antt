-- ===== src/Network.antt =====
-- rust_backend/crates/network/src: what the library sends and accepts over HTTP.
pub mod Query
pub mod Url
