-- ===== src/Deezer.antt =====
-- rust_backend/crates/providers/src/deezer: the client of Deezer's metadata.
pub mod Cache
pub mod Flights
