-- ===== src/Lyrics.antt =====
-- rust_backend/crates/providers/src/lyrics: the lyrics that the providers found.
pub mod Cache
