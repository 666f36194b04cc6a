-- ===== src/Resolver.antt =====
-- rust_backend/crates/providers/src/resolver: the resolver of availability.
pub mod Errors
pub mod Rate
