-- ===== src/Resolver/Errors.antt =====
-- rust_backend/crates/providers/src/resolver.rs: the errors of the resolver and of the clients that
-- share it.
use spoti_flac_mobile.Prelude.Text.{Text}

pub data ResolverError : Type 0 where
  failed transport cancelled : Text → ResolverError
  closed busy : ResolverError
