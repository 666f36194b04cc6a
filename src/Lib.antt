-- ===== src/Lib.antt =====
-- Verification of the Rust backend of SpotiFLAC Mobile (rust_backend/crates).
--
-- The backend is one library behind the Flutter app. Its shared state is kept in registries that
-- many threads use: `core` cancels requests and reports the progress of downloads, `providers`
-- resolves and fetches metadata, `network` makes the requests, `extensions` runs the providers'
-- scripts, `mobile` is the interface of the app and drives an exclusive USB audio output.
--
-- - Cancellation: rust_backend/crates/core/src/cancellation.rs. `State`, `Shared` and `Entry` are
--   records, `acquire`, `cancel`, `cancel_active`, `is_cancelled`, `reset_if_idle`, `shutdown` and
--   the lease's `release`, `check_active`, `wait_cancelled` are functions on the shared state. A
--   shared flag is a cell of a store. Cancellation/World is the step relation of any number of
--   callers; Cancellation/World/Keeps its invariant, Cancellation/Signals, Retry, Shutdown and
--   Waiting what the callers see. Each method holds the lock, so a step is a whole method. The
--   counts of references are `usize`: the invariant is for fewer than 2^64 leases.
-- - Progress: rust_backend/crates/core/src/progress/mod.rs (Item, Registry, Reads) and
--   rust_backend/crates/core/src/progress/subscription.rs (Subscription). Steps is the relation of
--   the mutating calls; Order, Keeps, Updated and Invariant are about the sequence numbers, Sync,
--   Carried and CatchUp about the deltas. The sequence number is an `i64` that wraps; the theorems
--   on deltas are for registries whose number has not reached `i64::MAX`. `f64` is the parameter
--   `Floats`, its operations unspecified. A JSON document is a tree; serde_json, which prints it,
--   is not modelled. Progress/Reporter is rust_backend/crates/core/src/progress/reporter.rs, whose
--   reporters thin out what they pass on; Reporter/Fresh is one report, Reporter/Counted any calls
--   of a writer.
-- - Downloads: `DownloadState` of rust_backend/crates/core/src/downloads.rs, over both registries.
-- - AppVersion: rust_backend/crates/core/src/app_version.rs, with `str::trim` as a parameter.
-- - Resolver/Rate: rust_backend/crates/providers/src/resolver/rate.rs, the limiter that keeps the
--   requests to a platform apart; Rate/Window is about any number of threads, Rate/Waiting about
--   one wait.
-- - Extensions/Auth: rust_backend/crates/extensions/src/auth.rs, the registry of the
--   authentications, with the readings of the clock and the random states as arguments.
--   Auth/Callbacks is the pending callbacks, Auth/Calls has the calls in any order, Auth/Exchange
--   is the exchange of a code for tokens in auth/client.rs, and Auth/Flow the two ways to start a
--   flow, in Tokens the whole exchange, and in Methods the methods of scripts, with `as_str` and
--   `as_object` of a document as parameters, over Network/Url:
--   rust_backend/crates/network/src/url.rs, the writing of a URL, and `validate_auth_url` of
-- client.rs, whose parse and look-ups are arguments.
-- - Extensions/TransferPolicy: rust_backend/crates/extensions/src/transfer_policy.rs, what a
--   manifest may ask of the download manager. The targets are those with 64-bit integers.
-- - Extensions/Segments: rust_backend/crates/extensions/src/download/segments.rs and
--   segment_store.rs, the transfer of a resource in segments. Store and Writing are the staged
--   output and its checkpoint, with an outcome for each call of the file system; Jobs is the
--   thread, Steps the thread and its workers in any order, Fetch a worker's attempts, Life any
--   number of transfers and stops of the process. A resource is the list of its segments, found by
--   the fingerprint of their addresses: the servers' answers do not change and SHA-256 tells lists
--   apart. Sizes lie below 2^64.
-- - Deezer/Cache: rust_backend/crates/providers/src/deezer/cache.rs. Its loop that evicts the
--   oldest entries is BTreeMap/Oldest, which the lyrics share, with fuel for every entry.
--   Deezer/Flights is `coalesced`, a step relation over any callers, one lock of the flights a
--   step.
-- - Lyrics/Cache: rust_backend/crates/providers/src/lyrics/cache.rs; Cache/Writer is the thread
--   that writes the snapshots, a step relation beside the calls, with what the calls ask to be
--   written kept apart from what the code has pending.
-- - Network/Query: rust_backend/crates/network/src/query.rs, on bytes.
-- - Usb: rust_backend/crates/mobile/src/usb_audio. Control is the transfer interface of volume.rs
--   over a device that is any function of the transfers so far; Feature the search for the Feature
--   Unit; Range, Volume and Volume/Open the hardware volume; Volume/Emits the rules by which
--   Volume/Writes, Startup, Quiet and Setting prove what is written. A volume in dB is an exact
--   dyadic number, which an `f64` is. Descriptors is descriptors.rs: the parser, and in
--   Descriptors/Formats the choice of formats. Framing is framing.rs, with the markers of DSD over
--   PCM in Framing/Markers.
-- - BTreeMap and HashMap state the contracts of the standard library's maps. Prelude has numbers,
--   texts, results and the 64-bit wrap.
-- - Tests has tests and the concrete runs of the theorems.
--
-- A loop that waits reads a list of observations, one for each time it is woken: the clock and the
-- state it then sees. The loops over descriptors take fuel of one more than the number of bytes,
-- and each descriptor has two bytes or more; the search along the terminals of a device takes 257,
-- since identities are `u8` and none is visited twice.
--
-- Not modelled: the texts of errors, locks and threads below the level of whole methods, JSON
-- printing, the client of the network, the scripts' runtime, databases, media containers and tags,
-- and the apps around the library.
pub mod Prelude
pub mod BTreeMap
pub mod HashMap
pub mod Cancellation
pub mod Progress
pub mod Downloads
pub mod AppVersion
pub mod Usb
pub mod Resolver
pub mod Extensions
pub mod Network
pub mod Deezer
pub mod Lyrics
mod Tests
