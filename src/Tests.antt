-- ===== src/Tests.antt =====
-- Runs on concrete inputs, and the theorems of the library applied to them.
mod Auth
mod Cancellation
mod Deezer
mod Lyrics
mod Network
mod Progress
mod Usb
mod Resolver
mod Segments
mod Flow
mod Downloads
mod Reporter
mod Extensions
mod AppVersion
mod Framing
mod Descriptors
