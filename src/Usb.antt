-- ===== src/Usb.antt =====
-- rust_backend/crates/mobile/src/usb_audio: the hardware volume of an exclusive USB output, the
-- descriptors of its device and the frames of a transfer.
pub mod Control
pub mod Range
pub mod Feature
pub mod Volume
pub mod Descriptors
pub mod Framing
