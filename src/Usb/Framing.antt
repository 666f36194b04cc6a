-- ===== src/Usb/Framing.antt =====
-- rust_backend/crates/mobile/src/usb_audio/framing.rs: `finish_transfer`, which fills the rest of a
-- transfer and marks DSD over PCM. The format is one of `formats`, whose frames are not empty.
pub mod Markers
use spoti_flac_mobile.Prelude.{
  ℕ, zero, suc, ◌-◌, ◌*◌, ◌/◌, ◌+◌, ◌≡◌, ◌<◌, ◌≤◌, refl, Bool, true, false, List, [], ◌∷◌, ◌++◌,
  ◌==◌, ltb, if◌then◌else◌, length, take, drop, replicate, set, arith, length-append, length-take,
  length-drop, length-replicate, length-set, get_or, Option, none, not, some,
}
use spoti_flac_mobile.Usb.Descriptors.Formats.{Encoding, UsbOutputFormat}

abbrev pub silence : Encoding → ℕ
silence Encoding.pcm = 0
silence Encoding.dop = 105
silence Encoding.dsd_be = 105
silence Encoding.dsd_le = 105

-- One sample: the marker in its last byte, and the padding of a 32-bit one.
unfoldable pub mark_sample : ℕ → ℕ → List ℕ → List ℕ
mark_sample subslot marker sample =
    let marked = set sample (subslot - 1) marker in if subslot == 4 then set marked 0 0 else marked

-- The samples of a frame; `chunks_exact_mut` leaves what is shorter.
unfoldable pub mark_frame : ℕ → ℕ → ℕ → List ℕ → List ℕ
mark_frame zero subslot marker bytes = bytes
mark_frame (suc samples) subslot marker bytes =
    mark_sample subslot marker (take subslot bytes)
    ++ mark_frame samples subslot marker (drop subslot bytes)

-- `marker ^= 0xff` of a byte.
abbrev pub flip : ℕ → ℕ
flip marker = 255 - marker

-- The whole frames, `frames` of them; the marker changes with each.
unfoldable pub mark_frames : ℕ → ℕ → ℕ → ℕ → List ℕ → List ℕ × ℕ
mark_frames zero subslot channels marker bytes = (bytes, marker)
mark_frames (suc frames) subslot channels marker bytes =
    let rest =
      mark_frames frames subslot channels (flip marker) (drop (subslot * channels) bytes) in
    (mark_frame channels subslot marker (take (subslot * channels) bytes) ++ rest.0, rest.1)

abbrev pub is_dop : Encoding → Bool
is_dop Encoding.dop = true
is_dop e = false

-- `none` is a panic: more real bytes than the transfer has, or an empty frame or sample.
unfoldable pub finish_transfer : List ℕ → ℕ → UsbOutputFormat → ℕ → Option (List ℕ × ℕ)
finish_transfer bytes real_bytes format marker =
    let filled =
      take real_bytes bytes ++ replicate (length bytes - real_bytes) (silence format.encoding) in
    let frame = format.subslot * format.channels in
    if ltb (length bytes) real_bytes
    then none
    else if not (is_dop format.encoding)
    then some (filled, marker)
    else if frame == 0
    then none
    else some (mark_frames (length bytes / frame) format.subslot format.channels marker filled)
