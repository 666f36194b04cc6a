-- ===== src/Usb/Descriptors/Formats.antt =====
-- rust_backend/crates/mobile/src/usb_audio/descriptors.rs: `native_encoding` and `formats`, the
-- output formats of a device for a stream.
use spoti_flac_mobile.Prelude.{
  ℕ, Bool, true, false, Option, none, some, List, [], ◌∷◌, ◌&&◌, ◌||◌, not, ◌==◌, ltb, leb, ◌*◌,
  ◌/◌, ◌+◌, if◌then◌else◌,
}
use spoti_flac_mobile.Usb.Descriptors.{Alternate, Device}

pub data Encoding : Type 0 where
  pcm dop dsd_be dsd_le : Encoding

pub record UsbOutputFormat : Type 0 where
  pub sample_rate : ℕ
  pub channels : ℕ
  pub bits : ℕ
  pub subslot : ℕ
  pub encoding : Encoding

-- The arguments of `formats` beside the device.
pub record Stream : Type 0 where
  pub rate : ℕ
  pub channels : ℕ
  pub bits : ℕ
  pub dsd : Bool
  pub dop : Bool

-- 0x16d0:0x071a, 0x2772:0x0230 and 0x20b1:0x3089.
unfoldable pub native_encoding : Device → Alternate → Option Encoding
native_encoding device a =
    let v = device.vendor in
    let p = device.product in
    let r = device.revision in
    if not a.uac2 || not (a.subslot == 4)
    then none
    else if v == 5840 && p == 1818 && a.alternate == 2 && r == 409
    then some dsd_le
    else if v == 5840 && p == 1818 && a.alternate == 2 && (r == 411 || r == 515)
    then some dsd_be
    else if (v == 10098 && p == 560 || v == 8369 && p == 12425) && a.alternate == 2
    then some dsd_be
    else none

-- The rate on the wire, the encoding and the precision, when the alternate can carry the stream.
unfoldable pub wire : Stream → Option Encoding → Alternate → Option (ℕ × Encoding × ℕ)
wire s native a =
    if s.dsd
    then elim native [
      | some encoding ↦ some (s.rate / 32, encoding, 1)
      | none ↦
          if s.dop && a.pcm && leb 24 a.bits && leb 3 a.subslot
          then some (s.rate / 16, dop, 24)
          else none
    ]
    else elim native [
      | some encoding ↦ none
      | none ↦
          if a.pcm && (s.bits == 16 || s.bits == 24 || s.bits == 32) && leb s.bits a.bits
          then some (s.rate, pcm, a.bits)
          else none
    ]

abbrev pub in_rates : ℕ → List (ℕ × ℕ) → Bool
in_rates rate [] = false
in_rates rate ((lo, hi) ∷ rates) = (leb lo rate && leb rate hi) || in_rates rate rates

-- The body of the loop for one alternate: the format that it adds.
unfoldable pub format_of : Device → Stream → Alternate → Option UsbOutputFormat
format_of device s a =
    if not (a.channels == s.channels)
      || not (s.channels == 1 || s.channels == 2)
      || not (leb 2 a.subslot && leb a.subslot 4)
    then none
    else elim (wire s (native_encoding device a) a) [
      | none ↦ none
      | some (rate, encoding, precision) ↦
          if rate == 0
            || ltb (a.subslot * 8) a.bits
            || (a.uac2 && a.clock == 0)
            || (not a.uac2 && not (in_rates rate a.rates))
          then none
          else some (record {
            sample_rate = rate;
            channels = s.channels;
            bits = precision;
            subslot = a.subslot;
            encoding = encoding;
          })
    ]

abbrev is_native : Encoding → Bool
is_native pcm = false
is_native dop = false
is_native dsd_be = true
is_native dsd_le = true

-- The key of the sort as one number: native DSD first, then the narrower subslot, a `u8`.
abbrev pub sort_key : Alternate × UsbOutputFormat → ℕ
sort_key x = (if is_native (x.1.encoding) then 0 else 256) + x.1.subslot

-- `sort_by_key`, which is stable.
unfoldable pub insert_sorted :
    Alternate × UsbOutputFormat
    → List (Alternate × UsbOutputFormat)
    → List (Alternate × UsbOutputFormat)
insert_sorted x [] = x ∷ []
insert_sorted x (y ∷ ys) =
    let rest = insert_sorted x ys in if leb (sort_key x) (sort_key y) then x ∷ y ∷ ys else y ∷ rest

abbrev pub add_offer :
    Alternate
    → Option UsbOutputFormat
    → List (Alternate × UsbOutputFormat)
    → List (Alternate × UsbOutputFormat)
add_offer a none rest = rest
add_offer a (some f) rest = insert_sorted (a, f) rest

unfoldable pub formats_of : Device → Stream → List Alternate → List (Alternate × UsbOutputFormat)
formats_of device s [] = []
formats_of device s (a ∷ alternates) =
    let rest = formats_of device s alternates in add_offer a (format_of device s a) rest

unfoldable pub formats : Device → Stream → List (Alternate × UsbOutputFormat)
formats device s = formats_of device s device.alternates
