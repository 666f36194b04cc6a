-- ===== src/Tests/Descriptors.antt =====
-- Tests and witnesses for the descriptors of a USB audio device, with the bytes of the repository's
-- own test of a UAC1 headset.
use spoti_flac_mobile.Prelude.{ℕ, List, [], ◌∷◌, ◌≡◌, refl, true, false, In, ◌↔◌}
use spoti_flac_mobile.Prelude.Result.{ok}
use spoti_flac_mobile.HashMap.{get}
use spoti_flac_mobile.Usb.Descriptors.{
  parse, parse_loop, Device, Alternate, step, finish, on_interface, on_general, on_format,
  on_endpoint, on_rate_control, resolve_clocks,
}
use spoti_flac_mobile.Usb.Descriptors.Formats.{
  Stream, UsbOutputFormat, Encoding, formats, formats_of, format_of, wire, native_encoding,
  insert_sorted,
}
use spoti_flac_mobile.Usb.Descriptors.Playable.{formats_iff, IsPlayable, Carries}

abbrev raw : List ℕ
raw =
    9 ∷ 4 ∷ 0 ∷ 0 ∷ 0 ∷ 1 ∷ 1 ∷ 0 ∷ 0 ∷ 9 ∷ 4 ∷ 1 ∷ 1 ∷ 1 ∷ 1 ∷ 2 ∷ 0 ∷ 0 ∷ 7 ∷ 36 ∷ 1 ∷ 1 ∷ 1 ∷ 1
    ∷ 0 ∷ 11 ∷ 36 ∷ 2 ∷ 1 ∷ 2 ∷ 2 ∷ 16 ∷ 1 ∷ 128 ∷ 187 ∷ 0 ∷ 9 ∷ 5 ∷ 1 ∷ 13 ∷ 192 ∷ 0 ∷ 1 ∷ 0 ∷ 0
    ∷ 7 ∷ 37 ∷ 1 ∷ 0 ∷ 0 ∷ 0 ∷ 0 ∷ []

abbrev headset : Alternate
headset = record {
  control = 0;
  interface = 1;
  alternate = 1;
  uac2 = false;
  terminal = 1;
  clock = 0;
  channels = 2;
  bits = 16;
  subslot = 2;
  pcm = true;
  rates = (48000, 48000) ∷ [];
  endpoints =
      (record {
        address = 1;
        attributes = 13;
        max_packet = 192;
        interval = 1;
        sync_address = 0;
        rate_control = false;
      })
      ∷ [];
}

abbrev device : Device
device = record { vendor = 0; product = 0; revision = 0; alternates = headset ∷ [] }

parse_test : parse raw ≡ ok device
unfolding parse parse_loop step finish on_interface on_general on_format on_endpoint on_rate_control
    resolve_clocks get
parse_test = refl

abbrev stream : Stream
stream = record { rate = 48000; channels = 2; bits = 16; dsd = false; dop = false }

abbrev format : UsbOutputFormat
format = record {
  sample_rate = 48000;
  channels = 2;
  bits = 16;
  subslot = 2;
  encoding = Encoding.pcm;
}

formats_test : formats device stream ≡ (headset, format) ∷ []
unfolding formats formats_of format_of wire native_encoding insert_sorted
formats_test = refl

formats_iff_example : In (headset, format) (formats device stream) ↔ (
    In headset device.alternates
    × IsPlayable device stream headset format
    × Carries device stream headset format)
formats_iff_example = formats_iff device stream headset format
