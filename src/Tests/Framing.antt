-- ===== src/Tests/Framing.antt =====
-- A test of the repository and a witness for the frames of a transfer.
use spoti_flac_mobile.Prelude.{
  ℕ, List, [], ◌∷◌, ◌≡◌, refl, some, length, get_elem?, ◌+◌, ◌*◌, ◌-◌, ◌/◌, arith, replicate,
}
use spoti_flac_mobile.Usb.Framing.{finish_transfer, mark_frames, mark_frame, mark_sample}
use spoti_flac_mobile.Usb.Framing.Markers.{finish_transfer-dop, marker_after}
use spoti_flac_mobile.Usb.Descriptors.Formats.{Encoding, UsbOutputFormat}

abbrev dop_24 : UsbOutputFormat
dop_24 = record {
  sample_rate = 176400;
  channels = 2;
  bits = 24;
  subslot = 3;
  encoding = Encoding.dop;
}

abbrev silent_12 : List ℕ
silent_12 = replicate 12 0

-- The second transfer of `dop_markers_alternate_across_transfers_and_underruns`.
finish_transfer_test :
    finish_transfer silent_12 0 dop_24 250
    ≡ some (105 ∷ 105 ∷ 250 ∷ 105 ∷ 105 ∷ 250 ∷ 105 ∷ 105 ∷ 5 ∷ 105 ∷ 105 ∷ 5 ∷ [], 250)
unfolding finish_transfer mark_frames mark_frame mark_sample
finish_transfer_test = refl

finish_transfer-dop_example :
    (out : List ℕ) × (finish_transfer silent_12 0 dop_24 250
      ≡ some (out, marker_after (length silent_12 / (3 * 2)) 250))
    × (length out ≡ length silent_12)
    × (get_elem? out (1 * (3 * 2) + 1 * 3 + (3 - 1)) ≡ some (marker_after 1 250))
finish_transfer-dop_example =
    finish_transfer-dop silent_12 0 250 1 1 dop_24 refl (omega arith) (omega arith) (omega arith)
      (omega arith) (omega arith)
