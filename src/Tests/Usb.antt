-- ===== src/Tests/Usb.antt =====
-- Tests and witnesses for the hardware volume.
use spoti_flac_mobile.Usb.Volume.Emits.{Grows}
use spoti_flac_mobile.Usb.Volume.Startup.{IsQuiet}
use spoti_flac_mobile.Usb.Volume.Open.{
  open_volume, open_channels, open_channel, read_ranges1, startup, new_volume, common_min,
  common_max, all_of, maximum, minimum,
}
use spoti_flac_mobile.Usb.Volume.{
  Volume, decibels, finite, set_targets, set_loop, value_for, best, set_channel,
}
use spoti_flac_mobile.Prelude.Result.{ok, err}
use spoti_flac_mobile.Prelude.{
  ℕ, List, [], ◌∷◌, ◌≡◌, refl, true, false, if◌then◌else◌, ◌==◌, arith, some, ◌<◌, ◌⊎◌,
}
use spoti_flac_mobile.Prelude.Int.{div_trunc, ◌+ℤ◌, ◌-ℤ◌, ◌*ℤ◌, pos, negsuc, div_trunc}
use spoti_flac_mobile.Usb.Feature.{
  feature, Feature, walk, visit, feature_unit, writable, controlled, matches, follow, dedup, Walk,
}
use spoti_flac_mobile.Usb.Control.{
  Device, Transfer, Request, transfer, fill, le_bytes, wrap_i16, VolumeError,
}
use spoti_flac_mobile.Usb.Volume.Quiet.{open-IsQuiet}
use spoti_flac_mobile.Usb.Volume.Setting.{set_volume-Grows, IsAllowed, IsAccepted}
use spoti_flac_mobile.HashMap.{get}
use spoti_flac_mobile.Usb.Volume.{value_for, set_volume}
use spoti_flac_mobile.Usb.Range.{floor-IsFloor, IsFloor, Range, IsValid, floor, parse}

-- A configuration with one output terminal 3 behind Feature Unit 2 of the streaming terminal 1.
abbrev raw : List ℕ
raw =
    9 ∷ 4 ∷ 0 ∷ 0 ∷ 0 ∷ 1 ∷ 1 ∷ 0 ∷ 0 ∷ 9 ∷ 36 ∷ 3 ∷ 3 ∷ 1 ∷ 3 ∷ 0 ∷ 2 ∷ 0 ∷ 9 ∷ 36 ∷ 6 ∷ 2 ∷ 1 ∷ 1
    ∷ 2 ∷ 0 ∷ 0 ∷ []

abbrev unit_2 : Feature
unit_2 = record { unit = 2; interface = 0; uac2 = false; channels = 0 ∷ [] }

feature_test : feature raw 0 1 2 ≡ some unit_2
unfolding feature walk visit feature_unit writable controlled matches follow dedup get
feature_test = refl

-- A device with one master volume from -80 dB to 0 dB in steps of 1 dB, standing at -10 dB, that
-- keeps what is written to it.
abbrev latest : List Transfer → List ℕ
latest [] = 0 ∷ 246 ∷ []
latest (t ∷ h) = let rest = latest h in if t.request.input then rest else t.request.bytes

abbrev answer_of : List Transfer → Request → List ℕ
answer_of h q =
    if q.request == 130
    then 0 ∷ 176 ∷ []
    else if q.request == 131
    then 0 ∷ 0 ∷ []
    else if q.request == 132
    then 0 ∷ 1 ∷ []
    else latest h

abbrev dac : Device
dac h q = ok (answer_of h q)

abbrev range : Range
range = record { min = negsuc 20479; max = pos 0; step = pos 256 }

abbrev volume : Volume
volume = record {
  feature = unit_2;
  ranges = (range ∷ []) ∷ [];
  snapshot = record {
    available = true;
    min_db = decibels (negsuc 20479);
    max_db = decibels (pos 0);
    current_db = decibels (negsuc 10239);
    restore_limit_db = decibels (negsuc 2559);
  };
}

-- It stands at -10 dB, and the startup lowers it to -40 dB.
open_volume_test : (open_volume dac unit_2 []).0 ≡ ok volume
unfolding open_volume open_channels open_channel read_ranges1 startup new_volume set_targets
    set_loop value_for best set_channel transfer fill le_bytes parse floor wrap_i16 div_trunc ◌+ℤ◌
    ◌-ℤ◌ ◌*ℤ◌ common_min common_max all_of maximum minimum
open_volume_test = refl

open-IsQuiet_example : IsQuiet unit_2 ((open_volume dac unit_2 []).1)
open-IsQuiet_example = open-IsQuiet dac unit_2

range-IsValid : IsValid range
range-IsValid = ground arith

floor-IsFloor_example : IsFloor range (negsuc 10300) (floor range (negsuc 10300))
floor-IsFloor_example = floor-IsFloor range (negsuc 10300) range-IsValid

-- -12.75 dB.
set_volume-Grows_example :
    Grows
      (λ value z. IsAllowed (finite (negsuc 50) 2) (pos 0) z)
      []
      ((set_volume dac volume (finite (negsuc 50) 2) []).1)
    × (IsAccepted (finite (negsuc 50) 2)
        ⊎ (set_volume dac volume (finite (negsuc 50) 2) [] ≡ (err VolumeError.invalid_volume, [])))
set_volume-Grows_example =
    set_volume-Grows dac volume (finite (negsuc 50) 2) (pos 0) [] ((range-IsValid, tt), tt) refl
      (omega arith)

abbrev walked : Walk
walked = record {
  active = true;
  uac2 = false;
  sources = (2, 1) ∷ (3, 2) ∷ [];
  features = (2, unit_2) ∷ [];
  outputs = 3 ∷ [];
}

sources_lt : (j source : ℕ) → get ◌==◌ j walked.sources ≡ some source → source < 256
unfolding get
sources_lt j source h = ground arith
