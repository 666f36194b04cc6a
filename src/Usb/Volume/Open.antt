-- ===== src/Usb/Volume/Open.antt =====
-- rust_backend/crates/mobile/src/usb_audio/volume.rs: `Volume::open`, which reads the volume and the
-- ranges of every channel before it sets the startup volume.
use spoti_flac_mobile.Prelude.{
  ℕ, List, [], ◌∷◌, ◌++◌, Bool, true, Option, none, some, ◌||◌, not, replicate, take, drop, ◌+◌,
  ◌*◌, if◌then◌else◌, suc, ltb, map, ◌-◌, ◌&&◌, zero, leb, ◌==◌,
}
use spoti_flac_mobile.Prelude.Int.{ℤ, pos, negsuc, ltb_ℤ}
use spoti_flac_mobile.Prelude.Result.{Result, ok, err}
use spoti_flac_mobile.Usb.Control.{
  Usb, ◌>>=◌, ◌>>◌, pure, transfer, Device, VolumeError, u16_at, i16_at, i16_min, i16_max,
}
use spoti_flac_mobile.Usb.Range.{Range, floor, max_ℤ, min_ℤ, clamp}
use spoti_flac_mobile.Usb.Range
use spoti_flac_mobile.Usb.Feature.{Feature}
use spoti_flac_mobile.Usb.Volume.{Volume, decibels, selector, index, current_request, set_targets}

-- The ranges of a buffer, six bytes for each of `count`; the first bad one ends the reading.
unfoldable pub parse_chunks : ℕ → List ℕ → Result (List Range) VolumeError
parse_chunks zero bytes = ok []
parse_chunks (suc n) bytes =
    let rest = parse_chunks n (drop 6 bytes) in
    elim (Range.parse (take 6 bytes)) [
      | err e ↦ err e
      | ok r ↦ elim rest [ err e ↦ err e | ok rs ↦ ok (r ∷ rs) ]
    ]

abbrev pub lift : {A : Type 0} → Result A VolumeError → Usb A
lift r h = (r, h)

abbrev pub guard : Bool → VolumeError → Usb (Unit {0})
guard b e h = if b then (ok tt, h) else (err e, h)

module _ (device : Device) where
  -- The buffer of two bytes is reused, so it still holds the current volume.
  unfoldable pub read_ranges2 : Feature → ℕ → List ℕ → Usb (List Range)
  read_ranges2 f channel bytes = do
    answer ← transfer device true 2 (selector channel) (index f) bytes
    guard (ltb 0 (u16_at answer 0) && leb (u16_at answer 0) 16) VolumeError.unsupported_ranges
    all ←
        transfer device true 2 (selector channel) (index f) (replicate (2 + 6 * u16_at answer 0) 0)
    guard (u16_at all 0 == u16_at answer 0) VolumeError.range_changed
    lift (parse_chunks (u16_at answer 0) (drop 2 all))

  unfoldable pub read_ranges1 : Feature → ℕ → Usb (List Range)
  read_ranges1 f channel = do
    lo ← transfer device true 130 (selector channel) (index f) (0 ∷ 0 ∷ [])
    hi ← transfer device true 131 (selector channel) (index f) (0 ∷ 0 ∷ [])
    step ← transfer device true 132 (selector channel) (index f) (0 ∷ 0 ∷ [])
    r ← lift (Range.parse (lo ++ hi ++ step))
    pure (r ∷ [])

  unfoldable pub open_channel : Feature → ℕ → Usb (ℤ × List Range)
  open_channel f channel = do
    bytes ← transfer device true (current_request f) (selector channel) (index f) (0 ∷ 0 ∷ [])
    rs ← (if f.uac2 then read_ranges2 f channel bytes else read_ranges1 f channel)
    pure (i16_at bytes 0, rs)

  -- What the loop of `open` has gathered: the current volumes and the ranges of the channels.
  unfoldable pub open_channels : Feature → List ℕ → Usb (List (ℤ × List Range))
  open_channels f [] = pure []
  open_channels f (c ∷ channels) = do
    x ← open_channel f c
    xs ← open_channels f channels
    pure (x ∷ xs)

-- `Iterator::max` and `Iterator::min`.
unfoldable pub maximum : List ℤ → Option ℤ
maximum [] = none
maximum (x ∷ xs) = let rest = maximum xs in elim rest [ none ↦ some x | some y ↦ some (max_ℤ x y) ]

unfoldable pub minimum : List ℤ → Option ℤ
minimum [] = none
minimum (x ∷ xs) = let rest = minimum xs in elim rest [ none ↦ some x | some y ↦ some (min_ℤ x y) ]

-- `map(..)` whose closure unwraps: `none` is a panic.
unfoldable pub all_of : List (Option ℤ) → Option (List ℤ)
all_of [] = some []
all_of (o ∷ os) =
    let rest = all_of os in
    elim o [ none ↦ none | some x ↦ elim rest [ none ↦ none | some xs ↦ some (x ∷ xs) ] ]

abbrev pub then_of : Option (List ℤ) → (List ℤ → Option ℤ) → Option ℤ
then_of none f = none
then_of (some xs) f = f xs

-- The minimum that every channel reaches, and the maximum that none exceeds, before the cap at 0.
unfoldable pub common_min : List (List Range) → Option ℤ
common_min ranges = then_of (all_of (map (λ rs. minimum (map (λ r. r.min) rs)) ranges)) maximum

unfoldable pub common_max : List (List Range) → Option ℤ
common_max ranges = then_of (all_of (map (λ rs. maximum (map (λ r. r.max) rs)) ranges)) minimum

-- -40 dB.
abbrev pub startup_level : ℤ
startup_level = negsuc (40 * 256 - 1)

abbrev pub startups : List (ℤ × List Range) → List ℤ
startups = map (λ x. min_ℤ (x.0) startup_level)

abbrev pub fold_with : (ℤ → ℤ → ℤ) → ℤ → List (ℤ × List Range) → ℤ
fold_with f a [] = a
fold_with f a (x ∷ xs) = fold_with f (f a (x.0)) xs

unfoldable pub new_volume : Feature → List (ℤ × List Range) → ℤ → ℤ → Volume
new_volume f xs lo hi = record {
  feature = f;
  ranges = map (λ x. x.1) xs;
  snapshot = record {
    available = true;
    min_db = decibels lo;
    max_db = decibels hi;
    current_db = decibels (fold_with max_ℤ i16_min xs);
    restore_limit_db = decibels (fold_with min_ℤ i16_max xs);
  };
}

module _ (device : Device) where
  unfoldable pub startup : Feature → List (ℤ × List Range) → Option ℤ → Option ℤ → Usb Volume
  startup f xs (some lo) (some hi) h =
      let hi' = min_ℤ hi (pos 0) in
      if not (ltb_ℤ lo hi') || ltb_ℤ startup_level lo
      then (err VolumeError.no_attenuation, h)
      else set_targets device (new_volume f xs lo hi') (startups xs) h
  startup f xs lo hi h = (err VolumeError.panicked, h)

  unfoldable pub open_volume : Feature → Usb Volume
  open_volume f = do
    xs ← open_channels device f (f.channels)
    startup f xs (common_min (map (λ x. x.1) xs)) (common_max (map (λ x. x.1) xs))
