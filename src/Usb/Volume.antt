-- ===== src/Usb/Volume.antt =====
-- rust_backend/crates/mobile/src/usb_audio/volume.rs: `Volume`, the hardware volume of a connected
-- device. Volumes are integers in units of 1/256 dB.
pub mod Emits
pub mod Writes
pub mod Open
pub mod Startup
pub mod Setting
pub mod Quiet
use spoti_flac_mobile.Prelude.{
  ℕ, List, [], ◌∷◌, ◌++◌, Bool, true, false, Option, none, some, ◌||◌, not, replicate, take, drop,
  length, ◌+◌, ◌*◌, if◌then◌else◌, suc, ltb, map, ◌-◌, ◌/◌, ◌&&◌, ◌^◌, zero, leb, ◌==◌,
}
use spoti_flac_mobile.Prelude.Int.{ℤ, pos, negsuc, ltb_ℤ, eq_ℤ, ◌*ℤ◌, neg_ℕ}
use spoti_flac_mobile.Prelude.Result.{Result, ok, err}
use spoti_flac_mobile.Usb.Control.{
  Usb, ◌>>=◌, ◌>>◌, pure, fail, transfer, Device, VolumeError, u16_at, i16_at, le_bytes, i16_min,
  i16_max,
}
use spoti_flac_mobile.Usb.Range.{Range, floor, max_ℤ, min_ℤ, clamp}
use spoti_flac_mobile.Usb.Range
use spoti_flac_mobile.Usb.Feature.{Feature}

-- An `f64` of the interface: a finite one is m / 2^k, exactly.
pub data F64 : Type 0 where
  nan : F64
  infinite : Bool → F64
  finite : ℤ → ℕ → F64

pub record UsbHardwareVolume : Type 0 where
  pub available : Bool
  pub min_db : F64
  pub max_db : F64
  pub current_db : F64
  pub restore_limit_db : F64

pub record Volume : Type 0 where
  pub feature : Feature
  pub ranges : List (List Range)
  pub snapshot : UsbHardwareVolume

-- `v as f64 / 256.0`.
abbrev pub decibels : ℤ → F64
decibels v = finite v 8

abbrev pub selector : ℕ → ℕ
selector channel = 512 + channel

abbrev pub index : Feature → ℕ
index f = f.unit * 256 + f.interface

abbrev pub current_request : Feature → ℕ
current_request f = if f.uac2 then 1 else 129

-- The highest rounded target of the ranges that begin at or below it.
unfoldable pub best : List Range → ℤ → Option ℤ
best [] target = none
best (r ∷ ranges) target =
    let rest = best ranges target in
    if ltb_ℤ target r.min
    then rest
    else elim rest [ none ↦ some (floor r target) | some v ↦ some (max_ℤ (floor r target) v) ]

-- The value to write for a target; -32768 is silence and is kept.
unfoldable pub value_for : List Range → ℤ → Option ℤ
value_for ranges target = if eq_ℤ target i16_min then some i16_min else best ranges target

-- `ok_or(..)?`.
abbrev pub with_value : Option ℤ → (ℤ → Usb ℤ) → Usb ℤ
with_value none k = fail VolumeError.below_range
with_value (some v) k = k v

abbrev pub confirm : ℤ → ℤ → Usb ℤ
confirm actual value h =
    if eq_ℤ actual value then (ok actual, h) else (err VolumeError.readback_mismatch, h)

module _ (device : Device) where
  -- One channel of the loop of `set_targets`: write, then read back.
  unfoldable pub set_channel : Feature → ℕ → ℤ → Usb ℤ
  set_channel f channel value = do
    transfer device false 1 (selector channel) (index f) (le_bytes value)
    bytes ← transfer device true (current_request f) (selector channel) (index f) (0 ∷ 0 ∷ [])
    confirm (i16_at bytes 0) value

  unfoldable pub set_loop : Feature → List ℕ → List (List Range) → List ℤ → ℤ → Usb ℤ
  set_loop f (c ∷ channels) (r ∷ ranges) (t ∷ targets) loudest = with_value (value_for r t) λ value.
      do actual ← set_channel f c value; set_loop f channels ranges targets (max_ℤ loudest actual)
  set_loop f channels ranges targets loudest = pure loudest

  unfoldable pub set_targets : Volume → List ℤ → Usb Volume
  set_targets v targets = do
    loudest ← set_loop (v.feature) (v.feature.channels) (v.ranges) targets i16_min
    pure (record v { snapshot = record (v.snapshot) { current_db = decibels loudest } })

-- `f64::min` of a volume and the maximum, `* 256.0`, `floor` and the cast to `i32`, which saturates.
-- The product is exact, since 256 is a power of two.
abbrev pub floor_256 : ℤ → ℕ → ℤ
floor_256 (pos m) k = pos (m * 256 / 2 ^ k)
floor_256 (negsuc m) k = neg_ℕ ((suc m * 256 + (2 ^ k - 1)) / 2 ^ k)

abbrev less : ℤ → ℕ → ℤ → ℕ → Bool
less m k n l = ltb_ℤ (m *ℤ pos (2 ^ l)) (n *ℤ pos (2 ^ k))

abbrev min_f64 : ℤ → ℕ → F64 → ℤ × ℕ
min_f64 m k (finite n l) = if less n l m k then (n, l) else (m, k)
min_f64 m k nan = (m, k)
min_f64 m k (infinite sign) = (m, k)

unfoldable pub target_of : ℤ → ℕ → F64 → ℤ
target_of m k limit =
    let x = min_f64 m k limit in
    clamp (floor_256 (x.0) (x.1)) (negsuc (2 ^ 31 - 1)) (pos (2 ^ 31 - 1))

module _ (device : Device) where
  unfoldable pub set_volume : Volume → F64 → Usb Volume
  set_volume v (finite m k) h =
      if ltb_ℤ (pos 0) m || less m k (negsuc 127) 0
      then (err VolumeError.invalid_volume, h)
      else set_targets device v
          (replicate (length v.feature.channels) (target_of m k v.snapshot.max_db)) h
  set_volume v db h = (err VolumeError.invalid_volume, h)
