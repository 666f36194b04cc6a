-- ===== src/Usb/Range.antt =====
-- rust_backend/crates/mobile/src/usb_audio/volume.rs: `Range`, one range of volumes that a device
-- supports, in units of 1/256 dB, and its `floor`.
use spoti_flac_mobile.Prelude.{
  ℕ, ◌||◌, List, if◌then◌else◌, ◌≢◌, ◌≡◌, arith, ◌<◌, ◌*◌, ◌^◌, ◌/◌, ◌≤◌, ◌+◌, ◌-◌, ap, ◌∙◌, subst,
  sym, refl,
}
use spoti_flac_mobile.Prelude.Int.{
  ℤ, pos, ◌+ℤ◌, ◌-ℤ◌, ◌*ℤ◌, ◌≤ℤ◌, ltb_ℤ, eq_ℤ, pos_part, div_trunc, negsuc, ◌<ℤ◌, neg_part,
  +ℤ_parts,
}
use spoti_flac_mobile.Prelude.Result.{Result, ok, err}
use spoti_flac_mobile.Usb.Control.{
  VolumeError, invalid_range, i16_at, wrap_i16, i16_min, i16_max, u16_at, i16_of,
}

abbrev pub max_ℤ : ℤ → ℤ → ℤ
max_ℤ a b = if ltb_ℤ a b then b else a

abbrev pub min_ℤ : ℤ → ℤ → ℤ
min_ℤ a b = if ltb_ℤ b a then b else a

abbrev pub clamp : ℤ → ℤ → ℤ → ℤ
clamp value lo hi = if ltb_ℤ value lo then lo else if ltb_ℤ hi value then hi else value

pub record Range : Type 0 where
  pub min : ℤ
  pub max : ℤ
  pub step : ℤ

unfoldable pub parse : List ℕ → Result Range VolumeError
parse bytes =
    let r : Range = record { min = i16_at bytes 0; max = i16_at bytes 2; step = i16_at bytes 4 } in
    if eq_ℤ r.min i16_min || ltb_ℤ r.max r.min || ltb_ℤ r.step (pos 0)
    then err invalid_range
    else ok r

-- The step as a number: `max(1)` makes it positive. The `i32` operations do not overflow, since
-- the bounds are `i16`.
abbrev pub grid : Range → ℕ
grid r = pos_part (max_ℤ r.step (pos 1))

unfoldable pub floor : Range → ℤ → ℤ
floor r value =
    let v = clamp value r.min r.max in
    wrap_i16 (r.min +ℤ div_trunc (v -ℤ r.min) (grid r) *ℤ pos (grid r))

-- What `parse` guarantees.
abbrev pub IsValid : Range → Type 0
IsValid r =
    (i16_min ≢ r.min)
    × (i16_min ≤ℤ r.min)
    × (r.min ≤ℤ r.max)
    × (r.max ≤ℤ i16_max)
    × (pos 0 ≤ℤ r.step)
    × (r.step ≤ℤ i16_max)

wrap_i16_id : (z : ℤ) → i16_min ≤ℤ z → z ≤ℤ i16_max → wrap_i16 z ≡ z
unfolding wrap_i16
wrap_i16_id (pos n) h k = ground arith
wrap_i16_id (negsuc n) h k = ground arith

i16_of-bounds : (m : ℕ) → m < 2 ^ 16 → (i16_min ≤ℤ i16_of m) × (i16_of m ≤ℤ i16_max)
i16_of-bounds m h = ground arith

pub i16_at-bounds :
    (bytes : List ℕ) (i : ℕ) → (i16_min ≤ℤ i16_at bytes i) × (i16_at bytes i ≤ℤ i16_max)
i16_at-bounds bytes i = i16_of-bounds (u16_at bytes i) (omega arith)

pub parse-IsValid : (bytes : List ℕ) (r : Range) → parse bytes ≡ ok r → IsValid r
unfolding parse
parse-IsValid bytes r h =
    ground (arith, i16_at-bounds bytes 0, i16_at-bounds bytes 2, i16_at-bounds bytes 4)

div_mul_bounds : (n d : ℕ) → 0 < d → (n / d * d ≤ n) × (n < n / d * d + d)
div_mul_bounds n d h = grind arith

-- The cases of a step between two integers, the distance as a number.
distance :
    (a v : ℤ) → a ≤ℤ v → (n : ℕ) × ((v -ℤ a) ≡ pos n) × (v ≤ℤ (a +ℤ pos n)) × ((a +ℤ pos n) ≤ℤ v)
unfolding ◌+ℤ◌ ◌-ℤ◌
distance a v h =
    (pos_part v + neg_part a - (neg_part v + pos_part a), ground arith, ground arith, ground arith)

pos_mul : (n d : ℕ) → (div_trunc (pos n) d *ℤ pos d) ≡ pos (n / d * d)
unfolding ◌*ℤ◌ div_trunc
pos_mul n d = ground arith

pub clamp-bounds :
    (v lo hi : ℤ)
    → lo ≤ℤ hi
    → (lo ≤ℤ clamp v lo hi) × (clamp v lo hi ≤ℤ hi) × (lo ≤ℤ v → clamp v lo hi ≤ℤ v)
clamp-bounds v lo hi h = ground arith

grid-positive : (r : Range) → 0 < grid r
grid-positive r = ground arith

floor-raw :
    (r : Range) (v : ℤ) (n : ℕ)
    → (v -ℤ r.min) ≡ pos n
    → (r.min +ℤ div_trunc (v -ℤ r.min) (grid r) *ℤ pos (grid r))
      ≡ (r.min +ℤ pos (n / grid r * grid r))
floor-raw r v n e = rw (e, pos_mul n (grid r))

-- The last value of the range, counted in steps from its minimum, that is not above the target.
abbrev pub IsFloor : Range → ℤ → ℤ → Type 0
IsFloor r target x =
    (r.min ≤ℤ x)
    × (x ≤ℤ r.max)
    × (x ≤ℤ clamp target r.min r.max)
    × (clamp target r.min r.max <ℤ (x +ℤ pos (grid r)))
    × (k : ℕ) × (x ≡ (r.min +ℤ pos (k * grid r)))

pub floor-IsFloor : (r : Range) (target : ℤ) → IsValid r → IsFloor r target (floor r target)
unfolding floor
floor-IsFloor r target valid =
    let c = clamp-bounds target r.min r.max (valid.2) in
    let v = clamp target r.min r.max in
    let (n, d, e, e') = distance r.min v (c.0) in
    let b = div_mul_bounds n (grid r) (grid-positive r) in
    let m = n / grid r * grid r in
    let p = +ℤ_parts r.min (pos m) in
    let q = +ℤ_parts r.min (pos n) in
    let w : floor r target ≡ (r.min +ℤ pos m) =
      ap wrap_i16 (floor-raw r v n d) ∙ wrap_i16_id (r.min +ℤ pos m) (omega arith) (omega arith) in
    let bounds : (r.min ≤ℤ (r.min +ℤ pos m))
        × ((r.min +ℤ pos m) ≤ℤ v)
        × (v <ℤ (r.min +ℤ pos m +ℤ pos (grid r))) =
      (omega arith, omega arith, omega (arith, +ℤ_parts (r.min +ℤ pos m) (pos (grid r)))) in
    subst (IsFloor r target) (sym w) (bounds.0, omega arith, bounds.1, bounds.2, n / grid r, refl)
