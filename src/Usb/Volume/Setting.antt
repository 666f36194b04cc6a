-- ===== src/Usb/Volume/Setting.antt =====
-- rust_backend/crates/mobile/src/usb_audio/volume.rs: what `Volume::set` writes for a volume in dB.
use spoti_flac_mobile.Usb.Volume.Emits.{Grows}
use spoti_flac_mobile.Usb.Control.{Transfer, VolumeError}
use spoti_flac_mobile.Usb.Range.{clamp-bounds}
use spoti_flac_mobile.Prelude.{
  ℕ, List, [], ◌∷◌, Bool, false, ◌≡◌, refl, arith, ◌*◌, ◌^◌, ◌≤◌, ◌<◌, ◌/◌, ◌+◌, ◌-◌, suc, zero,
  Bool-cases, inl, inr, subst, replicate, sym, length, ◌||◌, if_cases, ◌⊎◌,
}
use spoti_flac_mobile.Prelude.Int.{ℤ, pos, negsuc, ◌≤ℤ◌, ◌*ℤ◌, pos_part, neg_part, neg_ℕ, ltb_ℤ}
use spoti_flac_mobile.Usb.Volume.{
  set_volume, floor_256, target_of, less, finite, i16_min, decibels, min_f64, F64, nan, infinite,
  Device, Volume, selector, Result, err, set_targets, F64, infinite,
}
use spoti_flac_mobile.Usb.Volume.Writes.{AllRangesValid, Allows, set_targets-Triple}

-- A product with a number, by parts.
*ℤ_pos :
    (z : ℤ) (d : ℕ)
    → (pos_part (z *ℤ pos d) ≡ pos_part z * d) × (neg_part (z *ℤ pos d) ≡ neg_part z * d)
unfolding ◌*ℤ◌
*ℤ_pos (pos n) d = (ground arith, ground arith)
*ℤ_pos (negsuc n) d = (ground arith, ground arith)

add_mul_mono : (a b c e d : ℕ) → a + b ≤ c + e → a * d + b * d ≤ c * d + e * d
add_mul_mono a b c e zero h = omega arith
add_mul_mono a b c e (suc d) h = omega (arith, add_mul_mono a b c e d h)

*ℤ_mono : (a b : ℤ) (d : ℕ) → a ≤ℤ b → a *ℤ pos d ≤ℤ b *ℤ pos d
*ℤ_mono a b d h = omega (
  arith,
  *ℤ_pos a d,
  *ℤ_pos b d,
  add_mul_mono (pos_part a) (neg_part b) (pos_part b) (neg_part a) d h,
)

div_mul_le : (n d : ℕ) → 0 < d → n / d * d ≤ n
div_mul_le n d h = grind arith

le_div_mul : (n d : ℕ) → 0 < d → n ≤ (n + (d - 1)) / d * d
le_div_mul n d h = grind arith

power_positive : (k : ℕ) → 0 < 2 ^ k
power_positive zero = omega arith
power_positive (suc k) = omega (arith, power_positive k)

neg_ℕ_pos : (n d : ℕ) → (pos_part (neg_ℕ n *ℤ pos d) ≡ 0) × (neg_part (neg_ℕ n *ℤ pos d) ≡ n * d)
unfolding ◌*ℤ◌
neg_ℕ_pos zero d = (ground arith, ground arith)
neg_ℕ_pos (suc n) d = (ground arith, ground arith)

-- Rounding down, for the denominator 2^k.
floor_256_le : (m : ℤ) (k : ℕ) → floor_256 m k *ℤ pos (2 ^ k) ≤ℤ m *ℤ pos 256
floor_256_le (pos m) k = omega (
  arith,
  *ℤ_pos (pos (m * 256 / 2 ^ k)) (2 ^ k),
  *ℤ_pos (pos m) 256,
  div_mul_le (m * 256) (2 ^ k) (power_positive k),
)
floor_256_le (negsuc m) k =
    let q = (suc m * 256 + (2 ^ k - 1)) / 2 ^ k in
    omega (
      arith,
      neg_ℕ_pos q (2 ^ k),
      *ℤ_pos (negsuc m) 256,
      le_div_mul (suc m * 256) (2 ^ k) (power_positive k),
    )

*ℤ_cancel_le : (a b : ℤ) (d : ℕ) → 0 < d → a *ℤ pos d ≤ℤ b *ℤ pos d → a ≤ℤ b
*ℤ_cancel_le a b d p h = elim (Bool-cases (ltb_ℤ b a)) [
  | inr ge ↦ ground arith
  | inl lt ↦
      let g =
        add_mul_mono (pos_part b + 1) (neg_part a) (pos_part a) (neg_part b) d (ground arith) in
      absurd (omega (arith, *ℤ_pos a d, *ℤ_pos b d, h, g, p))
]

ceil_le : (n c d : ℕ) → 0 < d → n ≤ c * d → (n + (d - 1)) / d ≤ c
ceil_le n c d p h = grind arith

-- The volume that is asked for is at least -128 dB, so the saturating cast does not raise it.
floor_256_ge :
    (m : ℤ) (k : ℕ) → less m k (negsuc 127) 0 ≡ false → negsuc (2 ^ 31 - 1) ≤ℤ floor_256 m k
floor_256_ge (pos m) k h = omega arith
floor_256_ge (negsuc m) k h =
    let a = *ℤ_pos (negsuc m) (2 ^ 0) in
    let b = *ℤ_pos (negsuc 127) (2 ^ k) in
    let c : suc m * 256 ≤ 32768 * 2 ^ k = ground arith in
    ground (arith, ceil_le (suc m * 256) 32768 (2 ^ k) (power_positive k) c)

-- The level that is written is at most the volume asked for and at most the maximum.
abbrev pub IsWithin : ℤ → ℕ → ℤ → ℤ → Type 0
IsWithin m k hi z = (z *ℤ pos (2 ^ k) ≤ℤ m *ℤ pos 256) × (z ≤ℤ hi)

IsWithin-le : (m : ℤ) (k : ℕ) (hi z w : ℤ) → IsWithin m k hi w → z ≤ℤ w → IsWithin m k hi z
IsWithin-le m k hi z w (p, q) h = (omega (arith, *ℤ_mono z w (2 ^ k) h, p), omega arith)

floor_256_decibels : (hi : ℤ) → floor_256 hi 8 ≡ hi
floor_256_decibels (pos n) = ground arith
floor_256_decibels (negsuc n) = ground arith

-- The smaller of the volume asked for and the maximum, rounded down.
floor_min-IsWithin :
    (m : ℤ) (k : ℕ) (hi : ℤ)
    → let x = min_f64 m k (decibels hi) in IsWithin m k hi (floor_256 (x.0) (x.1))
floor_min-IsWithin m k hi =
    if_cases {A = ℤ × ℕ} (λ x. IsWithin m k hi (floor_256 (x.0) (x.1))) (less hi 8 m k) (hi, 8)
      (m, k)
      (λ lt. subst (IsWithin m k hi) (sym (floor_256_decibels hi)) (ground arith, omega arith))
      (λ ge.
        let e = floor_256_le m k in
        let g : (m *ℤ pos 256) ≤ℤ (hi *ℤ pos (2 ^ k)) = ground arith in
        (e, *ℤ_cancel_le (floor_256 m k) hi (2 ^ k) (power_positive k) (omega arith)))

floor_min-ge :
    (m : ℤ) (k : ℕ) (hi : ℤ)
    → i16_min ≤ℤ hi
    → less m k (negsuc 127) 0 ≡ false
    → let x = min_f64 m k (decibels hi) in negsuc (2 ^ 31 - 1) ≤ℤ floor_256 (x.0) (x.1)
floor_min-ge m k hi b h =
    if_cases {A = ℤ × ℕ} (λ x. negsuc (2 ^ 31 - 1) ≤ℤ floor_256 (x.0) (x.1)) (less hi 8 m k) (hi, 8)
      (m, k)
      (λ lt. subst (λ t. negsuc (2 ^ 31 - 1) ≤ℤ t) (sym (floor_256_decibels hi)) (omega arith))
      (λ ge. floor_256_ge m k h)

target_of-IsWithin :
    (m : ℤ) (k : ℕ) (hi : ℤ)
    → i16_min ≤ℤ hi
    → less m k (negsuc 127) 0 ≡ false
    → IsWithin m k hi (target_of m k (decibels hi))
unfolding target_of
target_of-IsWithin m k hi b h =
    let x = min_f64 m k (decibels hi) in
    let t = floor_256 (x.0) (x.1) in
    IsWithin-le m k hi (target_of m k (decibels hi)) t (floor_min-IsWithin m k hi) (
      (clamp-bounds t (negsuc (2 ^ 31 - 1)) (pos (2 ^ 31 - 1)) (omega arith)).2
        (floor_min-ge m k hi b h))

or_false : (a b : Bool) → (a || b) ≡ false → b ≡ false
or_false a b h = ground arith

Allows-replicate :
    (Q : ℕ → ℤ → Type 0) (cs : List ℕ) (t : ℤ)
    → ((c : ℕ) (z : ℤ) → z ≤ℤ t → Q c z)
    → Allows Q cs (replicate (length cs) t)
Allows-replicate Q [] t q = tt
Allows-replicate Q (c ∷ cs) t q = ((λ z b. q (selector c) z (b.2)), Allows-replicate Q cs t q)

-- From -128 dB to 0 dB, and finite.
abbrev pub IsAccepted : F64 → Type 0
IsAccepted (finite m k) = (m ≤ℤ pos 0) × (negsuc 127 *ℤ pos (2 ^ k) ≤ℤ m)
IsAccepted nan = ⊥
IsAccepted (infinite sign) = ⊥

-- A level that `set` may write for a volume, and there is none for a volume that is not accepted.
abbrev pub IsAllowed : F64 → ℤ → ℤ → Type 0
IsAllowed (finite m k) hi z = IsAccepted (finite m k) × IsWithin m k hi z
IsAllowed nan hi z = ⊥
IsAllowed (infinite sign) hi z = ⊥

good-IsAccepted :
    (m : ℤ) (k : ℕ) → (ltb_ℤ (pos 0) m || less m k (negsuc 127) 0) ≡ false → IsAccepted (finite m k)
good-IsAccepted m k good =
    let low : (negsuc 127 *ℤ pos (2 ^ k)) ≤ℤ (m *ℤ pos 1) = ground (arith, good) in
    (ground (arith, good), omega (arith, *ℤ_pos m 1, low))

-- A finite volume on a volume with valid ranges.
set_finite-Grows :
    (device : Device) (v : Volume) (m : ℤ) (k : ℕ) (hi : ℤ) (h : List Transfer)
    → AllRangesValid (v.ranges)
    → v.snapshot.max_db ≡ decibels hi
    → i16_min ≤ℤ hi
    → Grows (λ value z. IsAllowed (finite m k) hi z) h ((set_volume device v (finite m k) h).1)
unfolding set_volume
set_finite-Grows device v m k hi h valid e b =
    let Q : ℕ → ℤ → Type 0 = λ value z. IsAllowed (finite m k) hi z in
    let t = target_of m k (v.snapshot.max_db) in
    let targets = replicate (length (v.feature.channels)) t in
    if_cases {A = Result Volume VolumeError × List Transfer} (λ r. Grows Q h (r.1))
      (ltb_ℤ (pos 0) m || less m k (negsuc 127) 0) (err VolumeError.invalid_volume, h)
      (set_targets device v targets h) (λ bad. ([], refl, tt))
      (λ good.
        let w =
          target_of-IsWithin m k hi b (or_false (ltb_ℤ (pos 0) m) (less m k (negsuc 127) 0) good) in
        let w' : IsWithin m k hi t = subst (λ d. IsWithin m k hi (target_of m k d)) (sym e) w in
        let accepted = good-IsAccepted m k good in
        (set_targets-Triple Q device v targets valid
          (Allows-replicate Q (v.feature.channels) t
            (λ c z z_le. (accepted, IsWithin-le m k hi z t w' z_le)))
          h tt).0)

set_volume_or_refused :
    (device : Device) (v : Volume) (m : ℤ) (k : ℕ) (h : List Transfer)
    → IsAccepted (finite m k)
      ⊎ (set_volume device v (finite m k) h ≡ (err VolumeError.invalid_volume, h))
unfolding set_volume
set_volume_or_refused device v m k h =
    elim (Bool-cases (ltb_ℤ (pos 0) m || less m k (negsuc 127) 0)) [
      | inl refused ↦ inr (rw refused refl)
      | inr good ↦ inl (good-IsAccepted m k good)
    ]

-- Whatever the device answers, `set` of any `f64` on a volume with valid ranges and a maximum that is
-- an `i16` writes only levels that are at most the volume asked for and at most the maximum, and only
-- for a finite volume from -128 dB to 0 dB; for any other it fails with `InvalidVolume` before any
-- transfer.
pub set_volume-Grows :
    (device : Device) (v : Volume) (db : F64) (hi : ℤ) (h : List Transfer)
    → AllRangesValid (v.ranges)
    → v.snapshot.max_db ≡ decibels hi
    → i16_min ≤ℤ hi
    → Grows (λ value z. IsAllowed db hi z) h ((set_volume device v db h).1)
      × (IsAccepted db ⊎ (set_volume device v db h ≡ (err VolumeError.invalid_volume, h)))
unfolding set_volume
set_volume-Grows device v (finite m k) hi h valid e b =
    (set_finite-Grows device v m k hi h valid e b, set_volume_or_refused device v m k h)
set_volume-Grows device v nan hi h valid e b = (([], refl, tt), inr refl)
set_volume-Grows device v (infinite sign) hi h valid e b = (([], refl, tt), inr refl)
