-- ===== src/Usb/Volume/Writes.antt =====
-- rust_backend/crates/mobile/src/usb_audio/volume.rs: what `Volume::set_targets` writes.
use spoti_flac_mobile.Prelude.{
  ℕ, List, [], ◌∷◌, Option, none, some, ◌≡◌, arith, Bool-cases, inl, inr, Option-cases, subst,
  false, sym, refl, true,
}
use spoti_flac_mobile.Prelude.Int.{ℤ, ◌≤ℤ◌, pos, negsuc, ltb_ℤ}
use spoti_flac_mobile.Usb.Control.{
  Device, Transfer, le_bytes, i16_at, i16_min, i16_max, Usb, transfer, VolumeError, request_of,
}
use spoti_flac_mobile.Usb.Range.{Range, floor, IsValid, floor-IsFloor, max_ℤ, clamp-bounds}
use spoti_flac_mobile.Usb.Feature.{Feature}
use spoti_flac_mobile.Usb.Volume.{
  best, value_for, set_channel, set_loop, set_targets, selector, confirm, Volume, with_value, index,
  current_request,
}
use spoti_flac_mobile.Usb.Volume.Emits.{
  Triple, Triple-bind, Triple-read, Triple-write, Triple-pure, Triple-fail, HasRead,
}

pub i16_at-le_bytes : (z : ℤ) → i16_min ≤ℤ z → z ≤ℤ i16_max → i16_at (le_bytes z) 0 ≡ z
unfolding le_bytes
i16_at-le_bytes (pos n) h k = ground arith
i16_at-le_bytes (negsuc n) h k = ground arith

abbrev pub AllValid : List Range → Type 0
AllValid [] = Unit
AllValid (r ∷ rs) = IsValid r × AllValid rs

-- An `i16` that is at most the target.
abbrev pub IsAtMost : ℤ → ℤ → Type 0
IsAtMost target z = (i16_min ≤ℤ z) × (z ≤ℤ i16_max) × (z ≤ℤ target)

floor-IsAtMost :
    (r : Range) (target : ℤ) → IsValid r → r.min ≤ℤ target → IsAtMost target (floor r target)
floor-IsAtMost r target valid h =
    let f = floor-IsFloor r target valid in
    (
      omega (arith, f.0, valid.1),
      omega (arith, f.1, valid.3),
      omega (arith, f.2, (clamp-bounds target r.min r.max (valid.2)).2 h),
    )

max-IsAtMost : (t a b : ℤ) → IsAtMost t a → IsAtMost t b → IsAtMost t (max_ℤ a b)
max-IsAtMost t a b p q = ground arith

best-IsAtMost :
    (ranges : List Range) (target v : ℤ)
    → AllValid ranges
    → best ranges target ≡ some v
    → IsAtMost target v
unfolding best
best-IsAtMost [] target v valid e = absurd (ground arith)
best-IsAtMost (r ∷ ranges) target v valid e = elim (Bool-cases (ltb_ℤ target (r.min))) [
  | inl lt ↦ best-IsAtMost ranges target v (valid.1) (ground arith)
  | inr ge ↦
      let f = floor-IsAtMost r target (valid.0) (ground arith) in
      elim (Option-cases (best ranges target)) [
        | inl n ↦ subst (IsAtMost target) (ground arith) f
        | inr (w, n) ↦
            subst (IsAtMost target) (ground arith)
              (max-IsAtMost target (floor r target) w f (best-IsAtMost ranges target w (valid.1) n))
      ]
]

pub value_for-IsAtMost :
    (ranges : List Range) (target v : ℤ)
    → AllValid ranges
    → value_for ranges target ≡ some v
    → IsAtMost target v
unfolding value_for
value_for-IsAtMost ranges target v valid e = ground (arith, best-IsAtMost ranges target v)

-- The channels of a volume, each with the target that it gets.
abbrev pub Allows : (ℕ → ℤ → Type 0) → List ℕ → List ℤ → Type 0
Allows Q (c ∷ channels) (t ∷ targets) =
    ((z : ℤ) → IsAtMost t z → Q (selector c) z) × Allows Q channels targets
Allows Q channels targets = Unit

abbrev pub AllRangesValid : List (List Range) → Type 0
AllRangesValid [] = Unit
AllRangesValid (rs ∷ ranges) = AllValid rs × AllRangesValid ranges

abbrev Any : List Transfer → Type 0
Any h = Unit

module _ (Q : ℕ → ℤ → Type 0) where
  confirm-Triple : (a v : ℤ) → Triple Q Any (confirm a v) (λ b. Any)
  confirm-Triple a v h p = (([], ground arith, tt), λ b e. tt)

  with_value-Triple :
      (o : Option ℤ) (k : ℤ → Usb ℤ)
      → ((v : ℤ) → o ≡ some v → Triple Q Any (k v) (λ a. Any))
      → Triple Q Any (with_value o k) (λ a. Any)
  with_value-Triple none k t = Triple-fail Q Any (λ a. Any) VolumeError.below_range
  with_value-Triple (some v) k t = t v refl

module _ (Q : ℕ → ℤ → Type 0) (device : Device) (f : Feature) where
  set_channel-Triple :
      (c : ℕ) (v : ℤ)
      → IsAtMost v v
      → Q (selector c) v
      → Triple Q Any (set_channel device f c v) (λ a. Any)
  unfolding set_channel
  set_channel-Triple c v b q =
      Triple-bind Q Any (λ a. Any) (transfer device false 1 (selector c) (index f) (le_bytes v)) _
        (Triple-write Q device 1 (selector c) (index f) (le_bytes v)
          (subst (Q (selector c)) (sym (i16_at-le_bytes v (b.0) (b.1))) q))
        (λ _.
          Triple-bind Q Any (λ a. Any)
            {Mid = HasRead
              (request_of true (current_request f) (selector c) (index f) (0 ∷ 0 ∷ []))}
            (transfer device true (current_request f) (selector c) (index f) (0 ∷ 0 ∷ [])) _
            (Triple-read Q device (current_request f) (selector c) (index f) (0 ∷ 0 ∷ []))
            (λ bytes h p. confirm-Triple Q (i16_at bytes 0) v h tt))

  set_loop-Triple :
      (channels : List ℕ) (ranges : List (List Range)) (targets : List ℤ) (loudest : ℤ)
      → AllRangesValid ranges
      → Allows Q channels targets
      → Triple Q Any (set_loop device f channels ranges targets loudest) (λ a. Any)
  unfolding set_loop
  set_loop-Triple [] ranges targets l valid allowed = Triple-pure Q Any (λ a. Any) l (λ h p. tt)
  set_loop-Triple (c ∷ cs) [] targets l valid allowed = Triple-pure Q Any (λ a. Any) l (λ h p. tt)
  set_loop-Triple (c ∷ cs) (r ∷ rs) [] l valid allowed = Triple-pure Q Any (λ a. Any) l (λ h p. tt)
  set_loop-Triple (c ∷ cs) (r ∷ rs) (t ∷ ts) l valid allowed =
      with_value-Triple Q (value_for r t) _ λ v e.
        let b = value_for-IsAtMost r t v (valid.0) e in
        Triple-bind Q Any (λ a. Any) (set_channel device f c v) _
          (set_channel-Triple c v (b.0, b.1, omega arith) (allowed.0 v b))
          (λ a. set_loop-Triple cs rs ts (max_ℤ l a) (valid.1) (allowed.1))

module _ (Q : ℕ → ℤ → Type 0) (device : Device) where
  pub set_targets-Triple :
      (v : Volume) (targets : List ℤ)
      → AllRangesValid (v.ranges)
      → Allows Q (v.feature.channels) targets
      → Triple Q Any (set_targets device v targets) (λ a. Any)
  unfolding set_targets
  set_targets-Triple v targets valid allowed =
      let f = v.feature in
      Triple-bind Q Any (λ a. Any) (set_loop device f (f.channels) (v.ranges) targets i16_min) _
        (set_loop-Triple Q device f (f.channels) (v.ranges) targets i16_min valid allowed)
        (λ loudest. Triple-pure Q Any (λ a. Any) _ (λ h p. tt))
