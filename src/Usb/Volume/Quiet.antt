-- ===== src/Usb/Volume/Quiet.antt =====
-- rust_backend/crates/mobile/src/usb_audio/volume.rs: what `Volume::open` writes, and when.
use spoti_flac_mobile.Prelude.Result.{Result-cases}
use spoti_flac_mobile.Usb.Volume.Emits.{WritesOnly}
use spoti_flac_mobile.Usb.Volume.{selector, set_targets, Volume, err}
use spoti_flac_mobile.Usb.Range.{Range, min_ℤ}
use spoti_flac_mobile.Usb.Control.{Device, Transfer, Usb, continue, VolumeError}
use spoti_flac_mobile.Usb.Feature.{Feature}
use spoti_flac_mobile.Prelude.{
  ℕ, List, [], ◌∷◌, ◌++◌, Bool, true, false, ◌≡◌, refl, arith, map, Option, some, subst, sym, none,
  not, ap, if◌then◌else◌, inl, ◌||◌, inr,
}
use spoti_flac_mobile.Prelude.Int.{ℤ, ◌≤ℤ◌, pos, ltb_ℤ}
use spoti_flac_mobile.Usb.Volume.Open.{
  open_volume, open_channels, startup, startups, startup_level, new_volume, common_min, common_max,
}
use spoti_flac_mobile.Usb.Volume.Writes.{AllRangesValid, Allows, set_targets-Triple}
use spoti_flac_mobile.Usb.Volume.Startup.{
  HasLevel, IsQuiet, Known, HasLevel-IsMonotone, open_channels-Triple,
}

-- What the startup may write once the history stands at `h`.
abbrev Lowers : Feature → List Transfer → ℕ → ℤ → Type 0
Lowers f h value z =
    (channel : ℕ) × (level : ℤ) × (value ≡ selector channel)
    × HasLevel f channel level h
    × (z ≤ℤ level)
    × (z ≤ℤ startup_level)

IsQuiet-append :
    (f : Feature) (new h : List Transfer)
    → IsQuiet f h
    → WritesOnly (Lowers f h) new
    → IsQuiet f (new ++ h)
IsQuiet-append f [] h q w = q
IsQuiet-append f (t ∷ new) h q w = (
  (λ i.
      let (channel, level, e, l, a, b) = w.0 i in
      (channel, level, e, HasLevel-IsMonotone f channel level new h l, a, b)),
  IsQuiet-append f new h q (w.1),
)

IsQuiet-reads : (f : Feature) (new : List Transfer) → WritesOnly (λ s z. ⊥) new → IsQuiet f new
IsQuiet-reads f [] w = tt
IsQuiet-reads f (t ∷ new) w = ((λ i. absurd (w.0 i)), IsQuiet-reads f new (w.1))

Known-AllRangesValid :
    (f : Feature) (cs : List ℕ) (xs : List (ℤ × List Range)) (h : List Transfer)
    → Known f cs xs h
    → AllRangesValid (map (λ x. x.1) xs)
Known-AllRangesValid f [] [] h k = tt
Known-AllRangesValid f (c ∷ cs) (x ∷ xs) h k = (k.1, Known-AllRangesValid f cs xs h (k.2))
Known-AllRangesValid f [] (x ∷ xs) h k = absurd k
Known-AllRangesValid f (c ∷ cs) [] h k = absurd k

Known-Allows :
    (f : Feature) (cs : List ℕ) (xs : List (ℤ × List Range)) (h : List Transfer)
    → Known f cs xs h
    → Allows (Lowers f h) cs (startups xs)
Known-Allows f [] [] h k = tt
Known-Allows f (c ∷ cs) (x ∷ xs) h k =
    ((λ z b. (c, x.0, refl, k.0, ground arith, ground arith)), Known-Allows f cs xs h (k.2))
Known-Allows f [] (x ∷ xs) h k = absurd k
Known-Allows f (c ∷ cs) [] h k = absurd k

if_IsQuiet :
    {A : Type 0} (f : Feature) (b : Bool) (x y : A × List Transfer)
    → IsQuiet f (x.1)
    → IsQuiet f (y.1)
    → IsQuiet f ((if b then x else y).1)
if_IsQuiet f true x y p q = p
if_IsQuiet f false x y p q = q

startup-IsQuiet :
    (device : Device) (f : Feature) (xs : List (ℤ × List Range)) (lo hi : Option ℤ)
    (h : List Transfer)
    → Known f (f.channels) xs h
    → IsQuiet f h
    → IsQuiet f ((startup device f xs lo hi h).1)
unfolding startup new_volume
startup-IsQuiet device f xs none hi h k q = q
startup-IsQuiet device f xs (some lo) none h k q = q
startup-IsQuiet device f xs (some lo) (some hi) h k q =
    let hi' = min_ℤ hi (pos 0) in
    let v = new_volume f xs lo hi' in
    let (t, p) =
      set_targets-Triple (Lowers f h) device v (startups xs)
        (Known-AllRangesValid f (f.channels) xs h k) (Known-Allows f (f.channels) xs h k) h tt in
    let (new, e, w) = t in
    let quiet : IsQuiet f ((set_targets device v (startups xs) h).1) =
      subst (IsQuiet f) (sym e) (IsQuiet-append f new h q w) in
    if_IsQuiet f (not (ltb_ℤ lo hi') || ltb_ℤ startup_level lo) (err VolumeError.no_attenuation, h)
      (set_targets device v (startups xs) h) q quiet

append_nil : {A : Type 0} (xs : List A) → xs ≡ xs ++ []
append_nil [] = refl
append_nil (x ∷ xs) = ap (◌∷◌ x) (append_nil xs)

abbrev start_of : Device → Feature → List (ℤ × List Range) → Usb Volume
start_of device f xs =
    startup device f xs (common_min (map (λ x. x.1) xs)) (common_max (map (λ x. x.1) xs))

-- For every device, whatever it answers and wherever it fails: each value that `open` writes goes to
-- a channel whose volume it has read before, is not above that volume, and is at most -40 dB.
pub open-IsQuiet : (device : Device) (f : Feature) → IsQuiet f ((open_volume device f []).1)
unfolding open_volume
open-IsQuiet device f =
    let (t, p) = open_channels-Triple (λ s z. ⊥) device f (f.channels) [] tt in
    let (new, e, w) = t in
    let h = (open_channels device f (f.channels) []).1 in
    let quiet : IsQuiet f h =
      subst (IsQuiet f) (sym e) (subst (IsQuiet f) (append_nil new) (IsQuiet-reads f new w)) in
    elim (Result-cases ((open_channels device f (f.channels) []).0)) [
      | inl (xs, g) ↦
          subst (λ r. IsQuiet f ((continue r h (start_of device f)).1)) (sym g)
            (startup-IsQuiet device f xs (common_min (map (λ x. x.1) xs))
              (common_max (map (λ x. x.1) xs)) h (p xs g) quiet)
      | inr (x, g) ↦ subst (λ r. IsQuiet f ((continue r h (start_of device f)).1)) (sym g) quiet
    ]
