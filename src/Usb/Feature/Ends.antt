-- ===== src/Usb/Feature/Ends.antt =====
-- rust_backend/crates/mobile/src/usb_audio/volume.rs: the fuel of the loops of `feature`.
use spoti_flac_mobile.Prelude.{
  ℕ, zero, suc, Bool, true, false, Option, none, some, List, ◌∷◌, ◌≡◌, refl, arith, ◌<◌, ◌≤◌, ◌+◌,
  length, drop, take, length-drop, ltb, ◌||◌, ◌==◌, get_or, Bool-cases, if◌then◌else◌, inl, ap, inr,
}
use spoti_flac_mobile.HashMap.{get}
use spoti_flac_mobile.Usb.Feature.{Feature, Walk, walk, visit, follow, contains, from_source}

if_ext :
    {A : Type 0} (b : Bool) (x y z : A)
    → (b ≡ false → y ≡ z)
    → (if b then x else y) ≡ (if b then x else z)
if_ext true x y z h = refl
if_ext false x y z h = h refl

-- Any two fuels above the number of bytes give the same walk.
pub walk_fuel :
    (n m interface channels : ℕ) (raw : List ℕ) (w : Walk)
    → length raw < n
    → length raw < m
    → walk n interface channels raw w ≡ walk m interface channels raw w
unfolding walk
walk_fuel zero m i c raw w h k = absurd (omega arith)
walk_fuel (suc n) zero i c raw w h k = absurd (omega arith)
walk_fuel (suc n) (suc m) i c raw w h k =
    let len = get_or raw 0 0 in
    let d = length-drop len raw in
    if_ext (ltb (length raw) 2) (some w) _ _ λ long.
      if_ext (ltb len 2 || ltb (length raw) len) none _ _ λ good.
        let l : 1 < len = ground arith in
        let s : 1 < length raw = ground arith in
        walk_fuel n m i c (drop len raw) (visit i c (take len raw) w) (omega arith) (omega arith)

-- How many identities below a bound have not been seen.
abbrev pub unseen : ℕ → List ℕ → ℕ
unseen zero seen = 0
unseen (suc k) seen = (if contains k seen then 0 else 1) + unseen k seen

unseen-le : (k : ℕ) (seen : List ℕ) → unseen k seen ≤ k
unseen-le zero seen = omega arith
unseen-le (suc k) seen = ground (arith, unseen-le k seen)

pub unseen-lt : (k n : ℕ) (seen : List ℕ) → k < n → unseen k seen < n
unseen-lt k n seen h = omega (arith, unseen-le k seen)

unseen-cons : (k x : ℕ) (seen : List ℕ) → unseen k (x ∷ seen) ≤ unseen k seen
unseen-cons zero x seen = omega arith
unseen-cons (suc k) x seen = ground (arith, unseen-cons k x seen)

unseen-cons_lt :
    (k x : ℕ) (seen : List ℕ)
    → x < k
    → contains x seen ≡ false
    → unseen k (x ∷ seen) < unseen k seen
unseen-cons_lt zero x seen h e = absurd (omega arith)
unseen-cons_lt (suc k) x seen h e = elim (Bool-cases (k == x)) [
  | inl same ↦
      let s : k ≡ x = ground arith in
      ground (arith, unseen-cons k x seen, ap (λ y. contains y seen) s)
  | inr other ↦ ground (arith, unseen-cons_lt k x seen)
]

from_source_ext :
    (o : Option ℕ) (stop : ℕ × Option Feature) (f g : ℕ → ℕ × Option Feature)
    → ((source : ℕ) → o ≡ some source → f source ≡ g source)
    → from_source o stop f ≡ from_source o stop g
from_source_ext none stop f g h = refl
from_source_ext (some source) stop f g h = h source refl

or_false : (a b : Bool) → (a || b) ≡ false → b ≡ false
or_false a b h = ground arith

-- If the identities lie below a bound, any two fuels above the number of those not seen give the
-- same end of the path, since none is followed twice.
pub follow_fuel :
    (bound n m : ℕ) (w : Walk) (terminal id : ℕ) (seen : List ℕ) (candidate : Option Feature)
    → ((j source : ℕ) → get ◌==◌ j w.sources ≡ some source → source < bound)
    → id < bound
    → unseen bound seen < n
    → unseen bound seen < m
    → follow n w terminal id seen candidate ≡ follow m w terminal id seen candidate
unfolding follow
follow_fuel bound zero m w t id seen cand b i h k = absurd (omega arith)
follow_fuel bound (suc n) zero w t id seen cand b i h k = absurd (omega arith)
follow_fuel bound (suc n) (suc m) w t id seen cand b i h k =
    if_ext (id == t || contains id seen) (id, cand) _ _
      λ goes.
        let l = unseen-cons_lt bound id seen i (or_false (id == t) (contains id seen) goes) in
        from_source_ext (get ◌==◌ id w.sources) _ _ _ λ source e.
          follow_fuel bound n m w t source (id ∷ seen) _ b (b id source e) (omega arith)
            (omega arith)
