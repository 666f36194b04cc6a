-- ===== src/Usb/Feature.antt =====
-- rust_backend/crates/mobile/src/usb_audio/volume.rs: `feature`, which finds the one Feature Unit of
-- the playback chain in the raw descriptors of a configuration.
pub mod Ends
use spoti_flac_mobile.Prelude.{
  ℕ, Bool, true, false, Option, none, some, List, [], ◌∷◌, ◌++◌, ◌&&◌, ◌||◌, not, ◌==◌, ltb, leb,
  get_or, take, drop, length, if◌then◌else◌, suc, ◌+◌, if◌then◌else◌, ◌*◌, zero, if◌then◌else◌, ◌/◌,
  if◌then◌else◌, ◌%◌, if◌then◌else◌, if◌then◌else◌, if◌then◌else◌, if◌then◌else◌,
}
use spoti_flac_mobile.HashMap.{HashMap, insert, get}

pub record Feature : Type 0 where
  pub unit : ℕ
  pub interface : ℕ
  pub uac2 : Bool
  pub channels : List ℕ

-- The locals of the loop over the descriptors.
pub record Walk : Type 0 where
  pub active : Bool
  pub uac2 : Bool
  pub sources : HashMap ℕ ℕ
  pub features : HashMap ℕ Feature
  pub outputs : List ℕ

abbrev pub contains : ℕ → List ℕ → Bool
contains x [] = false
contains x (y ∷ ys) = let rest = contains x ys in if x == y then true else rest

-- `1..=n`.
abbrev pub up_to : ℕ → List ℕ
up_to zero = []
up_to (suc n) = up_to n ++ (suc n ∷ [])

abbrev pub all : (ℕ → Bool) → List ℕ → Bool
all p [] = true
all p (x ∷ xs) = p x && all p xs

-- The closure `writable`, for a descriptor whose controls begin at `start`.
unfoldable pub writable : List ℕ → Bool → ℕ → ℕ → ℕ → Bool
writable d uac2 start size channel =
    let pos = start + channel * size in
    if leb (length d) (pos + size)
    then false
    else if uac2
    then get_or d pos 0 / 4 % 4 == 3
    else get_or d pos 0 / 2 % 2 == 1

-- The channels to control: the master, or else all of them.
unfoldable pub controlled : List ℕ → Bool → ℕ → ℕ → ℕ → Option (List ℕ)
controlled d uac2 start size channels =
    if writable d uac2 start size 0
    then some (0 ∷ [])
    else if all (writable d uac2 start size) (up_to channels)
    then some (up_to channels)
    else none

unfoldable pub feature_unit : ℕ → ℕ → List ℕ → Walk → Walk
feature_unit interface channels d w =
    let w' : Walk = record w { sources = insert (get_or d 3 0) (get_or d 4 0) w.sources } in
    let size = if w.uac2 then 4 else get_or d 5 0 in
    let start = if w.uac2 then 5 else 6 in
    if size == 0 || ltb 4 size || ltb (length d) (start + size + 1)
    then w'
    else elim (controlled d w.uac2 start size channels) [
      | none ↦ w'
      | some cs ↦ record w' {
        features =
            insert (get_or d 3 0)
              (record { unit = get_or d 3 0; interface = interface; uac2 = w.uac2; channels = cs })
              w.features;
      }
    ]

-- The body of the loop, for one descriptor.
unfoldable pub visit : ℕ → ℕ → List ℕ → Walk → Walk
visit interface channels d w =
    if get_or d 1 0 == 4 && leb 9 (length d)
    then record w {
      active = get_or d 2 0 == interface && get_or d 5 0 == 1 && get_or d 6 0 == 1;
      uac2 = get_or d 7 0 == 32;
    }
    else if w.active && get_or d 1 0 == 36 && leb 4 (length d)
    then (if get_or d 2 0 == 3 && leb 9 (length d)
        then record w {
          sources = insert (get_or d 3 0) (get_or d 7 0) w.sources;
          outputs = w.outputs ++ (get_or d 3 0 ∷ []);
        }
        else if get_or d 2 0 == 6 && leb 7 (length d)
        then feature_unit interface channels d w
        else w)
    else w

-- The loop over the bytes that are left.
unfoldable pub walk : ℕ → ℕ → ℕ → List ℕ → Walk → Option Walk
walk zero interface channels raw w = none
walk (suc fuel) interface channels raw w =
    let len = get_or raw 0 0 in
    let rest =
      walk fuel interface channels (drop len raw) (visit interface channels (take len raw) w) in
    if ltb (length raw) 2 then some w else if ltb len 2 || ltb (length raw) len then none else rest

-- The end of the loop body: the next identity, or `break`.
abbrev pub from_source :
    Option ℕ → ℕ × Option Feature → (ℕ → ℕ × Option Feature) → ℕ × Option Feature
from_source none stop next = stop
from_source (some source) stop next = next source

-- From an output terminal along the sources; the candidate is the first Feature Unit on the way.
unfoldable pub follow : ℕ → Walk → ℕ → ℕ → List ℕ → Option Feature → ℕ × Option Feature
follow zero w terminal id seen candidate = (id, candidate)
follow (suc fuel) w terminal id seen candidate =
    let candidate' : Option Feature = elim candidate [
      | none ↦ get ◌==◌ id w.features
      | some f ↦ some f
    ] in
    let rest : ℕ → ℕ × Option Feature =
      λ source. follow fuel w terminal source (id ∷ seen) candidate' in
    if id == terminal || contains id seen
    then (id, candidate)
    else from_source (get ◌==◌ id w.sources) (id, candidate') rest

-- The identities are `u8`, so a path without a repetition has at most 256.
unfoldable pub matches : Walk → ℕ → List ℕ → List Feature
matches w terminal [] = []
matches w terminal (id ∷ outputs) =
    let rest = matches w terminal outputs in
    let r = follow 257 w terminal id [] none in
    if r.0 == terminal then elim (r.1) [ none ↦ rest | some f ↦ f ∷ rest ] else rest

abbrev pub eq_channels : List ℕ → List ℕ → Bool
eq_channels [] [] = true
eq_channels (x ∷ xs) (y ∷ ys) = (x == y) && eq_channels xs ys
eq_channels xs ys = false

abbrev pub eq_Bool : Bool → Bool → Bool
eq_Bool true b = b
eq_Bool false b = not b

abbrev pub eq_Feature : Feature → Feature → Bool
eq_Feature f g =
    f.unit == g.unit
    && f.interface == g.interface
    && eq_Bool f.uac2 g.uac2
    && eq_channels f.channels g.channels

-- `Vec::dedup`.
unfoldable pub dedup : List Feature → List Feature
dedup [] = []
dedup (f ∷ fs) =
    let rest = dedup fs in
    elim rest [ [] ↦ f ∷ [] | g ∷ gs ↦ if eq_Feature f g then f ∷ gs else f ∷ g ∷ gs ]

abbrev pub only : List Feature → Option Feature
only (f ∷ []) = some f
only fs = none

unfoldable pub feature : List ℕ → ℕ → ℕ → ℕ → Option Feature
feature raw interface terminal channels =
    elim (walk (length raw + 1) interface channels raw
      (record { active = false; uac2 = false; sources = []; features = []; outputs = [] })) [
        | none ↦ none
        | some w ↦ only (dedup (matches w terminal w.outputs))
      ]
