-- ===== src/BTreeMap.antt =====
-- Rust's `BTreeMap<String, V>` as a list of entries in the order of the keys. The standard
-- library's map is not code of the repository: this is the contract that the registries use.
pub mod Order
pub mod Oldest
pub mod Evict
pub mod Clean
use spoti_flac_mobile.Prelude.{
  ℕ, ◌≡◌, refl, Bool, true, false, Option, none, some, List, [], ◌∷◌, map, Ordering, arith,
  if◌then◌else◌, length,
}
use spoti_flac_mobile.Prelude.Text.{Text, text_cmp, ◌=ₜ◌, =ₜ_iff}

abbrev pub BTreeMap {ℓ} : Type ℓ → Type ℓ
BTreeMap V = List (Text × V)

module _ {ℓ} {V : Type ℓ} where
  unfoldable pub get : Text → BTreeMap V → Option V
  get k [] = none
  get k ((j, v) ∷ m) = if k =ₜ j then some v else get k m

  unfoldable pub insert : Text → V → BTreeMap V → BTreeMap V
  insert k v [] = (k, v) ∷ []
  insert k v ((j, w) ∷ m) =
      let rest = insert k v m in
      elim (text_cmp k j) [
        | Ordering.lt ↦ (k, v) ∷ (j, w) ∷ m
        | Ordering.eq ↦ (k, v) ∷ m
        | Ordering.gt ↦ (j, w) ∷ rest
      ]

  unfoldable pub remove : Text → BTreeMap V → BTreeMap V
  remove k [] = []
  remove k ((j, w) ∷ m) = let rest = remove k m in if k =ₜ j then rest else (j, w) ∷ rest

  unfoldable pub retain : (Text → V → Bool) → BTreeMap V → BTreeMap V
  retain p [] = []
  retain p ((j, w) ∷ m) = let rest = retain p m in if p j w then (j, w) ∷ rest else rest

  abbrev pub values : BTreeMap V → List V
  values = map (λ e. e.1)

  abbrev pub keys : BTreeMap V → List Text
  keys = map (λ e. e.0)

  pub get-insert :
      (k j : Text) (v : V) (m : BTreeMap V)
      → get j (insert k v m) ≡ (if j =ₜ k then some v else get j m)
  unfolding get insert
  get-insert k j v [] = refl
  get-insert k j v ((i, w) ∷ m) =
      ground (arith, =ₜ_iff k i, =ₜ_iff j i, =ₜ_iff j k, get-insert k j v m)

  pub get-remove :
      (k j : Text) (m : BTreeMap V) → get j (remove k m) ≡ (if j =ₜ k then none else get j m)
  unfolding get remove
  get-remove k j [] = ground arith
  get-remove k j ((i, w) ∷ m) = ground (arith, =ₜ_iff k i, =ₜ_iff j i, =ₜ_iff j k, get-remove k j m)

pub ruleset map_laws = (get-insert, get-remove)
