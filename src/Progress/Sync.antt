-- ===== src/Progress/Sync.antt =====
-- rust_backend/crates/core/src/progress/mod.rs: a consumer that applies the deltas keeps up with the
-- registry.
use spoti_flac_mobile.Prelude.{
  ◌≡◌, refl, subst, Bool, true, false, not, ◌||◌, Option, none, some, List, [], ◌∷◌, if◌then◌else◌,
  arith, Bool-cases, Option-cases, inl, inr, ◌⊎◌,
}
use spoti_flac_mobile.Prelude.Int.{ℤ, pos, ◌≤ℤ◌, ◌<ℤ◌, ltb_ℤ}
use spoti_flac_mobile.Prelude.Text.{Text, ◌=ₜ◌}
use spoti_flac_mobile.BTreeMap
use spoti_flac_mobile.BTreeMap.{BTreeMap, get-insert, get-remove, retain, get}
use spoti_flac_mobile.BTreeMap.Order.{get-retain}
use spoti_flac_mobile.Progress.Item.{Arch, Floats, ItemProgress, BridgeState, bridge}
use spoti_flac_mobile.Progress.Registry.{State, Shared, Json, empty_text, delta_json, Delta}
use spoti_flac_mobile.Progress.Reads.{all_finite, delta}
use spoti_flac_mobile.Progress.Steps.{IsOrdered}

abbrev pub member : Text → List Text → Bool
member id [] = false
member id (j ∷ js) = id =ₜ j || member id js

module _ (fl : Floats) (arch : Arch) where
  open fl use {F}

  -- What a consumer shows of an item.
  abbrev pub shown : Option (ItemProgress F) → Option BridgeState
  shown none = none
  shown (some item) = some (bridge fl arch item)

  abbrev pub view : State F → Text → Option BridgeState
  view s id = shown (BTreeMap.get id s.items)

  -- How a consumer applies a document: the items that it holds replace older ones, a reset forgets
  -- the others, and a removal takes one away.
  abbrev pub apply : Json F → (Text → Option BridgeState) → Text → Option BridgeState
  apply (delta_json d) v id = elim (BTreeMap.get id d.items) [
    | some item ↦ some (bridge fl arch item)
    | none ↦ if d.reset || member id d.removed then none else v id
  ]
  apply _ v id = v id

  -- The consumer that stands at `n` with `v` can be brought up to date at one identity.
  abbrev pub Fits : ℤ → Option BridgeState → Option (ItemProgress F) → Option ℤ → Type 0
  Fits n v (some item) r = (n <ℤ item.revision) ⊎ (v ≡ some (bridge fl arch item))
  Fits n v none (some r) = (n <ℤ r) ⊎ (v ≡ none)
  Fits n v none none = v ≡ none

  pub record Sync (n : ℤ) (v : Text → Option BridgeState) (s : State F) : Type 0 where
    pub behind : n ≤ℤ s.seq
    pub fits :
        (id : Text)
        → (n <ℤ s.reset) ⊎ Fits n (v id) (BTreeMap.get id s.items) (BTreeMap.get id s.removed)

  Fits-self : (n : ℤ) (o : Option (ItemProgress F)) (r : Option ℤ) → Fits n (shown o) o r
  Fits-self n none none = refl
  Fits-self n none (some r) = inr refl
  Fits-self n (some item) r = inr refl

  pub Sync-refl : (s : State F) → Sync s.seq (view s) s
  Sync-refl s = record {
    behind = omega arith;
    fits = λ id. inr (Fits-self s.seq (BTreeMap.get id s.items) (BTreeMap.get id s.removed));
  }

  all_finite-retain :
      (p : Text → ItemProgress F → Bool) (m : BTreeMap (ItemProgress F))
      → all_finite fl arch m ≡ true
      → all_finite fl arch (BTreeMap.retain p m) ≡ true
  unfolding all_finite retain
  all_finite-retain p [] h = h
  all_finite-retain p ((j, i) ∷ m) h = ground (arith, all_finite-retain p m)

  abbrev is_some {ℓ} : {A : Type ℓ} → Option A → Bool
  is_some none = false
  is_some (some a) = true

  member-keys :
      (id : Text) (m : BTreeMap ℤ) → member id (BTreeMap.keys m) ≡ is_some (BTreeMap.get id m)
  unfolding get
  member-keys id [] = refl
  member-keys id ((j, r) ∷ m) = ground (arith, member-keys id m)

  module _ (n : ℤ) (v : Text → Option BridgeState) (s : Shared F) (k : IsOrdered s)
      (y : Sync n v s.state) (id : Text) where
    -- Nothing is new, and the consumer shows it all.
    up_to_date : ltb_ℤ n s.state.seq ≡ false → v id ≡ view s.state id
    up_to_date current = elim (Option-cases (BTreeMap.get id s.state.items)) [
      | inl gone ↦ elim (Option-cases (BTreeMap.get id s.state.removed)) [
        | inl never ↦ ground (arith, y.fits id, k.reset_le)
        | inr (r, removed) ↦ ground (arith, y.fits id, k.reset_le, k.removed_le id r removed)
      ]
      | inr (item, found) ↦ ground (arith, y.fits id, k.reset_le, k.items_le id item found)
    ]

    abbrev resets : Bool
    resets = not (ltb_ℤ (pos 0) n) || ltb_ℤ n s.state.reset

    abbrev newer : Text → ItemProgress F → Bool
    newer _ item = resets || ltb_ℤ n item.revision

    abbrev gone_since : Text → ℤ → Bool
    gone_since _ revision = ltb_ℤ n revision

    abbrev document : Delta F
    document = record {
      seq = s.state.seq;
      reset = resets;
      items = BTreeMap.retain newer s.state.items;
      removed = if resets then [] else BTreeMap.keys (BTreeMap.retain gone_since s.state.removed);
    }

    delta-document :
        ltb_ℤ n s.state.seq ≡ true
        → all_finite fl arch s.state.items ≡ true
        → delta fl arch n s.state ≡ delta_json document
    unfolding delta
    delta-document behind fin = rw (behind, all_finite-retain newer s.state.items fin) refl

    delta-empty : ltb_ℤ n s.state.seq ≡ false → delta fl arch n s.state ≡ empty_text
    unfolding delta
    delta-empty current = rw current refl

    apply_item :
        (item : ItemProgress F)
        → BTreeMap.get id s.state.items ≡ some item
        → apply (delta_json document) v id ≡ some (bridge fl arch item)
    apply_item item found = ground (
      arith,
      get-retain newer id s.state.items k.items_sorted,
      k.disjoint id item found,
      subst (λ o. (n <ℤ s.state.reset) ⊎ Fits n (v id) o (BTreeMap.get id s.state.removed)) found
          (y.fits id),
      get-retain gone_since id s.state.removed k.removed_sorted,
      member-keys id (BTreeMap.retain gone_since s.state.removed),
    )

    apply-none : BTreeMap.get id s.state.items ≡ none → apply (delta_json document) v id ≡ none
    apply-none missing = ground (
      arith,
      get-retain newer id s.state.items k.items_sorted,
      y.fits id,
      get-retain gone_since id s.state.removed k.removed_sorted,
      member-keys id (BTreeMap.retain gone_since s.state.removed),
    )

    -- A consumer in step with the registry applies the delta since its own sequence number, and
    -- then shows what the registry holds.
    pub apply-delta :
        all_finite fl arch s.state.items ≡ true
        → apply (delta fl arch n s.state) v id ≡ view s.state id
    apply-delta fin = elim (Bool-cases (ltb_ℤ n s.state.seq)) [
      | inr current ↦ rw (delta-empty current) (up_to_date current)
      | inl behind ↦ elim (Option-cases (BTreeMap.get id s.state.items)) [
        | inl missing ↦ rw (delta-document behind fin, missing) (apply-none missing)
        | inr (item, found) ↦ rw (delta-document behind fin, found) (apply_item item found)
      ]
    ]
