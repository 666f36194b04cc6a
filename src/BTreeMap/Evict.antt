-- ===== src/BTreeMap/Evict.antt =====
-- The loop of `BTreeMap/Oldest`: what is left of a map.
use spoti_flac_mobile.Prelude.Text.{◌=ₜ◌}
use spoti_flac_mobile.Prelude.{
  ℕ, ◌≡◌, some, ◌≤◌, ◌⊎◌, Bool-cases, none, inl, Option-cases, length, arith, inr, ◌<◌, min, suc,
  leb, leb→le, zero, Option, ◌∙◌, refl, subst, sym,
}
use spoti_flac_mobile.BTreeMap.Order.{IsSorted, remove-IsSorted}
use spoti_flac_mobile.Prelude.{Option-cases}
use spoti_flac_mobile.BTreeMap.{BTreeMap, get, remove, get-remove, Text, ◌=ₜ◌, =ₜ_iff}
use spoti_flac_mobile.BTreeMap.Oldest.{
  All-get, oldest, evict, oldest-IsOldest, length-remove, IsOldest,
}

module _ {V : Type 0} (expires : V → ℕ) where
  abbrev pub Within : BTreeMap V → BTreeMap V → Type 0
  Within m m' = (j : Text) (v : V) → get j m' ≡ some v → get j m ≡ some v

  -- No entry of the map expires before `v` does.
  abbrev pub Least : V → BTreeMap V → Type 0
  Least v m' = (j : Text) (w : V) → get j m' ≡ some w → expires v ≤ expires w

  abbrev pub Fate : ℕ → BTreeMap V → Text → V → Type 0
  Fate limit m' k v = (get k m' ≡ some v) ⊎ ((get k m' ≡ none) × (length m' ≡ limit) × Least v m')

  abbrev pub Evicts : ℕ → BTreeMap V → BTreeMap V → Type 0
  Evicts limit m m' =
      IsSorted m'
      × (length m' ≡ min (length m) limit)
      × Within m m'
      × ((k : Text) (v : V) → get k m ≡ some v → Fate limit m' k v)

  Within-remove :
      (m : BTreeMap V) (k j : Text) (w : V) → get j (remove k m) ≡ some w → get j m ≡ some w
  Within-remove m k j w h = ground (arith, get-remove k j m)

  Fate-remove :
      (limit : ℕ) (m m' : BTreeMap V) (k : Text) (v : V)
      → length m' ≡ limit
      → get k m ≡ some v
      → Least v m
      → Within (remove k m) m'
      → ((i : Text) (w : V) → get i (remove k m) ≡ some w → Fate limit m' i w)
      → (j : Text) (w : V) → get j m ≡ some w
      → Fate limit m' j w
  Fate-remove limit m m' k v full found least within rest j w h = elim (Bool-cases (j =ₜ k)) [
    | inl same ↦ elim (Option-cases (get j m')) [
      | inl gone ↦ inr (
        gone,
        full,
        λ i x e.
            let w≡v : w ≡ v = ground (arith, =ₜ_iff j k) in
            subst (λ u. expires u ≤ expires x) (sym w≡v)
              (least i x (Within-remove m k i x (within i x e))),
      )
      | inr (x, kept) ↦ absurd (ground (arith, get-remove k j m, within j x kept))
    ]
    | inr differs ↦ rest j w (ground (arith, get-remove k j m))
  ]

  evict-under :
      (limit fuel : ℕ) (m : BTreeMap V) → length m ≤ limit → evict expires limit fuel m ≡ some m
  unfolding evict
  evict-under limit zero m h = ground arith
  evict-under limit (suc fuel) m h = ground arith

  evict-over :
      (limit fuel : ℕ) (m : BTreeMap V) (k : Text) (t : ℕ)
      → limit < length m
      → oldest expires m ≡ some (k, t)
      → evict expires limit (suc fuel) m ≡ evict expires limit fuel (remove k m)
  unfolding evict
  evict-over limit fuel m k t h e = ground arith

  Evicts-nothing : (limit : ℕ) (m : BTreeMap V) → IsSorted m → length m ≤ limit → Evicts limit m m
  Evicts-nothing limit m s h = (s, omega arith, λ j v e. e, λ k v e. inl e)

  -- One round of the loop, and the rounds after it.
  Evicts-step :
      (limit : ℕ) (m m' : BTreeMap V) (k : Text) (v : V)
      → IsSorted m
      → limit < length m
      → get k m ≡ some v
      → Least v m
      → Evicts limit (remove k m) m'
      → Evicts limit m m'
  Evicts-step limit m m' k v s over found least (sorted, size, within, fates) = (
    sorted,
    omega (arith, length-remove expires k v m s found),
    λ j w e. Within-remove m k j w (within j w e),
    Fate-remove limit m m' k v (omega (arith, length-remove expires k v m s found)) found least
        within fates,
  )

  abbrev pub Ends : ℕ → ℕ → BTreeMap V → Type 0
  Ends limit fuel m = (m' : BTreeMap V) × (evict expires limit fuel m ≡ some m') × Evicts limit m m'

  evict-round :
      (limit fuel : ℕ) (m : BTreeMap V) (o : Option (Text × ℕ))
      → IsSorted m
      → length m ≤ suc fuel
      → limit < length m
      → oldest expires m ≡ o
      → IsOldest expires m o
      → ((m1 : BTreeMap V) → IsSorted m1 → length m1 ≤ fuel → Ends limit fuel m1)
      → Ends limit (suc fuel) m
  evict-round limit fuel m none s h over e empty rounds = absurd (omega arith)
  evict-round limit fuel m (some (k, t)) s h over e (v, found, same, least) rounds =
      let shorter = length-remove expires k v m s found in
      let (m', ends, evicts) = rounds (remove k m) (remove-IsSorted k m s) (omega arith) in
      let min_of : Least v m =
        λ j w g. omega (arith, All-get (λ _ w. t ≤ expires w) m j w least g) in
      (
        m',
        evict-over limit fuel m k t over e ∙ ends,
        Evicts-step limit m m' k v s over found min_of evicts,
      )

  -- The loop ends without a panic on as much fuel as there are entries, and evicts the oldest.
  pub evict-Evicts :
      (limit fuel : ℕ) (m : BTreeMap V) → IsSorted m → length m ≤ fuel → Ends limit fuel m
  evict-Evicts limit zero m s h =
      (m, evict-under limit zero m (omega arith), Evicts-nothing limit m s (omega arith))
  evict-Evicts limit (suc fuel) m s h = elim (Bool-cases (leb (length m) limit)) [
    | inl under ↦
        let le = leb→le _ _ under in
        (m, evict-under limit (suc fuel) m le, Evicts-nothing limit m s le)
    | inr over ↦
        evict-round limit fuel m (oldest expires m) s h (ground arith) refl
          (oldest-IsOldest expires m s) (evict-Evicts limit fuel)
  ]
