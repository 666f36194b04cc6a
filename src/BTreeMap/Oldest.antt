-- ===== src/BTreeMap/Oldest.antt =====
-- The loop that takes the oldest entries out of a map until few are left, which the caches of
-- rust_backend/crates/providers/src share:
--   while entries.len() > limit { remove the key of entries.iter().min_by_key(expiry) }
use spoti_flac_mobile.Prelude.Text.{text_cmp_refl}
use spoti_flac_mobile.Prelude.{
  ℕ, Option, ◌≡◌, some, none, if◌then◌else◌, leb, length, suc, zero, arith, ◌≤◌, ◌+◌, refl,
  if_cases, leb→le,
}
use spoti_flac_mobile.Prelude.{[], ◌∷◌, ℕ, zero, suc}
use spoti_flac_mobile.BTreeMap.Order.{get_head, IsSorted, After, get-After}
use spoti_flac_mobile.BTreeMap.{BTreeMap, get, remove, Text, =ₜ_iff}

module _ {V : Type 0} where
  -- Every entry satisfies a predicate.
  abbrev pub All : (Text → V → Type 0) → BTreeMap V → Type 0
  All P [] = Unit
  All P ((k, v) ∷ m) = P k v × All P m

  pub All-get :
      (P : Text → V → Type 0) (m : BTreeMap V) (k : Text) (v : V)
      → All P m
      → get k m ≡ some v
      → P k v
  unfolding get
  All-get P [] k v h e = absurd (cc)
  All-get P ((j, w) ∷ m) k v h e = ground (arith, =ₜ_iff k j, All-get P m k v)

  pub pointwise-All :
      (P : Text → V → Type 0) (m : BTreeMap V)
      → IsSorted m
      → ((k : Text) (v : V) → get k m ≡ some v → P k v)
      → All P m
  unfolding get
  pointwise-All P [] s h = tt
  pointwise-All P ((j, w) ∷ m) s h = (
    h j w (get_head j w m),
    pointwise-All P m s.1 (λ k v e. h k v (ground (arith, =ₜ_iff k j, get-After j m))),
  )

  remove-After : (k : Text) (m : BTreeMap V) → After k m → remove k m ≡ m
  unfolding remove
  remove-After k [] a = refl
  remove-After k ((j, w) ∷ m) a = ground (arith, =ₜ_iff k j, remove-After k m, text_cmp_refl k)

module _ {V : Type 0} (expires : V → ℕ) where
  -- `.filter(|entry| now <= entry.expires)` and then `.map(value)`.
  abbrev pub live : {B : Type 0} → (V → B) → ℕ → Option V → Option B
  live value now none = none
  live value now (some v) = if leb now (expires v) then some (value v) else none

  abbrev older : Text → ℕ → Option (Text × ℕ) → Option (Text × ℕ)
  older k t none = some (k, t)
  older k t (some (j, u)) = if leb t u then some (k, t) else some (j, u)

  -- `min_by_key`: the first of the entries that expire first.
  unfoldable pub oldest : BTreeMap V → Option (Text × ℕ)
  oldest [] = none
  oldest ((k, v) ∷ m) = older k (expires v) (oldest m)

  -- `none` is the panic of an `unwrap`, or that the fuel is used up.
  unfoldable pub evict : ℕ → ℕ → BTreeMap V → Option (BTreeMap V)
  evict limit zero m = if leb (length m) limit then some m else none
  evict limit (suc fuel) m =
      if leb (length m) limit
      then some m
      else elim (oldest m) [ none ↦ none | some (k, t) ↦ evict limit fuel (remove k m) ]

  abbrev pub IsOldest : BTreeMap V → Option (Text × ℕ) → Type 0
  IsOldest m none = length m ≡ 0
  IsOldest m (some (k, t)) =
      (v : V) × (get k m ≡ some v) × (expires v ≡ t) × All (λ _ w. t ≤ expires w) m

  All-le :
      (t u : ℕ) (m : BTreeMap V)
      → t ≤ u
      → All (λ _ w. u ≤ expires w) m
      → All (λ _ w. t ≤ expires w) m
  All-le t u [] h a = tt
  All-le t u ((k, v) ∷ m) h a = (omega arith, All-le t u m h a.1)

  older-IsOldest :
      (k : Text) (v : V) (m : BTreeMap V) (o : Option (Text × ℕ))
      → IsSorted ((k, v) ∷ m)
      → IsOldest m o
      → IsOldest ((k, v) ∷ m) (older k (expires v) o)
  unfolding get
  older-IsOldest k v [] none s h = (v, get_head k v [], refl, (omega arith, tt))
  older-IsOldest k v (e ∷ m) none s h = absurd (ground arith)
  older-IsOldest k v m (some (j, u)) s (w, found, same, least) =
      if_cases (IsOldest ((k, v) ∷ m)) (leb (expires v) u) (some (k, expires v)) _
        (λ le.
          (v, get_head k v m, refl, (omega arith, All-le (expires v) u m (leb→le _ _ le) least)))
        (λ gt. (w, ground (arith, =ₜ_iff j k, get-After k m), same, (ground arith, least)))

  pub oldest-IsOldest : (m : BTreeMap V) → IsSorted m → IsOldest m (oldest m)
  unfolding oldest
  oldest-IsOldest [] s = refl
  oldest-IsOldest ((k, v) ∷ m) s = older-IsOldest k v m (oldest m) s (oldest-IsOldest m s.1)

  pub length-remove :
      (k : Text) (v : V) (m : BTreeMap V)
      → IsSorted m
      → get k m ≡ some v
      → length (remove k m) + 1 ≡ length m
  unfolding get remove
  length-remove k v [] s h = absurd (cc)
  length-remove k v ((j, w) ∷ m) s h =
      ground (arith, =ₜ_iff k j, length-remove k v m, remove-After k m)
