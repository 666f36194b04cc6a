-- ===== src/BTreeMap/Clean.antt =====
-- The clean-up that the caches of rust_backend/crates/providers/src share: what has expired goes, and
-- then the oldest until few are left.
use spoti_flac_mobile.Prelude.{Option-cases, leb→le}
use spoti_flac_mobile.Prelude.{Option-cases, refl}
use spoti_flac_mobile.Prelude.{
  ℕ, ℕ, Bool, ◌≡◌, length, leb, some, ◌≤◌, ◌⊎◌, arith, Bool-cases, none, inl, ◌<◌, inr,
  Option-cases,
}
use spoti_flac_mobile.BTreeMap
use spoti_flac_mobile.BTreeMap.{BTreeMap, Text}
use spoti_flac_mobile.BTreeMap.Order.{IsSorted, retain-IsSorted, get-retain}
use spoti_flac_mobile.BTreeMap.Oldest.{All, evict, pointwise-All, live}
use spoti_flac_mobile.BTreeMap.Evict.{evict-Evicts, Fate, Least, Within}

module _ {V : Type 0} (expires : V → ℕ) where
  -- An entry that a clean-up finds is still there, or has expired, or made room.
  abbrev pub Outlives : ℕ → ℕ → BTreeMap V → Text → V → Type 0
  Outlives most now m' j e =
      (BTreeMap.get j m' ≡ some e)
      ⊎ ((BTreeMap.get j m' ≡ none)
          × ((expires e < now) ⊎ ((length m' ≡ most) × Least expires e m')))

  abbrev pub Cleans : ℕ → ℕ → BTreeMap V → BTreeMap V → Type 0
  Cleans most now m m' =
      IsSorted m'
      × (length m' ≤ most)
      × Within expires m m'
      × ((j : Text) (e : V) → BTreeMap.get j m ≡ some e → Outlives most now m' j e)

  abbrev alive : ℕ → Text → V → Bool
  alive now k e = leb now (expires e)

  Within-retain :
      (now : ℕ) (m : BTreeMap V) (j : Text) (e : V)
      → IsSorted m
      → BTreeMap.get j (BTreeMap.retain (alive now) m) ≡ some e
      → BTreeMap.get j m ≡ some e
  Within-retain now m j e s h = ground (arith, get-retain (alive now) j m)

  Outlives-retain :
      (most now : ℕ) (m m' : BTreeMap V) (j : Text) (e : V)
      → IsSorted m
      → Within expires (BTreeMap.retain (alive now) m) m'
      → ((i : Text) (w : V)
          → BTreeMap.get i (BTreeMap.retain (alive now) m) ≡ some w
          → Fate expires most m' i w)
      → BTreeMap.get j m ≡ some e
      → Outlives most now m' j e
  Outlives-retain most now m m' j e s within fates h = elim (Bool-cases (leb now (expires e))) [
    | inl lives ↦ elim (fates j e (ground (arith, get-retain (alive now) j m))) [
      | inl there ↦ inl there
      | inr (gone, full, least) ↦ inr (gone, inr (full, least))
    ]
    | inr dead ↦ elim (Option-cases (BTreeMap.get j m')) [
      | inl gone ↦ inr (gone, inl (ground arith))
      | inr (w, there) ↦ absurd (ground (arith, within j w there, get-retain (alive now) j m))
    ]
  ]

  pub clean-Cleans :
      (most now : ℕ) (m : BTreeMap V)
      → IsSorted m
      → (m' : BTreeMap V) × (evict expires most
            (length (BTreeMap.retain (alive now) m))
            (BTreeMap.retain (alive now) m)
          ≡ some m')
        × Cleans most now m m'
  clean-Cleans most now m s =
      let kept = BTreeMap.retain (alive now) m in
      let (m', ends, (sorted, size, within, fates)) =
        evict-Evicts expires most (length kept) kept (retain-IsSorted (alive now) m s)
          (omega arith) in
      (
        m',
        ends,
        (
          sorted,
          omega arith,
          (λ j e h. Within-retain now m j e s (within j e h)),
          λ j e h. Outlives-retain most now m m' j e s within fates h,
        ),
      )

  pub Cleans-nothing :
      (most now : ℕ) (m : BTreeMap V) → IsSorted m → length m ≤ most → Cleans most now m m
  Cleans-nothing most now m s h = (s, h, (λ j e g. g), λ j e g. inl g)

  -- Nothing is found because the bucket is full of entries that live as long.
  abbrev pub MadeRoom : ℕ → ℕ → BTreeMap V → Type 0
  MadeRoom most t m = (length m ≡ most) × All (λ _ w. t ≤ expires w) m

  pub live-Cleans :
      {B : Type 0} (value : V → B) (most now t : ℕ) (m m' : BTreeMap V) (j : Text)
      → now ≤ t
      → Cleans most now m m'
      → (live expires value t (BTreeMap.get j m') ≡ live expires value t (BTreeMap.get j m))
        ⊎ ((live expires value t (BTreeMap.get j m') ≡ none) × MadeRoom most t m')
  live-Cleans value most now t m m' j le (sorted, size, within, fates) =
      elim (Option-cases (BTreeMap.get j m)) [
        | inl missing ↦ elim (Option-cases (BTreeMap.get j m')) [
          | inl gone ↦ inl (rw (missing, gone) refl)
          | inr (w, there) ↦ let e = within j w there in absurd (cc)
        ]
        | inr (e, found) ↦ elim (fates j e found) [
          | inl there ↦ inl (rw (there, found) refl)
          | inr (gone, inl expired) ↦ inl (ground arith)
          | inr (gone, inr (full, least)) ↦ elim (Bool-cases (leb t (expires e))) [
            | inl lives ↦ inr (
              rw gone refl,
              (
                full,
                pointwise-All (λ _ w. t ≤ expires w) m' sorted
                    (λ i w h. omega (arith, least i w h, leb→le _ _ lives)),
              ),
            )
            | inr dead ↦ inl (ground arith)
          ]
        ]
      ]
