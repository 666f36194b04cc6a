-- ===== src/Progress/Reporter/Taken.antt =====
-- rust_backend/crates/core/src/progress/reporter.rs: what the registry shows after a report.
use spoti_flac_mobile.Progress.Reporter.{forward}
use spoti_flac_mobile.BTreeMap.{get-insert}
use spoti_flac_mobile.Prelude.Int.{ℤ, ltb_ℤ, pos}
use spoti_flac_mobile.Prelude.Text.{Text, ◌=ₜ◌, =ₜ_iff, codes}
use spoti_flac_mobile.Progress.Item.{
  received_item, progress_item, Floats, mark_downloading, ItemProgress, Arch, bridge_eq, bridge,
}
use spoti_flac_mobile.Progress.Registry.{next}
use spoti_flac_mobile.Prelude.{
  ◌≡◌, if_cases, if◌then◌else◌, false, some, arith, ◌||◌, refl, not, Bool-cases, inl, inr, true,
}
use spoti_flac_mobile.BTreeMap
use spoti_flac_mobile.Progress.Registry

received_item_bytes :
    (fl : Floats) (arch : Arch) (received : ℤ) (item : ItemProgress fl.F)
    → ((received_item fl arch received item).bytes_received ≡ received)
      × ((received_item fl arch received item).bytes_total ≡ item.bytes_total)
      × ((received_item fl arch received item).progress ≡ (
          if ltb_ℤ (pos 0) item.bytes_total
          then fl.div (fl.of_i64 received) (fl.of_i64 item.bytes_total)
          else item.progress))
unfolding received_item mark_downloading
received_item_bytes fl arch received item =
    if_cases {A = ItemProgress fl.F}
      (λ i.
        (i.bytes_received ≡ received)
        × (i.bytes_total ≡ item.bytes_total)
        × (i.progress ≡ (
            if ltb_ℤ (pos 0) item.bytes_total
            then fl.div (fl.of_i64 received) (fl.of_i64 item.bytes_total)
            else item.progress)))
      (ltb_ℤ (pos 0) received) _ _ (λ _. (refl, refl, refl)) (λ _. (refl, refl, refl))

progress_item_share :
    (fl : Floats) (arch : Arch) (progress : fl.F) (received total : ℤ) (item : ItemProgress fl.F)
    → ltb_ℤ (pos 0) total ≡ true
    → (progress_item fl arch progress received total item).progress ≡ progress
unfolding progress_item mark_downloading
progress_item_share fl arch progress received total item known =
    if_cases {A = ItemProgress fl.F} (λ i. i.progress ≡ progress)
      ((ltb_ℤ (pos 0) received || ltb_ℤ (pos 0) total)
        || (fl.le fl.one progress || item.status =ₜ codes "downloading"))
      _ _ (λ _. ground (arith, known)) (λ _. ground (arith, known))

progress_item_bytes :
    (fl : Floats) (arch : Arch) (progress : fl.F) (received total : ℤ) (item : ItemProgress fl.F)
    → ((progress_item fl arch progress received total item).bytes_received
        ≡ (if ltb_ℤ (pos 0) received then received else item.bytes_received))
      × ((progress_item fl arch progress received total item).bytes_total
          ≡ (if ltb_ℤ (pos 0) total then total else item.bytes_total))
unfolding progress_item mark_downloading
progress_item_bytes fl arch progress received total item =
    if_cases {A = ItemProgress fl.F}
      (λ i.
        (i.bytes_received ≡ (if ltb_ℤ (pos 0) received then received else item.bytes_received))
        × (i.bytes_total ≡ (if ltb_ℤ (pos 0) total then total else item.bytes_total)))
      ((ltb_ℤ (pos 0) received || ltb_ℤ (pos 0) total)
        || (fl.le fl.one progress || item.status =ₜ codes "downloading"))
      _ _ (λ _. (refl, refl)) (λ _. (refl, refl))

module _ {F : Type 0} where
  -- An open registry shows an item.
  abbrev pub Shows : Text → ItemProgress F → Registry.Shared F → Type 0
  Shows id item p = (p.state.is_closed ≡ false) × (BTreeMap.get id p.state.items ≡ some item)

  -- Only that item has changed.
  abbrev pub ChangesTo : Text → ItemProgress F → Registry.Shared F → Registry.Shared F → Type 0
  ChangesTo id item p p' =
      (j : Text)
      → BTreeMap.get j p'.state.items
        ≡ (if j =ₜ id then some item else BTreeMap.get j p.state.items)

module _ (fl : Floats) (arch : Arch) where
  open fl use {F}

  update-Shows :
      (id : Text) (change : ItemProgress F → ItemProgress F) (item : ItemProgress F)
      (p : Registry.Shared F)
      → Shows id item p
      → let p' = (Registry.update fl arch id change p).1 in
        (revision : ℤ) × Shows id (record (change item) { revision = revision }) p'
        × ChangesTo id (record (change item) { revision = revision }) p p'
  unfolding Registry.update Registry.check Registry.next
  update-Shows id change item p (opened, found) =
      rw (opened, found)
        (if_cases {A = Registry.Answer F (Unit {0})}
          (λ a.
            (revision : ℤ) × Shows id (record (change item) { revision = revision }) a.1
            × ChangesTo id (record (change item) { revision = revision }) p a.1)
          (bridge_eq (bridge fl arch (change item)) (bridge fl arch item)) _ _
          (λ _. (
            (change item).revision,
            (opened, inserted (change item)),
            λ j. get-insert id j (change item) p.state.items,
          ))
          (λ _. ((_, (opened, inserted _), λ j. get-insert id j _ p.state.items))))
    where
      inserted :
          (i : ItemProgress F) → BTreeMap.get id (BTreeMap.insert id i p.state.items) ≡ some i
      inserted i = ground (arith, get-insert id id i p.state.items, =ₜ_iff id id)

  -- The bytes that an item shows after a report; `set_progress` keeps them when none have come.
  abbrev pub received_after : ℤ → ℤ → ℤ → ℤ
  received_after received total old =
      if ltb_ℤ (pos 0) received || not (ltb_ℤ (pos 0) total) then received else old

  abbrev pub total_after : ℤ → ℤ → ℤ
  total_after total old = if ltb_ℤ (pos 0) total then total else old

  -- The share of the total that the item then shows, if it is known.
  abbrev pub share_after : ℤ → ℤ → F → F
  share_after received total old =
      if ltb_ℤ (pos 0) total then fl.div (fl.of_i64 received) (fl.of_i64 total) else old

  -- The registry shows the bytes, the total and the share of a report at its item, and no other item
  -- has changed.
  abbrev pub Takes : Text → ℤ → ℤ → ItemProgress F → Registry.Shared F → Registry.Shared F → Type 0
  Takes id received total item p p' =
      (item' : ItemProgress F) × Shows id item' p'
      × (item'.bytes_received ≡ received_after received total item.bytes_received)
      × (item'.bytes_total ≡ total_after total item.bytes_total)
      × (item'.progress ≡ share_after received (total_after total item.bytes_total) item.progress)
      × ChangesTo id item' p p'

  pub forward-Takes :
      (id : Text) (received total : ℤ) (item : ItemProgress F) (p : Registry.Shared F)
      → Shows id item p
      → Takes id received total item p (forward fl arch id received total p)
  unfolding forward
  forward-Takes id received total item p shown = elim (Bool-cases (ltb_ℤ (pos 0) total)) [
    | inl known ↦
        let progress = fl.div (fl.of_i64 received) (fl.of_i64 total) in
        let (revision, shows, only) =
          update-Shows id (progress_item fl arch progress received total) item p shown in
        let (bytes, all) = progress_item_bytes fl arch progress received total item in
        let share = progress_item_share fl arch progress received total item known in
        rw known (
          _,
          shows,
          ground (arith, bytes, known),
          ground (arith, all, known),
          ground (arith, share, known),
          only,
        )
    | inr unknown ↦
        let (revision, shows, only) =
          update-Shows id (received_item fl arch received) item p shown in
        let (bytes, all, share) = received_item_bytes fl arch received item in
        rw unknown
          (_, shows, ground (arith, bytes, unknown), ground (arith, all, unknown), share, only)
  ]

  pub set_received_with_speed-Shows :
      (id : Text) (received : ℤ) (speed : F) (item : ItemProgress F) (p : Registry.Shared F)
      → Shows id item p
      → let p' = (Registry.set_received_with_speed fl arch id received speed p).1 in
        (item' : ItemProgress F) × Shows id item' p'
        × (item'.bytes_received ≡ received)
        × ChangesTo id item' p p'
  set_received_with_speed-Shows id received speed item p shown =
      let (revision, shows, only) =
        update-Shows id (λ i. received_item fl arch received (record i { speed_mbps = speed })) item
          p shown in
      let (bytes, all, share) =
        received_item_bytes fl arch received (record item { speed_mbps = speed }) in
      (_, shows, bytes, only)
