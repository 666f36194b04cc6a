-- ===== src/Progress/Steps.antt =====
-- rust_backend/crates/core/src/progress/mod.rs: the steps that the registry's callers can take, and
-- the order of its revisions.
use spoti_flac_mobile.Prelude.{◌≤◌, ◌^◌, ◌≡◌, none, some, length, arith, refl, ◌-◌}
use spoti_flac_mobile.Prelude.Int.{ℤ, pos, ◌≤ℤ◌, ◌<ℤ◌}
use spoti_flac_mobile.Prelude.Text.{Text}
use spoti_flac_mobile.Prelude.Result.{ok}
use spoti_flac_mobile.BTreeMap
use spoti_flac_mobile.BTreeMap.Order.{IsSorted}
use spoti_flac_mobile.Progress.Item.{
  Arch, Floats, ItemProgress, mark_downloading, received_item, preparing_item, progress_item,
  finalizing_item, completed_item,
}
use spoti_flac_mobile.Progress.Registry.{State, Shared, max_removed}
use spoti_flac_mobile.Progress.Registry
use spoti_flac_mobile.Progress.Reads

-- The methods that change one item through `update`.
pub data Change (F : Type 0) : Type 0 where
  preparing : Text → Change F
  downloading : Change F
  set_total : ℤ → Change F
  set_received : ℤ → Change F
  set_received_with_speed : ℤ → F → Change F
  set_progress : F → ℤ → ℤ → Change F
  finalizing : Change F
  complete : Change F

-- The sequence number has not reached `i64::MAX`, so that one more does not wrap.
abbrev pub HasRoom : {F : Type 0} → Shared F → Type 0
HasRoom s = s.state.seq <ℤ pos (2 ^ 63 - 1)

module _ (fl : Floats) (arch : Arch) where
  open fl use {F}

  abbrev pub call : Change F → Text → Shared F → Registry.Answer F (Unit {0})
  call (preparing stage) id = Registry.preparing fl arch id stage
  call downloading id = Registry.downloading fl arch id
  call (set_total total) id = Registry.set_total fl arch id total
  call (set_received received) id = Registry.set_received fl arch id received
  call (set_received_with_speed received speed) id =
      Registry.set_received_with_speed fl arch id received speed
  call (set_progress progress received total) id =
      Registry.set_progress fl arch id progress received total
  call finalizing id = Registry.finalizing fl arch id
  call complete id = Registry.complete fl arch id

  abbrev pub change : Change F → ItemProgress F → ItemProgress F
  change (preparing stage) = preparing_item fl arch stage
  change downloading = mark_downloading fl arch
  change (set_total total) = λ item. record item { bytes_total = total }
  change (set_received received) = received_item fl arch received
  change (set_received_with_speed received speed) =
      λ item. received_item fl arch received (record item { speed_mbps = speed })
  change (set_progress progress received total) = progress_item fl arch progress received total
  change finalizing = finalizing_item fl arch
  change complete = completed_item fl arch

  pub call-update :
      (c : Change F) (id : Text) (s : Shared F)
      → call c id s ≡ Registry.update fl arch id (change c) s
  call-update (preparing stage) id s = refl
  call-update downloading id s = refl
  call-update (set_total total) id s = refl
  call-update (set_received received) id s = refl
  call-update (set_received_with_speed received speed) id s = refl
  call-update (set_progress progress received total) id s = refl
  call-update finalizing id s = refl
  call-update complete id s = refl

  -- No method touches the revision by itself.
  pub revision-change :
      (c : Change F) (item : ItemProgress F) → (change c item).revision ≡ item.revision
  unfolding preparing_item mark_downloading received_item progress_item finalizing_item
      completed_item
  revision-change (preparing stage) item = refl
  revision-change downloading item = refl
  revision-change (set_total total) item = refl
  revision-change (set_received received) item = ground arith
  revision-change (set_received_with_speed received speed) item = ground arith
  revision-change (set_progress progress received total) item = ground arith
  revision-change finalizing item = refl
  revision-change complete item = refl

  pub data Step : Shared F → Shared F → Type 0 where
    start : (s : Shared F) (id : Text) → HasRoom s → Step s (Registry.start fl arch id s).1
    update : (s : Shared F) (c : Change F) (id : Text) → HasRoom s → Step s (call c id s).1
    remove :
        (s t : Shared F) (id : Text) → HasRoom s → Registry.remove id s ≡ some (ok tt, t) → Step s t
    clear : (s : Shared F) → HasRoom s → Step s (Registry.clear s).1
    snapshot : (s : Shared F) → Step s (Reads.snapshot fl arch s).1
    shutdown : (s : Shared F) → Step s (Registry.shutdown s)

  pub data Reach (s : Shared F) : Shared F → Type 0 where
    here : Reach s s
    next : {t u : Shared F} → Reach s t → Step t u → Reach s u

-- No identity is both an item and a removal, revisions lie at or below the sequence number, and no more than `max_removed` removals are kept.
pub record IsOrdered {F : Type 0} (s : Shared F) : Type 0 where
  pub positive : pos 0 ≤ℤ s.state.seq
  pub in_range : s.state.seq <ℤ pos (2 ^ 63)
  pub items_sorted : IsSorted s.state.items
  pub removed_sorted : IsSorted s.state.removed
  pub items_le :
      (id : Text) (item : ItemProgress F)
      → BTreeMap.get id s.state.items ≡ some item
      → item.revision ≤ℤ s.state.seq
  pub removed_le :
      (id : Text) (revision : ℤ)
      → BTreeMap.get id s.state.removed ≡ some revision
      → revision ≤ℤ s.state.seq
  pub disjoint :
      (id : Text) (item : ItemProgress F)
      → BTreeMap.get id s.state.items ≡ some item
      → BTreeMap.get id s.state.removed ≡ none
  pub reset_le : s.state.reset ≤ℤ s.state.seq
  pub few : length s.state.removed ≤ max_removed
