-- ===== src/Progress/Invariant.antt =====
-- rust_backend/crates/core/src/progress/mod.rs: the invariant of every reachable registry.
use spoti_flac_mobile.Prelude.{◌≡◌, subst, true, false, some, arith, Option-cases, inl, inr}
use spoti_flac_mobile.Prelude.Text.{Text}
use spoti_flac_mobile.Prelude.Result.{ok}
use spoti_flac_mobile.BTreeMap
use spoti_flac_mobile.BTreeMap.{get-insert}
use spoti_flac_mobile.Progress.Item.{Arch, Floats}
use spoti_flac_mobile.Progress.Registry.{Shared, new, remove, shutdown}
use spoti_flac_mobile.Progress.Reads.{snapshot}
use spoti_flac_mobile.Progress.Steps.{call-update, HasRoom, Step, Reach, IsOrdered}
use spoti_flac_mobile.Progress.Keeps.{
  start-IsOrdered, clear-IsOrdered, remove_present-Taken, Taken-IsOrdered,
}
use spoti_flac_mobile.Progress.Updated.{update-Updated, Updated-IsOrdered}

new-IsOrdered : {F : Type 0} → IsOrdered (new {F = F})
unfolding new BTreeMap.get
new-IsOrdered = record {
  positive = omega arith;
  in_range = omega arith;
  items_sorted = tt;
  removed_sorted = tt;
  items_le = λ id item h. absurd (cc);
  removed_le = λ id r h. absurd (cc);
  disjoint = λ id item h. absurd (cc);
  reset_le = omega arith;
  few = omega arith;
}

-- The removal of an item never indexes out of bounds, and keeps the invariant.
pub remove-IsOrdered :
    {F : Type 0} (s : Shared F) (id : Text)
    → IsOrdered s
    → HasRoom s
    → s.state.is_closed ≡ false
    → (t : Shared F) × (remove id s ≡ some (ok tt, t)) × IsOrdered t
unfolding remove
remove-IsOrdered s id k room opened = elim (Option-cases (BTreeMap.get id s.state.items)) [
  | inl missing ↦ (
    record s { state = record s.state { dirty = true } },
    ground arith,
    record {
      positive = k.positive;
      in_range = k.in_range;
      items_sorted = k.items_sorted;
      removed_sorted = k.removed_sorted;
      items_le = k.items_le;
      removed_le = k.removed_le;
      disjoint = k.disjoint;
      reset_le = k.reset_le;
      few = k.few;
    },
  )
  | inr (item, found) ↦
      let (t, e, x) = remove_present-Taken s k room id in
      let kt : IsOrdered t = Taken-IsOrdered s k room id x in
      (
        record t { state = record t.state { dirty = true } },
        ground arith,
        record {
          positive = kt.positive;
          in_range = kt.in_range;
          items_sorted = kt.items_sorted;
          removed_sorted = kt.removed_sorted;
          items_le = kt.items_le;
          removed_le = kt.removed_le;
          disjoint = kt.disjoint;
          reset_le = kt.reset_le;
          few = kt.few;
        },
      )
]

pub opened_of_remove :
    {F : Type 0} (s t : Shared F) (id : Text)
    → remove id s ≡ some (ok tt, t)
    → s.state.is_closed ≡ false
unfolding remove
opened_of_remove s t id e = ground arith

module _ (fl : Floats) (arch : Arch) where
  open fl use {F}

  snapshot-IsOrdered : (s : Shared F) → IsOrdered s → IsOrdered (snapshot fl arch s).1
  unfolding snapshot
  snapshot-IsOrdered s k = record {
    positive = ground (arith, k.positive);
    in_range = ground (arith, k.in_range);
    items_sorted = ground (arith, k.items_sorted);
    removed_sorted = ground (arith, k.removed_sorted);
    items_le = λ id item h. ground (arith, k.items_le id item);
    removed_le = λ id r h. ground (arith, k.removed_le id r);
    disjoint = λ id item h. ground (arith, k.disjoint id item);
    reset_le = ground (arith, k.reset_le);
    few = ground (arith, k.few);
  }

  shutdown-IsOrdered : (s : Shared F) → IsOrdered s → IsOrdered (shutdown s)
  unfolding shutdown BTreeMap.get
  shutdown-IsOrdered s k = record {
    positive = k.positive;
    in_range = k.in_range;
    items_sorted = tt;
    removed_sorted = tt;
    items_le = λ id item h. absurd (cc);
    removed_le = λ id r h. absurd (cc);
    disjoint = λ id item h. absurd (cc);
    reset_le = k.reset_le;
    few = omega arith;
  }

  pub Step-IsOrdered : {s t : Shared F} → Step fl arch s t → IsOrdered s → IsOrdered t
  Step-IsOrdered (Step.start s id room) k = start-IsOrdered fl arch s k room id
  Step-IsOrdered (Step.update s c id room) k =
      rw (call-update fl arch c id s)
        (Updated-IsOrdered fl arch s k room id c (update-Updated fl arch s k room id c))
  Step-IsOrdered (Step.remove s t id room e) k =
      let (t', e', k') = remove-IsOrdered s id k room (opened_of_remove s t id e) in
      let same : t' ≡ t = cc in subst IsOrdered same k'
  Step-IsOrdered (Step.clear s room) k = clear-IsOrdered s k room
  Step-IsOrdered (Step.snapshot s) k = snapshot-IsOrdered s k
  Step-IsOrdered (Step.shutdown s) k = shutdown-IsOrdered s k

  -- In every reachable registry the revisions of items and removals lie at or below the sequence
  -- number, the sequence number has not wrapped, and at most 512 removals are remembered.
  pub Reach-IsOrdered : {t : Shared F} → Reach fl arch new t → IsOrdered t
  Reach-IsOrdered Reach.here = new-IsOrdered
  Reach-IsOrdered (Reach.next r st) = Step-IsOrdered st (Reach-IsOrdered r)
