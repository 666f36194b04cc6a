-- ===== src/Progress/Updated.antt =====
-- rust_backend/crates/core/src/progress/mod.rs: the three ways of `update`, each of which keeps the
-- order of the revisions.
use spoti_flac_mobile.Prelude.{◌≡◌, sym, subst, some, arith, Bool-cases, Option-cases, inl, inr}
use spoti_flac_mobile.Prelude.Text.{Text, =ₜ_iff}
use spoti_flac_mobile.BTreeMap
use spoti_flac_mobile.BTreeMap.{get-insert}
use spoti_flac_mobile.BTreeMap.Order.{insert-IsSorted}
use spoti_flac_mobile.Progress.Item.{Arch, Floats, ItemProgress, bridge_eq, bridge, eq_of_bridge_eq}
use spoti_flac_mobile.Progress.Registry.{Shared, update}
use spoti_flac_mobile.Progress.Steps.{Change, change, revision-change, HasRoom, IsOrdered}
use spoti_flac_mobile.Progress.Keeps.{seq', bumped, rises, stays_positive, stays_in_range}

module _ (fl : Floats) (arch : Arch) where
  open fl use {F}

  module _ (s : Shared F) (k : IsOrdered s) (room : HasRoom s) (id : Text) (c : Change F) where
    -- The states that `update` may lead to.
    abbrev quiet : ItemProgress F → Shared F
    quiet item = record s {
      state = record s.state { items = BTreeMap.insert id (change fl arch c item) s.state.items };
    }

    abbrev loud : ItemProgress F → Shared F
    loud item =
        bumped s k room
          (BTreeMap.insert id (record (change fl arch c item) { revision = seq' s k room })
            s.state.items)
          s.state.removed s.state.reset

    quiet-IsOrdered :
        (item : ItemProgress F) → BTreeMap.get id s.state.items ≡ some item → IsOrdered (quiet item)
    quiet-IsOrdered item found = record {
      positive = k.positive;
      in_range = k.in_range;
      items_sorted = insert-IsSorted id _ s.state.items k.items_sorted;
      removed_sorted = k.removed_sorted;
      items_le = λ j i h. ground (
        arith,
        get-insert id j (change fl arch c item) s.state.items,
        k.items_le j i,
        k.items_le id item found,
        revision-change fl arch c item,
      );
      removed_le = k.removed_le;
      disjoint = λ j i h. ground (
        arith,
        get-insert id j (change fl arch c item) s.state.items,
        k.disjoint j i,
        k.disjoint id item found,
        =ₜ_iff j id,
      );
      reset_le = k.reset_le;
      few = k.few;
    }

    loud-IsOrdered :
        (item : ItemProgress F) → BTreeMap.get id s.state.items ≡ some item → IsOrdered (loud item)
    loud-IsOrdered item found = record {
      positive = stays_positive s k room;
      in_range = stays_in_range s k room;
      items_sorted = insert-IsSorted id _ s.state.items k.items_sorted;
      removed_sorted = k.removed_sorted;
      items_le = λ j i h. ground (
        arith,
        get-insert id j (record (change fl arch c item) { revision = seq' s k room }) s.state.items,
        k.items_le j i,
        rises s k room,
      );
      removed_le = λ j r h. ground (arith, k.removed_le j r, rises s k room);
      disjoint = λ j i h. ground (
        arith,
        get-insert id j (record (change fl arch c item) { revision = seq' s k room }) s.state.items,
        k.disjoint j i,
        k.disjoint id item found,
        =ₜ_iff j id,
      );
      reset_le = ground (arith, k.reset_le, rises s k room);
      few = k.few;
    }

    -- The three ways of `update`: nothing, a change that does not show, and a change that does.
    pub data Updated : Shared F → Type 0 where
      same : Updated s
      hidden :
          (item : ItemProgress F)
          → BTreeMap.get id s.state.items ≡ some item
          → bridge fl arch (change fl arch c item) ≡ bridge fl arch item
          → Updated (quiet item)
      shown_change :
          (item : ItemProgress F) → BTreeMap.get id s.state.items ≡ some item → Updated (loud item)

    pub update-Updated : Updated (update fl arch id (change fl arch c) s).1
    unfolding update
    update-Updated = elim (Bool-cases s.state.is_closed) [
      | inl closed ↦
          let e : (update fl arch id (change fl arch c) s).1 ≡ s = ground arith in
          subst Updated (sym e) same
      | inr opened ↦ elim (Option-cases (BTreeMap.get id s.state.items)) [
        | inl missing ↦
            let e : (update fl arch id (change fl arch c) s).1 ≡ s = ground arith in
            subst Updated (sym e) same
        | inr (item, found) ↦
            let b = bridge_eq (bridge fl arch (change fl arch c item)) (bridge fl arch item) in
            elim (Bool-cases b) [
              | inl equal ↦
                  let e : (update fl arch id (change fl arch c) s).1 ≡ quiet item = ground arith in
                  subst Updated (sym e) (hidden item found (eq_of_bridge_eq _ _ equal))
              | inr differ ↦
                  let e : (update fl arch id (change fl arch c) s).1 ≡ loud item = ground arith in
                  subst Updated (sym e) (shown_change item found)
            ]
      ]
    ]

    pub Updated-IsOrdered : {t : Shared F} → Updated t → IsOrdered t
    Updated-IsOrdered same = k
    Updated-IsOrdered (hidden item found e) = quiet-IsOrdered item found
    Updated-IsOrdered (shown_change item found) = loud-IsOrdered item found
