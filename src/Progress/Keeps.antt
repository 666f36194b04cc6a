-- ===== src/Progress/Keeps.antt =====
-- rust_backend/crates/core/src/progress/mod.rs: every step keeps the order of the revisions.
use spoti_flac_mobile.Prelude.{
  ◌+◌, ◌≤◌, ◌^◌, ◌≡◌, refl, true, none, some, [], length, ltb, arith, Bool-cases, inl, inr, subst,
  sym,
}
use spoti_flac_mobile.Prelude.Int.{ℤ, pos, ◌≤ℤ◌, ◌<ℤ◌, ltb_ℤ, wrap_i64, ◌+ℤ◌}
use spoti_flac_mobile.Prelude.Text.{Text}
use spoti_flac_mobile.BTreeMap
use spoti_flac_mobile.BTreeMap.{get-insert, get-remove, BTreeMap}
use spoti_flac_mobile.BTreeMap.Order.{
  IsSorted, insert-IsSorted, remove-IsSorted, retain-IsSorted, get-retain, length-insert-le,
  length-remove-le,
}
use spoti_flac_mobile.Progress.Item.{Arch, Floats, ItemProgress, started}
use spoti_flac_mobile.Progress.Registry.{Shared, remove_present, clear, start, max_removed, max_ℤ}
use spoti_flac_mobile.Progress.Steps.{HasRoom, IsOrdered}
use spoti_flac_mobile.Progress.Order.{wrap_step, Cutoff, prune-Cutoff}

module _ {F : Type 0} (s : Shared F) (k : IsOrdered s) (room : HasRoom s) where
  abbrev pub seq' : ℤ
  seq' = wrap_i64 (s.state.seq +ℤ pos 1)

  pub rises : s.state.seq <ℤ seq'
  rises = (wrap_step s.state.seq k.positive room).0

  pub stays_positive : pos 0 ≤ℤ seq'
  stays_positive = (wrap_step s.state.seq k.positive room).1

  pub stays_in_range : seq' <ℤ pos (2 ^ 63)
  stays_in_range = (wrap_step s.state.seq k.positive room).2

  -- The state after `next`, with other items, removals and reset.
  abbrev pub bumped : BTreeMap (ItemProgress F) → BTreeMap ℤ → ℤ → Shared F
  bumped items removed reset = record {
    state = record s.state {
      items = items;
      removed = removed;
      seq = seq';
      reset = reset;
      dirty = true;
    };
    changed = s.changed + 1;
  }

  pub clear-IsOrdered : IsOrdered (clear s).1
  unfolding clear BTreeMap.get
  clear-IsOrdered = elim (Bool-cases s.state.is_closed) [
    | inl closed ↦ let e : (clear s).1 ≡ s = ground arith in subst IsOrdered (sym e) k
    | inr opened ↦
        let e : (clear s).1 ≡ bumped [] [] seq' = ground arith in
        subst IsOrdered (sym e) (record {
          positive = stays_positive;
          in_range = stays_in_range;
          items_sorted = tt;
          removed_sorted = tt;
          items_le = λ id item h. absurd (cc);
          removed_le = λ id r h. absurd (cc);
          disjoint = λ id item h. refl;
          reset_le = omega arith;
          few = omega arith;
        })
  ]

  module _ (id : Text) where
    abbrev pub marked : Shared F
    marked =
        bumped (BTreeMap.remove id s.state.items) (BTreeMap.insert id seq' s.state.removed)
          s.state.reset

    marked_removed_le :
        (j : Text) (r : ℤ) → BTreeMap.get j marked.state.removed ≡ some r → r ≤ℤ seq'
    marked_removed_le j r h =
        ground (arith, get-insert id j seq' s.state.removed, k.removed_le j r, rises)

    pub marked-IsSorted : IsSorted marked.state.removed
    marked-IsSorted = insert-IsSorted id seq' s.state.removed k.removed_sorted

    marked_items_le :
        (j : Text) (item : ItemProgress F)
        → BTreeMap.get j (BTreeMap.remove id s.state.items) ≡ some item
        → item.revision ≤ℤ seq'
    marked_items_le j item h =
        ground (arith, get-remove id j s.state.items, k.items_le j item, rises)

    marked_disjoint :
        (j : Text) (item : ItemProgress F)
        → BTreeMap.get j (BTreeMap.remove id s.state.items) ≡ some item
        → BTreeMap.get j marked.state.removed ≡ none
    marked_disjoint j item h = ground (
      arith,
      get-remove id j s.state.items,
      get-insert id j seq' s.state.removed,
      k.disjoint j item,
    )

    abbrev pub pruned_state : ℤ → Shared F
    pruned_state cutoff =
        bumped (BTreeMap.remove id s.state.items)
          (BTreeMap.retain (λ _ r. ltb_ℤ cutoff r) marked.state.removed)
          (max_ℤ s.state.reset cutoff)

    -- The states that `remove` may lead to when it takes an item away.
    pub data Taken : Shared F → Type 0 where
      kept : length marked.state.removed ≤ max_removed → Taken marked
      pruned : (c : Cutoff marked.state) → Taken (pruned_state c.cutoff)

    -- The removals are pruned only past `max_removed`, and then the cutoff exists.
    pub remove_present-Taken : (t : Shared F) × (remove_present id s ≡ some t) × Taken t
    unfolding remove_present
    remove_present-Taken = elim (Bool-cases (ltb max_removed (length marked.state.removed))) [
      | inr small ↦ (marked, ground arith, kept (ground arith))
      | inl large ↦
          let c : Cutoff marked.state = prune-Cutoff marked.state marked-IsSorted (ground arith) in
          (pruned_state c.cutoff, ground (arith, c.found), pruned c)
    ]

    kept-IsOrdered : length marked.state.removed ≤ max_removed → IsOrdered marked
    kept-IsOrdered small = record {
      positive = stays_positive;
      in_range = stays_in_range;
      items_sorted = remove-IsSorted id s.state.items k.items_sorted;
      removed_sorted = marked-IsSorted;
      items_le = marked_items_le;
      removed_le = marked_removed_le;
      disjoint = marked_disjoint;
      reset_le = ground (arith, k.reset_le, rises);
      few = small;
    }

    pruned-IsOrdered : (c : Cutoff marked.state) → IsOrdered (pruned_state c.cutoff)
    pruned-IsOrdered c = record {
      positive = stays_positive;
      in_range = stays_in_range;
      items_sorted = remove-IsSorted id s.state.items k.items_sorted;
      removed_sorted = retain-IsSorted _ marked.state.removed marked-IsSorted;
      items_le = marked_items_le;
      removed_le = λ j r h. ground (
        arith,
        get-retain (λ _ r. ltb_ℤ c.cutoff r) j marked.state.removed marked-IsSorted,
        marked_removed_le j r,
      );
      disjoint = λ j item h. ground (
        arith,
        get-retain (λ _ r. ltb_ℤ c.cutoff r) j marked.state.removed marked-IsSorted,
        marked_disjoint j item h,
      );
      reset_le = ground (arith, k.reset_le, rises, marked_removed_le c.id c.cutoff c.removal);
      few = omega (arith, c.shorter, length-insert-le id seq' s.state.removed, k.few);
    }

    pub Taken-IsOrdered : {t : Shared F} → Taken t → IsOrdered t
    Taken-IsOrdered (kept small) = kept-IsOrdered small
    Taken-IsOrdered (pruned c) = pruned-IsOrdered c

module _ (fl : Floats) (arch : Arch) (s : Shared fl.F) (k : IsOrdered s) (room : HasRoom s)
    (id : Text) where
  open fl use {F}

  pub start-IsOrdered : IsOrdered (start fl arch id s).1
  unfolding start
  start-IsOrdered = elim (Bool-cases s.state.is_closed) [
    | inl closed ↦ let e : (start fl arch id s).1 ≡ s = ground arith in subst IsOrdered (sym e) k
    | inr opened ↦
        let after =
          bumped s k room (BTreeMap.insert id (started fl arch id (seq' s k room)) s.state.items)
            (BTreeMap.remove id s.state.removed) s.state.reset in
        let e : (start fl arch id s).1 ≡ after = ground arith in
        subst IsOrdered (sym e) (record {
          positive = stays_positive s k room;
          in_range = stays_in_range s k room;
          items_sorted = insert-IsSorted id _ s.state.items k.items_sorted;
          removed_sorted = remove-IsSorted id s.state.removed k.removed_sorted;
          items_le = λ j item h. ground (
            arith,
            get-insert id j (started fl arch id (seq' s k room)) s.state.items,
            k.items_le j item,
            rises s k room,
          );
          removed_le = λ j r h.
              ground (arith, get-remove id j s.state.removed, k.removed_le j r, rises s k room);
          disjoint = λ j item h. ground (
            arith,
            get-insert id j (started fl arch id (seq' s k room)) s.state.items,
            get-remove id j s.state.removed,
            k.disjoint j item,
          );
          reset_le = ground (arith, k.reset_le, rises s k room);
          few = omega (arith, length-remove-le id s.state.removed, k.few);
        })
  ]
