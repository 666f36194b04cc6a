-- ===== src/Cancellation/World/Keeps/Cancel.antt =====
-- `cancel`, `cancel_active`, `reset_if_idle` and `shutdown` keep the invariant.
use spoti_flac_mobile.Prelude.{◌+◌, ◌≡◌, none, some, [], if◌then◌else◌, arith}
use spoti_flac_mobile.Prelude.Text.{Text, is_empty, is_empty_iff, =ₜ_iff}
use spoti_flac_mobile.BTreeMap.Order.{IsSorted, insert-IsSorted, remove-IsSorted}
use spoti_flac_mobile.Cancellation.{cancel, cancel_active, reset_if_idle, shutdown}
use spoti_flac_mobile.Cancellation.World.{World, cell, IsConsistent}
use spoti_flac_mobile.Cancellation.World.Views.{
  closed-cancel, cell-cancel, references-cancel, cell-reset_if_idle, references-reset_if_idle,
  cell-cancel_active, references-cancel_active, cell-shutdown, active-pos, next-cancel_entries,
}

module _ (w : World) (k : IsConsistent w) where
  module _ (id : Text) where
    IsSorted-cancel : IsSorted (cancel id w.shared).1.state.entries
    unfolding cancel
    IsSorted-cancel = grind (arith, insert-IsSorted, k.sorted)

    next-cancel : (cancel id w.shared).1.flags.next ≡ (
        if w.shared.state.closed
        then w.shared.flags.next
        else if is_empty id
        then w.shared.flags.next
        else elim (cell id w.shared) [
          | none ↦ w.shared.flags.next + 1
          | some _ ↦ w.shared.flags.next
        ])
    unfolding cancel cell
    next-cancel = ground arith

    pub cancel-IsConsistent : IsConsistent (record w { shared = (cancel id w.shared).1 })
    cancel-IsConsistent = record {
      sorted = IsSorted-cancel;
      few = k.few;
      no_empty_id =
          ground (arith, cell-cancel id [] w.shared, k.no_empty_id, =ₜ_iff [] id, is_empty_iff id);
      closed_empty = λ j c.
          ground (arith, cell-cancel id j w.shared, k.closed_empty j, closed-cancel id w.shared);
      counted = λ j o ne.
          ground (arith, references-cancel id j w.shared, closed-cancel id w.shared, k.counted j);
      owned = λ i m g r ne o. ground (
        arith,
        cell-cancel id m.id w.shared,
        closed-cancel id w.shared,
        k.owned i m,
        =ₜ_iff m.id id,
      );
      distinct = λ i j c p q. ground (
        arith,
        cell-cancel id i w.shared,
        cell-cancel id j w.shared,
        k.distinct i j c,
        k.distinct i id c,
        k.distinct id j c,
        k.bounded i c,
        k.bounded j c,
        =ₜ_iff i id,
        =ₜ_iff j id,
      );
      bounded = λ i c p. ground (
        arith,
        cell-cancel id i w.shared,
        k.bounded i c,
        k.bounded id c,
        next-cancel,
        =ₜ_iff i id,
      );
      allocated = λ i m g. ground (arith, next-cancel, k.allocated i m);
      untracked = λ i m j g e p. ground (
        arith,
        cell-cancel id j w.shared,
        k.untracked i m j,
        k.untracked i m id,
        k.allocated i m,
      );
    }

    IsSorted-reset_if_idle : IsSorted (reset_if_idle id w.shared).1.state.entries
    unfolding reset_if_idle
    IsSorted-reset_if_idle = grind (arith, remove-IsSorted, k.sorted)

    closed-reset_if_idle : (reset_if_idle id w.shared).1.state.closed ≡ w.shared.state.closed
    unfolding reset_if_idle
    closed-reset_if_idle = ground arith

    next-reset_if_idle : (reset_if_idle id w.shared).1.flags.next ≡ w.shared.flags.next
    unfolding reset_if_idle
    next-reset_if_idle = ground arith

    -- Only an entry with no reference goes, so that no live lease loses its entry.
    pub reset_if_idle-IsConsistent :
        IsConsistent (record w { shared = (reset_if_idle id w.shared).1 })
    reset_if_idle-IsConsistent = record {
      sorted = IsSorted-reset_if_idle;
      few = k.few;
      no_empty_id = ground (arith, cell-reset_if_idle id [] w.shared, k.no_empty_id);
      closed_empty = λ j c.
          ground (arith, cell-reset_if_idle id j w.shared, k.closed_empty j, closed-reset_if_idle);
      counted = λ j o ne.
          ground (arith, references-reset_if_idle id j w.shared, closed-reset_if_idle, k.counted j);
      owned = λ i m g r ne o. ground (
        arith,
        cell-reset_if_idle id m.id w.shared,
        closed-reset_if_idle,
        k.owned i m,
        =ₜ_iff m.id id,
        k.counted id,
        =ₜ_iff id m.id,
        active-pos id w.leases i m,
      );
      distinct = λ i j c p q. ground (
        arith,
        cell-reset_if_idle id i w.shared,
        cell-reset_if_idle id j w.shared,
        k.distinct i j c,
      );
      bounded = λ i c p.
          ground (arith, cell-reset_if_idle id i w.shared, k.bounded i c, next-reset_if_idle);
      allocated = λ i m g. ground (arith, next-reset_if_idle, k.allocated i m);
      untracked =
          λ i m j g e p. ground (arith, cell-reset_if_idle id j w.shared, k.untracked i m j);
    }

  IsSorted-cancel_active : IsSorted (cancel_active w.shared).1.state.entries
  unfolding cancel_active
  IsSorted-cancel_active = ground (arith, k.sorted)

  closed-cancel_active : (cancel_active w.shared).1.state.closed ≡ w.shared.state.closed
  unfolding cancel_active
  closed-cancel_active = ground arith

  next-cancel_active : (cancel_active w.shared).1.flags.next ≡ w.shared.flags.next
  unfolding cancel_active
  next-cancel_active = ground (arith, next-cancel_entries w.shared.state.entries w.shared.flags)

  pub cancel_active-IsConsistent : IsConsistent (record w { shared = (cancel_active w.shared).1 })
  cancel_active-IsConsistent = record {
    sorted = IsSorted-cancel_active;
    few = k.few;
    no_empty_id = ground (arith, cell-cancel_active [] w.shared, k.no_empty_id);
    closed_empty = λ j c.
        ground (arith, cell-cancel_active j w.shared, k.closed_empty j, closed-cancel_active);
    counted = λ j o ne.
        ground (arith, references-cancel_active j w.shared, closed-cancel_active, k.counted j);
    owned = λ i m g r ne o.
        ground (arith, cell-cancel_active m.id w.shared, closed-cancel_active, k.owned i m);
    distinct = λ i j c p q.
        ground
          (arith, cell-cancel_active i w.shared, cell-cancel_active j w.shared, k.distinct i j c);
    bounded =
        λ i c p. ground (arith, cell-cancel_active i w.shared, k.bounded i c, next-cancel_active);
    allocated = λ i m g. ground (arith, next-cancel_active, k.allocated i m);
    untracked = λ i m j g e p. ground (arith, cell-cancel_active j w.shared, k.untracked i m j);
  }

  pub shutdown-IsConsistent : IsConsistent (record w { shared = shutdown w.shared })
  unfolding shutdown
  shutdown-IsConsistent = record {
    sorted = tt;
    few = k.few;
    no_empty_id = cell-shutdown [] w.shared;
    closed_empty = λ j c. cell-shutdown j w.shared;
    counted = λ j o ne. ground arith;
    owned = λ i m g r ne o. ground arith;
    distinct = λ i j c p q. ground (arith, cell-shutdown i w.shared);
    bounded = λ i c p. ground (arith, cell-shutdown i w.shared);
    allocated = λ i m g. ground (arith, k.allocated i m);
    untracked = λ i m j g e p. ground (arith, cell-shutdown j w.shared);
  }
