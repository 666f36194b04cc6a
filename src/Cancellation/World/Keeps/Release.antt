-- ===== src/Cancellation/World/Keeps/Release.antt =====
-- `release` keeps the invariant: the subtraction never wraps, and only the last live lease of an
-- identity takes the entry away.
use spoti_flac_mobile.Prelude.{
  ℕ, ◌+◌, ◌-◌, ◌<◌, ◌^◌, ◌≡◌, ◌≢◌, none, some, [], if◌then◌else◌, arith, get_elem?, set, length-set,
  get_elem?-set_cases, true, false, ◌⊎◌, inl, inr, Bool-cases, ◌==◌, subst, sym,
}
use spoti_flac_mobile.Prelude.Text.{Text, is_empty, is_empty_iff, =ₜ_iff, ◌=ₜ◌}
use spoti_flac_mobile.BTreeMap.Order.{IsSorted, insert-IsSorted, remove-IsSorted}
use spoti_flac_mobile.Cancellation.{RequestLease}
use spoti_flac_mobile.Cancellation.Lease.{release, drop_reference}
use spoti_flac_mobile.Cancellation.World.{
  World, cell, references, is_active, bit, active, IsConsistent,
}
use spoti_flac_mobile.Cancellation.World.Views.{
  cell-drop_reference, references-drop_reference, references-of_no_cell, active-set, active-pos,
  active-le-length,
}

-- In a consistent world no count of references wraps.
pub references-lt : (w : World) → IsConsistent w → (id : Text) → references id w.shared < 2 ^ 64
references-lt w k id = ground (
  arith,
  k.counted id,
  k.few,
  active-le-length id w.leases,
  k.closed_empty id,
  references-of_no_cell id w.shared,
  k.no_empty_id,
  is_empty_iff id,
)

module _ (w : World) (i : ℕ) (l : RequestLease) (at : get_elem? w.leases i ≡ some l)
    (k : IsConsistent w) where
  abbrev after : World
  after = record w {
    shared = (release l w.shared).1;
    leases = set w.leases i (release l w.shared).0;
  }

  -- A live lease with an entry counts among its references.
  counted_in : l.released ≡ false → cell l.id w.shared ≡ none ⊎ (0 < references l.id w.shared)
  counted_in live = elim (Bool-cases w.shared.state.closed) [
    | inl closed ↦ inl (k.closed_empty l.id closed)
    | inr opened ↦ elim (Bool-cases (is_empty l.id)) [
      | inl none_given ↦ inl (
          subst (λ id. cell id w.shared ≡ none) (sym ((is_empty_iff l.id).0 none_given))
            k.no_empty_id)
      | inr given ↦ inr (
          ground (
            arith,
            is_empty_iff l.id,
            k.counted l.id,
            active-pos l.id w.leases i l,
            =ₜ_iff l.id l.id,
          ))
    ]
  ]

  cell-release :
      (j : Text)
      → cell j after.shared
        ≡ (if l.released then cell j w.shared else cell j (drop_reference l.id w.shared))
  unfolding release cell
  cell-release j = ground arith

  references-release :
      (j : Text)
      → references j after.shared ≡ (
          if l.released then references j w.shared else references j (drop_reference l.id w.shared))
  unfolding release references
  references-release j = ground arith

  released_after : (release l w.shared).0.released ≡ true
  unfolding release
  released_after = ground arith

  id_after : (release l w.shared).0.id ≡ l.id
  unfolding release
  id_after = ground arith

  cancelled_after : (release l w.shared).0.cancelled ≡ l.cancelled
  unfolding release
  cancelled_after = ground arith

  closed-release : after.shared.state.closed ≡ w.shared.state.closed
  unfolding release
  closed-release = ground arith

  next-release : after.shared.flags.next ≡ w.shared.flags.next
  unfolding release
  next-release = ground arith

  IsSorted-release : IsSorted after.shared.state.entries
  unfolding release
  IsSorted-release = grind (arith, insert-IsSorted, remove-IsSorted, k.sorted)

  pub cell-after_release :
      (j : Text)
      → cell j after.shared ≡ (
          if l.released
          then cell j w.shared
          else if references l.id w.shared == 1
          then (if j =ₜ l.id then none else cell j w.shared)
          else cell j w.shared)
  cell-after_release j =
      ground (arith, cell-release j, cell-drop_reference l.id j w.shared, references-lt w k l.id)

  references_after :
      (j : Text)
      → references j after.shared ≡ (
          if l.released
          then references j w.shared
          else if j =ₜ l.id
          then references l.id w.shared - 1
          else references j w.shared)
  references_after j = elim (Bool-cases l.released) [
    | inl old ↦ rw (references-release j, old)
    | inr live ↦
        rw (references-release j, live)
          (references-drop_reference l.id j w.shared (references-lt w k l.id) (counted_in live))
  ]

  leases_after :
      (n : ℕ) (m : RequestLease)
      → get_elem? after.leases n ≡ some m
      → (get_elem? w.leases n ≡ some m) ⊎ (m ≡ (release l w.shared).0)
  leases_after n m = get_elem?-set_cases w.leases i n (release l w.shared).0 m

  active_after : (j : Text) → active j after.leases + bit (is_active j l) ≡ active j w.leases
  active_after j =
      ground (arith, active-set j w.leases i l (release l w.shared).0 at, released_after)

  counted_after :
      (j : Text)
      → w.shared.state.closed ≡ false
      → j ≢ []
      → references j after.shared ≡ active j after.leases
  counted_after j o ne =
      ground (
        arith,
        references_after j,
        active_after j,
        k.counted j o ne,
        k.counted l.id o,
        =ₜ_iff j l.id,
      )

  owned_after :
      (n : ℕ) (m : RequestLease)
      → get_elem? after.leases n ≡ some m
      → m.released ≡ false
      → m.id ≢ []
      → w.shared.state.closed ≡ false
      → cell m.id after.shared ≡ some m.cancelled
  owned_after n m g live ne o = elim (leases_after n m g) [
    | inl old ↦ ground (
      arith,
      cell-after_release m.id,
      k.owned n m old live ne o,
      k.counted m.id o ne,
      active_after m.id,
      active-pos m.id after.leases n m g,
      =ₜ_iff m.id l.id,
      =ₜ_iff m.id m.id,
    )
    | inr new ↦ absurd (ground (arith, released_after))
  ]

  pub release-IsConsistent : IsConsistent after
  release-IsConsistent = record {
    sorted = IsSorted-release;
    few = omega (arith, k.few, length-set w.leases i (release l w.shared).0);
    no_empty_id = ground (arith, cell-after_release [], k.no_empty_id);
    closed_empty = λ j c. ground (arith, cell-after_release j, k.closed_empty j, closed-release);
    counted = λ j o ne. ground (arith, counted_after j, closed-release);
    owned = λ n m g live ne o. ground (arith, owned_after n m g live ne, closed-release);
    distinct =
        λ a b c p q. ground (arith, cell-after_release a, cell-after_release b, k.distinct a b c);
    bounded = λ a c p. ground (arith, cell-after_release a, k.bounded a c, next-release);
    allocated = λ n m g. elim (leases_after n m g) [
      | inl old ↦ ground (arith, k.allocated n m old, next-release)
      | inr new ↦ ground (arith, k.allocated i l at, next-release, cancelled_after)
    ];
    untracked = λ n m j g e. elim (leases_after n m g) [
      | inl old ↦ λ p. ground (arith, k.untracked n m j old e, cell-after_release j)
      | inr new ↦
          λ p. ground (arith, k.untracked i l j at, cell-after_release j, cancelled_after, id_after)
    ];
  }
