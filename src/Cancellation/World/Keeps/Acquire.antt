-- ===== src/Cancellation/World/Keeps/Acquire.antt =====
-- `acquire` keeps the invariant.
use spoti_flac_mobile.Prelude.{
  ℕ, zero, suc, ◌+◌, ◌<◌, ◌^◌, ◌≡◌, ◌≢◌, sym, ap, false, none, some, [], ◌∷◌, length, get_elem?,
  if◌then◌else◌, arith,
}
use spoti_flac_mobile.Prelude.Text.{Text, is_empty, is_empty_iff, ◌=ₜ◌, =ₜ_iff}
use spoti_flac_mobile.Prelude.Result.{ok}
use spoti_flac_mobile.BTreeMap.Order.{IsSorted, insert-IsSorted}
use spoti_flac_mobile.Cancellation.{Shared, RequestLease, acquire}
use spoti_flac_mobile.Cancellation.World.{World, cell, references, active, IsConsistent}
use spoti_flac_mobile.Cancellation.World.Views.{
  cell_or, cell-acquire, references-acquire, active-le-length,
}

module _ (w : World) (id : Text) (l : RequestLease) (s : Shared)
    (h : acquire w.domain id w.shared ≡ (ok l, s)) (k : IsConsistent w)
    (room : length w.leases + 1 < 2 ^ 64) where
  after : s ≡ (acquire w.domain id w.shared).1
  after = ap (λ p. p.1) (sym h)

  was_open : w.shared.state.closed ≡ false
  unfolding acquire
  was_open = ground arith

  still_open : s.state.closed ≡ false
  unfolding acquire
  still_open = ground arith

  lease_id : l.id ≡ id
  unfolding acquire
  lease_id = ground arith

  lease_live : l.released ≡ false
  unfolding acquire
  lease_live = ground arith

  lease_cell : l.cancelled ≡ (
      if is_empty id then w.shared.flags.next else cell_or (cell id w.shared) w.shared.flags.next)
  unfolding acquire cell
  lease_cell = ground arith

  next_after : s.flags.next ≡ (
      if is_empty id then w.shared.flags.next + 1 else elim (cell id w.shared) [
        | none ↦ w.shared.flags.next + 1
        | some _ ↦ w.shared.flags.next
      ])
  unfolding acquire cell
  next_after = ground arith

  cell_after :
      (j : Text)
      → cell j s ≡ (
          if is_empty id
          then cell j w.shared
          else if j =ₜ id
          then some (cell_or (cell id w.shared) w.shared.flags.next)
          else cell j w.shared)
  cell_after j = ground (arith, ap (cell j) after, cell-acquire id j w.shared w.domain, was_open)

  IsSorted-after : IsSorted s.state.entries
  unfolding acquire
  IsSorted-after = rw after (grind (arith, insert-IsSorted, k.sorted))

  counted_after : (j : Text) → j ≢ [] → references j s ≡ active j (l ∷ w.leases)
  unfolding active
  counted_after j ne = ground (
    arith,
    ap (references j) after,
    references-acquire id j w.shared w.domain,
    was_open,
    lease_id,
    lease_live,
    k.counted j,
    active-le-length j w.leases,
    k.few,
    is_empty_iff id,
    =ₜ_iff j id,
    =ₜ_iff j l.id,
  )

  owned_after :
      (i : ℕ) (m : RequestLease)
      → get_elem? (l ∷ w.leases) i ≡ some m
      → m.released ≡ false
      → m.id ≢ []
      → cell m.id s ≡ some m.cancelled
  owned_after zero m g r ne =
      ground (arith, cell_after m.id, lease_id, lease_cell, is_empty_iff id, =ₜ_iff m.id id)
  owned_after (suc i) m g r ne =
      ground (arith, cell_after m.id, k.owned i m, was_open, is_empty_iff id, =ₜ_iff m.id id)

  distinct_after : (i j : Text) (c : ℕ) → cell i s ≡ some c → cell j s ≡ some c → i ≡ j
  distinct_after i j c p q = ground (
    arith,
    cell_after i,
    cell_after j,
    k.distinct i j c,
    k.distinct i id c,
    k.distinct id j c,
    k.bounded i c,
    k.bounded j c,
    =ₜ_iff i id,
    =ₜ_iff j id,
  )

  bounded_after : (i : Text) (c : ℕ) → cell i s ≡ some c → c < s.flags.next
  bounded_after i c p =
      ground (arith, cell_after i, k.bounded i c, k.bounded id c, next_after, =ₜ_iff i id)

  allocated_after :
      (i : ℕ) (m : RequestLease) → get_elem? (l ∷ w.leases) i ≡ some m → m.cancelled < s.flags.next
  allocated_after zero m g = ground (arith, lease_cell, next_after, k.bounded id l.cancelled)
  allocated_after (suc i) m g = ground (arith, next_after, k.allocated i m)

  untracked_after :
      (i : ℕ) (m : RequestLease) (j : Text)
      → get_elem? (l ∷ w.leases) i ≡ some m
      → m.id ≡ []
      → cell j s ≢ some m.cancelled
  untracked_after zero m j g e =
      ground (arith, cell_after j, lease_cell, lease_id, k.bounded j l.cancelled, is_empty_iff id)
  untracked_after (suc i) m j g e =
      ground (arith, cell_after j, k.untracked i m j, k.untracked i m id, k.allocated i m)

  pub acquire-IsConsistent : IsConsistent (record w { shared = s; leases = l ∷ w.leases })
  acquire-IsConsistent = record {
    sorted = IsSorted-after;
    few = omega arith;
    no_empty_id = ground (arith, cell_after [], k.no_empty_id, =ₜ_iff [] id, is_empty_iff id);
    closed_empty = λ j c. ground (arith, still_open);
    counted = λ j o ne. counted_after j ne;
    owned = λ i m g r ne o. owned_after i m g r ne;
    distinct = distinct_after;
    bounded = bounded_after;
    allocated = allocated_after;
    untracked = untracked_after;
  }
