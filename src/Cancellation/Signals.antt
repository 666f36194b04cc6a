-- ===== src/Cancellation/Signals.antt =====
-- rust_backend/crates/core/src/cancellation.rs: which leases a cancellation reaches.
use spoti_flac_mobile.Prelude.{
  ℕ, ◌<◌, ◌≡◌, ◌≢◌, refl, Bool, true, false, some, List, [], ◌∷◌, get_elem?, ltb, if◌then◌else◌,
  ◌==◌, ◌||◌, arith, Bool-cases, inl, inr, ◌&&◌, Option-cases,
}
use spoti_flac_mobile.Prelude.Text.{Text, is_empty, is_empty_iff, ◌=ₜ◌, =ₜ_iff}
use spoti_flac_mobile.Prelude.Result.{ok}
use spoti_flac_mobile.BTreeMap.{BTreeMap, get}
use spoti_flac_mobile.BTreeMap.Order.{IsSorted, get-After}
use spoti_flac_mobile.Cancellation.{
  CancellationDomain, Entry, Flags, store, Shared, RequestLease, cancel, cancel_entries,
  cancel_active,
}
use spoti_flac_mobile.Cancellation.Lease.{flag, lease_is_cancelled}
use spoti_flac_mobile.Cancellation.World.{
  World, Reach, start, cell, references, active, IsConsistent, cell_of, references_of,
}
use spoti_flac_mobile.Cancellation.World.Views.{closed-cancel, cell_or, active-pos}
use spoti_flac_mobile.Cancellation.World.Keeps.{Reach-IsConsistent}

value-cancel :
    (id : Text) (s : Shared) (c : ℕ)
    → c < s.flags.next
    → (cancel id s).1.flags.value c ≡ (
        if s.state.closed
        then s.flags.value c
        else if is_empty id
        then s.flags.value c
        else if c == cell_or (cell id s) s.flags.next
        then true
        else s.flags.value c)
unfolding cancel cell
value-cancel id s c h = ground arith

-- In every reachable open registry, `cancel` of an identity is seen by each live lease of that
-- identity, and changes what no other live lease sees.
pub cancel-lease_is_cancelled :
    (d : CancellationDomain) (strong : ℕ → Bool) (has_waker : Bool) {w : World}
    → Reach (start d strong has_waker) w
    → w.shared.state.closed ≡ false
    → (id : Text) → id ≢ []
    → (i : ℕ) (l : RequestLease) → get_elem? w.leases i ≡ some l
    → l.released ≡ false
    → lease_is_cancelled l (cancel id w.shared).1
      ≡ ok (if id =ₜ l.id then true else flag l w.shared)
unfolding lease_is_cancelled
cancel-lease_is_cancelled d strong has_waker {w} r opened id given i l at live =
    let k : IsConsistent w = Reach-IsConsistent d strong has_waker r in
    ground (
      arith,
      value-cancel id w.shared l.cancelled (k.allocated i l at),
      closed-cancel id w.shared,
      k.owned i l at live,
      k.untracked i l id at,
      k.distinct id l.id l.cancelled,
      =ₜ_iff id l.id,
      is_empty_iff id,
      is_empty_iff l.id,
      k.allocated i l at,
    )

-- Whether some entry with a reference has the cell.
abbrev hit : ℕ → BTreeMap Entry → Bool
hit c [] = false
hit c ((id, e) ∷ m) = (ltb 0 e.references && c == e.cancelled) || hit c m

value-cancel_entries :
    (m : BTreeMap Entry) (f : Flags) (c : ℕ)
    → (cancel_entries m f).1.value c ≡ (hit c m || f.value c)
unfolding cancel_entries
value-cancel_entries [] f c = refl
value-cancel_entries ((id, e) ∷ m) f c =
    ground
      (arith, value-cancel_entries m (if ltb 0 e.references then store f e.cancelled true else f) c)

abbrev pub contains : Text → List Text → Bool
contains id [] = false
contains id (j ∷ js) = id =ₜ j || contains id js

hit_of_get :
    (m : BTreeMap Entry) (id : Text) (e : Entry)
    → get id m ≡ some e
    → 0 < e.references
    → hit e.cancelled m ≡ true
unfolding get
hit_of_get [] id e g p = cc
hit_of_get ((j, f) ∷ m) id e g p = ground (arith, hit_of_get m id e)

cell_of-hit :
    (m : BTreeMap Entry) (c : ℕ)
    → IsSorted m
    → hit c m ≡ true
    → (j : Text) × (cell_of (get j m) ≡ some c)
unfolding get
cell_of-hit [] c s h = cc
cell_of-hit ((id, e) ∷ m) c s h = elim (Bool-cases (ltb 0 e.references && c == e.cancelled)) [
  | inl found ↦ (id, ground (arith, =ₜ_iff id id))
  | inr other ↦
      let (j, p) = cell_of-hit m c s.1 (ground arith) in
      (j, ground (arith, =ₜ_iff j id, get-After id m s.0))
]

contains-cancel_entries :
    (m : BTreeMap Entry) (f : Flags) (id : Text)
    → IsSorted m
    → contains id (cancel_entries m f).0 ≡ ltb 0 (references_of (get id m))
unfolding cancel_entries get
contains-cancel_entries [] f id s = refl
contains-cancel_entries ((j, e) ∷ m) f id s = ground (
  arith,
  contains-cancel_entries m (if ltb 0 e.references then store f e.cancelled true else f) id s.1,
  =ₜ_iff id j,
  get-After j m s.0,
)

module _ (d : CancellationDomain) (strong : ℕ → Bool) (has_waker : Bool) {w : World}
    (r : Reach (start d strong has_waker) w) (opened : w.shared.state.closed ≡ false) where
  consistent : IsConsistent w
  consistent = Reach-IsConsistent d strong has_waker r

  value-cancel_active :
      (c : ℕ)
      → (cancel_active w.shared).1.flags.value c
        ≡ (hit c w.shared.state.entries || w.shared.flags.value c)
  unfolding cancel_active
  value-cancel_active c =
      ground (arith, value-cancel_entries w.shared.state.entries w.shared.flags c, opened)

  closed-cancel_active : (cancel_active w.shared).1.state.closed ≡ false
  unfolding cancel_active
  closed-cancel_active = ground (arith, opened)

  hit-tracked :
      (i : ℕ) (l : RequestLease)
      → get_elem? w.leases i ≡ some l
      → l.released ≡ false
      → l.id ≢ []
      → hit l.cancelled w.shared.state.entries ≡ true
  unfolding cell references
  hit-tracked i l at live given = elim (Option-cases (get l.id w.shared.state.entries)) [
    | inl missing ↦ absurd (ground (arith, consistent.owned i l at live given opened))
    | inr (e, found) ↦ ground (
      arith,
      hit_of_get w.shared.state.entries l.id e found,
      consistent.owned i l at live given opened,
      consistent.counted l.id opened given,
      active-pos l.id w.leases i l at,
      =ₜ_iff l.id l.id,
    )
  ]

  hit-untracked :
      (i : ℕ) (l : RequestLease)
      → get_elem? w.leases i ≡ some l
      → l.id ≡ []
      → hit l.cancelled w.shared.state.entries ≡ false
  unfolding cell
  hit-untracked i l at empty = elim (Bool-cases (hit l.cancelled w.shared.state.entries)) [
    | inl h ↦
        let (j, p) = cell_of-hit w.shared.state.entries l.cancelled consistent.sorted h in
        absurd (consistent.untracked i l j at empty p)
    | inr h ↦ h
  ]

  -- In every reachable open registry, `cancel_active` is seen by each live lease that has an
  -- identity, and changes nothing for one without.
  pub cancel_active-lease_is_cancelled :
      (i : ℕ) (l : RequestLease)
      → get_elem? w.leases i ≡ some l
      → l.released ≡ false
      → lease_is_cancelled l (cancel_active w.shared).1
        ≡ ok (if is_empty l.id then flag l w.shared else true)
  unfolding lease_is_cancelled
  cancel_active-lease_is_cancelled i l at live = ground (
    arith,
    value-cancel_active l.cancelled,
    closed-cancel_active,
    hit-tracked i l at live,
    hit-untracked i l at,
    is_empty_iff l.id,
  )

  -- In every reachable open registry, `cancel_active` returns exactly the identities that have a
  -- lease which is not released.
  pub cancel_active-contains :
      (id : Text)
      → id ≢ []
      → (ids : List Text) × ((cancel_active w.shared).0 ≡ ok ids)
        × (contains id ids ≡ ltb 0 (active id w.leases))
  unfolding cancel_active references
  cancel_active-contains id given = (
    (cancel_entries w.shared.state.entries w.shared.flags).0,
    ground (arith, opened),
    ground (
      arith,
      contains-cancel_entries w.shared.state.entries w.shared.flags id consistent.sorted,
      consistent.counted id opened given,
    ),
  )
