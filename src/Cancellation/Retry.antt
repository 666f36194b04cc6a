-- ===== src/Cancellation/Retry.antt =====
-- rust_backend/crates/core/src/cancellation.rs: what a cancellation leaves behind for a retry.
use spoti_flac_mobile.Prelude.{
  ◌≡◌, ◌≢◌, ℕ, Bool, true, false, none, some, [], get_elem?, arith, if◌then◌else◌,
}
use spoti_flac_mobile.Prelude.Text.{Text, =ₜ_iff, is_empty_iff, is_empty}
use spoti_flac_mobile.Prelude.Result.{ok}
use spoti_flac_mobile.Cancellation.{
  CancellationDomain, Shared, RequestLease, acquire, cancel, reset_if_idle,
}
use spoti_flac_mobile.Cancellation.Lease.{lease_is_cancelled, release}
use spoti_flac_mobile.Cancellation.World.{
  World, Reach, start, cell, references, active, IsConsistent,
}
use spoti_flac_mobile.Cancellation.World.Views.{
  closed-cancel, cell_or, cell-cancel, cell-reset_if_idle, references-cancel,
}
use spoti_flac_mobile.Cancellation.World.Keeps.{Reach-IsConsistent, cell-after_release}

-- What the flag of a lease shows right after `acquire`.
abbrev fresh_flag : Text → Shared → Bool
fresh_flag id s =
    if is_empty id then false else elim (cell id s) [ none ↦ false | some c ↦ s.flags.value c ]

pub acquire-lease_is_cancelled :
    (d : CancellationDomain) (id : Text) (s s' : Shared) (l : RequestLease)
    → acquire d id s ≡ (ok l, s')
    → lease_is_cancelled l s' ≡ ok (fresh_flag id s)
unfolding acquire lease_is_cancelled cell
acquire-lease_is_cancelled d id s s' l h = ground arith

flag-cancel :
    (id : Text) (s : Shared)
    → s.state.closed ≡ false
    → id ≢ []
    → (cancel id s).1.flags.value (cell_or (cell id s) s.flags.next) ≡ true
unfolding cancel cell
flag-cancel id s opened given = ground (arith, is_empty_iff id)

module _ (d : CancellationDomain) (id : Text) (s : Shared) where
  -- A cancellation that comes before its request, with no lease of the identity, waits for it: the
  -- next `acquire` is cancelled at once. A `reset_if_idle` between the two takes it back.
  pub cancel-acquire :
      s.state.closed ≡ false
      → id ≢ []
      → (l m : RequestLease) (t u : Shared) → references id s ≡ 0
      → acquire d id (cancel id s).1 ≡ (ok l, t)
      → acquire d id (reset_if_idle id (cancel id s).1).1 ≡ (ok m, u)
      → (lease_is_cancelled l t ≡ ok true) × (lease_is_cancelled m u ≡ ok false)
  cancel-acquire opened given l m t u idle first second = (
    ground (
      arith,
      acquire-lease_is_cancelled d id (cancel id s).1 t l first,
      flag-cancel id s opened given,
      cell-cancel id id s,
      =ₜ_iff id id,
      is_empty_iff id,
    ),
    ground (
      arith,
      acquire-lease_is_cancelled d id (reset_if_idle id (cancel id s).1).1 u m second,
      cell-reset_if_idle id id (cancel id s).1,
      references-cancel id id s,
      closed-cancel id s,
      =ₜ_iff id id,
      is_empty_iff id,
    ),
  )

released_twice :
    (l : RequestLease) (s t : Shared) → release (release l s).0 t ≡ ((release l s).0, t)
unfolding release
released_twice l s t = ground arith

module _ (d : CancellationDomain) (strong : ℕ → Bool) (has_waker : Bool) {w : World}
    (r : Reach (start d strong has_waker) w) (opened : w.shared.state.closed ≡ false) where
  -- Once the only live lease of an identity is released, a retry of the same identity starts with a
  -- flag that is not set, and to release or drop the old lease again changes nothing.
  pub release-acquire :
      (i : ℕ) (l m : RequestLease) (t : Shared)
      → get_elem? w.leases i ≡ some l
      → l.released ≡ false
      → active l.id w.leases ≡ 1
      → acquire d l.id (release l w.shared).1 ≡ (ok m, t)
      → (lease_is_cancelled m t ≡ ok false)
        × (release (release l w.shared).0 t ≡ ((release l w.shared).0, t))
  release-acquire i l m t at live once again = (
    ground (
      arith,
      acquire-lease_is_cancelled d l.id (release l w.shared).1 t m again,
      cell-after_release w i l at k l.id,
      k.counted l.id opened,
      is_empty_iff l.id,
      =ₜ_iff l.id l.id,
    ),
    released_twice l w.shared t,
  )
    where
      k : IsConsistent w
      k = Reach-IsConsistent d strong has_waker r
