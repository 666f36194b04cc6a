-- ===== src/Cancellation/World/Keeps.antt =====
-- Every step of the registry's callers keeps the invariant.
mod Acquire
mod Cancel
mod Release
use spoti_flac_mobile.Cancellation.Lease
use spoti_flac_mobile.BTreeMap.{get}
use spoti_flac_mobile.Prelude.{ℕ, ◌≡◌, Bool, true, false, [], refl, arith, none}
use spoti_flac_mobile.Cancellation.{CancellationDomain, new, with_waker}
use spoti_flac_mobile.Cancellation.World.{
  World, Step, Reach, start, IsConsistent, cell, references, active, observe_thread,
}
use Acquire.{acquire-IsConsistent}
use Cancel.{
  cancel-IsConsistent, cancel_active-IsConsistent, reset_if_idle-IsConsistent,
  shutdown-IsConsistent,
}
use Release.{release-IsConsistent}
pub use Release.{cell-after_release}

-- An open registry with no entry and no lease.
abbrev fresh : CancellationDomain → (ℕ → Bool) → Bool → World
fresh d strong has_waker = record {
  domain = d;
  shared = record {
    state = record { closed = false; entries = [] };
    flags = record { next = 0; value = λ _. false };
    changed = [];
    waker = has_waker;
    threads = [];
    strong = strong;
  };
  leases = [];
}

fresh-IsConsistent :
    (d : CancellationDomain) (strong : ℕ → Bool) (has_waker : Bool)
    → IsConsistent (fresh d strong has_waker)
unfolding cell references active get
fresh-IsConsistent d strong has_waker = record {
  sorted = tt;
  few = omega arith;
  no_empty_id = refl;
  closed_empty = λ j c. refl;
  counted = λ j o ne. refl;
  owned = λ i m g r ne o. cc;
  distinct = λ i j c p q. cc;
  bounded = λ i c p. absurd (cc);
  allocated = λ i m g. absurd (cc);
  untracked = λ i m j g e p. cc;
}

pub start-IsConsistent :
    (d : CancellationDomain) (strong : ℕ → Bool) (has_waker : Bool)
    → IsConsistent (start d strong has_waker)
unfolding new with_waker
start-IsConsistent d strong true = fresh-IsConsistent d strong true
start-IsConsistent d strong false = fresh-IsConsistent d strong false

pub Step-IsConsistent : {w u : World} → Step w u → IsConsistent w → IsConsistent u
unfolding Lease.observe_thread cell references
Step-IsConsistent (Step.acquire w id l s h room) k = acquire-IsConsistent w id l s h k room
Step-IsConsistent (Step.cancel w id) k = cancel-IsConsistent w k id
Step-IsConsistent (Step.cancel_active w) k = cancel_active-IsConsistent w k
Step-IsConsistent (Step.reset_if_idle w id) k = reset_if_idle-IsConsistent w k id
Step-IsConsistent (Step.shutdown w) k = shutdown-IsConsistent w k
Step-IsConsistent (Step.release w i l at) k = release-IsConsistent w i l at k
Step-IsConsistent (Step.observe_thread w t) k = record {
  sorted = k.sorted;
  few = k.few;
  no_empty_id = k.no_empty_id;
  closed_empty = k.closed_empty;
  counted = k.counted;
  owned = k.owned;
  distinct = k.distinct;
  bounded = k.bounded;
  allocated = k.allocated;
  untracked = k.untracked;
}
Step-IsConsistent (Step.drop_threads w strong) k = record {
  sorted = k.sorted;
  few = k.few;
  no_empty_id = k.no_empty_id;
  closed_empty = k.closed_empty;
  counted = k.counted;
  owned = k.owned;
  distinct = k.distinct;
  bounded = k.bounded;
  allocated = k.allocated;
  untracked = k.untracked;
}

-- Whatever its callers do, the registry stays consistent: every entry counts exactly the live
-- leases of its identity, and each of these shares the entry's flag.
pub Reach-IsConsistent :
    (d : CancellationDomain) (strong : ℕ → Bool) (has_waker : Bool) {w : World}
    → Reach (start d strong has_waker) w
    → IsConsistent w
Reach-IsConsistent d strong has_waker Reach.here = start-IsConsistent d strong has_waker
Reach-IsConsistent d strong has_waker (Reach.next r s) =
    Step-IsConsistent s (Reach-IsConsistent d strong has_waker r)
