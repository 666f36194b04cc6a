-- ===== src/Cancellation/World.antt =====
-- rust_backend/crates/core/src/cancellation.rs: the registry together with every lease that it
-- has handed out, the steps that its callers can take, and the invariant of the whole.
pub mod Views
pub mod Keeps
use spoti_flac_mobile.Prelude.{
  ℕ, ◌+◌, ◌≤◌, ◌<◌, ◌^◌, ◌≡◌, ◌≢◌, Bool, true, false, Option, none, some, List, [], ◌∷◌, not, ◌&&◌,
  ◌⊎◌, length, get_elem?, set, if◌then◌else◌,
}
use spoti_flac_mobile.Prelude.Text.{Text, is_empty, ◌=ₜ◌}
use spoti_flac_mobile.Prelude.Result.{Result, ok, err}
use spoti_flac_mobile.BTreeMap
use spoti_flac_mobile.BTreeMap.Order.{IsSorted}
use spoti_flac_mobile.Cancellation
use spoti_flac_mobile.Cancellation.{CancellationDomain, Entry, Shared, RequestLease}
use spoti_flac_mobile.Cancellation.Lease

pub record World : Type 0 where
  pub domain : CancellationDomain
  pub shared : Shared
  pub leases : List RequestLease

-- One call of a caller, or a change of the environment. The leases are numbered from the newest.
pub data Step : World → World → Type 0 where
  acquire :
      (w : World) (id : Text) (l : RequestLease) (s : Shared)
      → Cancellation.acquire w.domain id w.shared ≡ (ok l, s)
      → length w.leases + 1 < 2 ^ 64
      → Step w (record w { shared = s; leases = l ∷ w.leases })
  cancel :
      (w : World) (id : Text) → Step w (record w { shared = (Cancellation.cancel id w.shared).1 })
  cancel_active :
      (w : World) → Step w (record w { shared = (Cancellation.cancel_active w.shared).1 })
  reset_if_idle :
      (w : World) (id : Text)
      → Step w (record w { shared = (Cancellation.reset_if_idle id w.shared).1 })
  shutdown : (w : World) → Step w (record w { shared = Cancellation.shutdown w.shared })
  release :
      (w : World) (i : ℕ) (l : RequestLease)
      → get_elem? w.leases i ≡ some l
      → Step w (record w {
        shared = (Lease.release l w.shared).1;
        leases = set w.leases i (Lease.release l w.shared).0;
      })
  observe_thread :
      (w : World) (t : ℕ) → Step w (record w { shared = Lease.observe_thread t w.shared })
  drop_threads :
      (w : World) (strong : ℕ → Bool)
      → Step w (record w { shared = record w.shared { strong = strong } })

pub data Reach (v : World) : World → Type 0 where
  here : Reach v v
  next : {w u : World} → Reach v w → Step w u → Reach v u

abbrev pub start : CancellationDomain → (ℕ → Bool) → Bool → World
start d strong has_waker = record {
  domain = d;
  shared = if has_waker then Cancellation.with_waker strong else Cancellation.new strong;
  leases = [];
}

-- What the entry of an identity says: no entry has no reference.
abbrev pub references_of : Option Entry → ℕ
references_of none = 0
references_of (some e) = e.references

abbrev pub cell_of : Option Entry → Option ℕ
cell_of none = none
cell_of (some e) = some e.cancelled

unfoldable pub references : Text → Shared → ℕ
references id s = references_of (BTreeMap.get id s.state.entries)

unfoldable pub cell : Text → Shared → Option ℕ
cell id s = cell_of (BTreeMap.get id s.state.entries)

abbrev pub is_active : Text → RequestLease → Bool
is_active id l = not l.released && (id =ₜ l.id)

abbrev pub bit : Bool → ℕ
bit true = 1
bit false = 0

-- The leases of an identity that are not released.
unfoldable pub active : Text → List RequestLease → ℕ
active id [] = 0
active id (l ∷ ls) = bit (is_active id l) + active id ls

pub record IsConsistent (w : World) : Type 0 where
  pub sorted : IsSorted w.shared.state.entries
  pub few : length w.leases < 2 ^ 64
  pub no_empty_id : cell [] w.shared ≡ none
  pub closed_empty : (id : Text) → w.shared.state.closed ≡ true → cell id w.shared ≡ none
  pub counted :
      (id : Text)
      → w.shared.state.closed ≡ false
      → id ≢ []
      → references id w.shared ≡ active id w.leases
  pub owned :
      (i : ℕ) (l : RequestLease)
      → get_elem? w.leases i ≡ some l
      → l.released ≡ false
      → l.id ≢ []
      → w.shared.state.closed ≡ false
      → cell l.id w.shared ≡ some l.cancelled
  pub distinct : (i j : Text) (c : ℕ) → cell i w.shared ≡ some c → cell j w.shared ≡ some c → i ≡ j
  pub bounded : (i : Text) (c : ℕ) → cell i w.shared ≡ some c → c < w.shared.flags.next
  pub allocated :
      (i : ℕ) (l : RequestLease) → get_elem? w.leases i ≡ some l → l.cancelled < w.shared.flags.next
  pub untracked :
      (i : ℕ) (l : RequestLease) (j : Text)
      → get_elem? w.leases i ≡ some l
      → l.id ≡ []
      → cell j w.shared ≢ some l.cancelled
