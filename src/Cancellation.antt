-- ===== src/Cancellation.antt =====
-- rust_backend/crates/core/src/cancellation.rs: the registry of one cancellation domain. A method
-- runs under the state's lock, so it is one function from the shared state to a result and the
-- new shared state. `Arc<AtomicBool>` is a cell of `Flags`, named by its number.
pub mod Lease
pub mod World
pub mod Signals
pub mod Retry
pub mod Shutdown
pub mod Waiting
use spoti_flac_mobile.Prelude.{
  ℕ, ◌+◌, Bool, true, false, Option, none, some, List, [], ◌∷◌, ◌++◌, ◌==◌, ltb, if◌then◌else◌, map,
  ◌%◌, ◌^◌,
}
use spoti_flac_mobile.Prelude.Text.{Text, is_empty}
use spoti_flac_mobile.Prelude.Result.{Result, ok, err, try}
use spoti_flac_mobile.BTreeMap
use spoti_flac_mobile.BTreeMap.{BTreeMap}

pub data CancellationDomain : Type 0 where
  download extension_request : CancellationDomain

pub data CancellationError : Type 0 where
  download_cancelled extension_request_cancelled registry_closed lease_released : CancellationError

-- The cells of the shared flags: `next` is the first that is not allocated.
pub record Flags : Type 0 where
  pub next : ℕ
  pub value : ℕ → Bool

abbrev pub store : Flags → ℕ → Bool → Flags
store f c b = record f { value = λ j. if j == c then b else f.value j }

-- `AtomicBool::new(false)` in the first free cell.
abbrev pub alloc : Flags → Flags
alloc f = record { next = f.next + 1; value = λ j. if j == f.next then false else f.value j }

pub record Entry : Type 0 where
  pub cancelled : ℕ
  pub references : ℕ

pub record State : Type 0 where
  pub closed : Bool
  pub entries : BTreeMap Entry

unfoldable pub check_open : State → Result (Unit {0}) CancellationError
check_open s = if s.closed then err registry_closed else ok tt

-- What `notify` does to the outside: the condition variable, a parked thread, the executor.
pub data Signal : Type 0 where
  notify_all wake_by_ref : Signal
  unpark : ℕ → Signal

-- `strong t`: some caller still holds the thread `t`, so that its weak handle upgrades.
pub record Shared : Type 0 where
  pub state : State
  pub flags : Flags
  pub changed : List Signal
  pub waker : Bool
  pub threads : List ℕ
  pub strong : ℕ → Bool

unfoldable pub upgradable : (ℕ → Bool) → List ℕ → List ℕ
upgradable strong [] = []
upgradable strong (t ∷ ts) = let rest = upgradable strong ts in if strong t then t ∷ rest else rest

-- The threads that `notify` unparks, and then the waker.
abbrev pub observers : Shared → List Signal
observers s =
    map unpark (upgradable s.strong s.threads) ++ (if s.waker then wake_by_ref ∷ [] else [])

unfoldable pub notify : Shared → Shared
notify s = record s {
  changed = s.changed ++ (notify_all ∷ observers s);
  threads = upgradable s.strong s.threads;
}

abbrev no_flags : Flags
no_flags = record { next = 0; value = λ _. false }

unfoldable pub new : (ℕ → Bool) → Shared
new strong = record {
  state = record { closed = false; entries = [] };
  flags = no_flags;
  changed = [];
  waker = false;
  threads = [];
  strong = strong;
}

unfoldable pub with_waker : (ℕ → Bool) → Shared
unfolding new
with_waker strong = record (new strong) { waker = true }

abbrev pub set_entries : Shared → BTreeMap Entry → Shared
set_entries s m = record s { state = record s.state { entries = m } }

-- `entry(id).or_default()`: the entry, stored if it is new.
unfoldable pub or_default : Text → Shared → Entry × Shared
or_default id s = elim (BTreeMap.get id s.state.entries) [
  | some e ↦ (e, s)
  | none ↦
      let e : Entry = record { cancelled = s.flags.next; references = 0 } in
      (
        e,
        record s {
          state = record s.state { entries = BTreeMap.insert id e s.state.entries };
          flags = alloc s.flags;
        },
      )
]

pub record RequestLease : Type 0 where
  pub id : Text
  pub domain : CancellationDomain
  pub cancelled : ℕ
  pub released : Bool

abbrev lease : CancellationDomain → Text → ℕ → RequestLease
lease d id c = record { id = id; domain = d; cancelled = c; released = false }

unfoldable pub acquire :
    CancellationDomain → Text → Shared → Result RequestLease CancellationError × Shared
unfolding check_open or_default
acquire d id s = try (check_open s.state) s λ _.
    if is_empty id
    then (ok (lease d id s.flags.next), record s { flags = alloc s.flags })
    else let (e, s') = or_default id s in
      (
        ok (lease d id e.cancelled),
        set_entries s' (
            BTreeMap.insert id (record e { references = (e.references + 1) % 2 ^ 64 })
              s'.state.entries),
      )

unfoldable pub cancel : Text → Shared → Result (Unit {0}) CancellationError × Shared
unfolding check_open or_default notify
cancel id s = try (check_open s.state) s λ _.
    if is_empty id
    then (ok tt, s)
    else let (e, s') = or_default id s in
      (ok tt, notify (record s' { flags = store s'.flags e.cancelled true }))

-- The loop of `cancel_active` over the entries: the identities with a reference, and the flags.
unfoldable pub cancel_entries : BTreeMap Entry → Flags → List Text × Flags
cancel_entries [] f = ([], f)
cancel_entries ((id, e) ∷ m) f =
    let (ids, f') = cancel_entries m (if ltb 0 e.references then store f e.cancelled true else f) in
    (if ltb 0 e.references then id ∷ ids else ids, f')

unfoldable pub cancel_active : Shared → Result (List Text) CancellationError × Shared
unfolding check_open notify
cancel_active s = try (check_open s.state) s λ _.
    let (ids, f) = cancel_entries s.state.entries s.flags in
    (ok ids, notify (record s { flags = f }))

unfoldable pub is_cancelled : Text → Shared → Result Bool CancellationError
unfolding check_open
is_cancelled id s = elim (check_open s.state) [
  | err e ↦ err e
  | ok _ ↦
      ok (elim (BTreeMap.get id s.state.entries) [
        | none ↦ false
        | some e ↦ s.flags.value e.cancelled
      ])
]

unfoldable pub reset_if_idle : Text → Shared → Result (Unit {0}) CancellationError × Shared
unfolding check_open
reset_if_idle id s = try (check_open s.state) s λ _. (
  ok tt,
  elim (BTreeMap.get id s.state.entries) [
    | none ↦ s
    | some e ↦ if e.references == 0 then set_entries s (BTreeMap.remove id s.state.entries) else s
  ],
)

unfoldable pub shutdown : Shared → Shared
unfolding notify
shutdown s = notify (record s { state = record { closed = true; entries = [] } })
