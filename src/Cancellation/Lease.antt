-- ===== src/Cancellation/Lease.antt =====
-- rust_backend/crates/core/src/cancellation.rs: the methods of `RequestLease`.
use spoti_flac_mobile.Prelude.{
  ℕ, ◌+◌, ◌-◌, Bool, true, false, Option, none, some, List, [], ◌∷◌, ◌++◌, ◌==◌, min, if◌then◌else◌,
  ◌%◌, ◌^◌,
}
use spoti_flac_mobile.Prelude.Int.{ℤ, pos, negsuc}
use spoti_flac_mobile.Prelude.Text.{Text, is_empty}
use spoti_flac_mobile.Prelude.Result.{Result, ok, err, ◌>>=◌, ◌>>◌}
use spoti_flac_mobile.BTreeMap
use spoti_flac_mobile.Cancellation.{
  CancellationDomain, download, extension_request, CancellationError, download_cancelled,
  extension_request_cancelled, lease_released, State, check_open, Shared, RequestLease, upgradable,
  notify, set_entries,
}

unfoldable pub observe_thread : ℕ → Shared → Shared
unfolding upgradable
observe_thread t s = record s { threads = upgradable s.strong s.threads ++ t ∷ [] }

-- The lease's own flag, through its `Arc`.
abbrev pub flag : RequestLease → Shared → Bool
flag l s = s.flags.value l.cancelled

-- `str::trim` is the standard library's, over Unicode white space: an argument.
unfoldable pub active_request_cancelled : (Text → Text) → RequestLease → Shared → Bool
active_request_cancelled trim l s = elim l.domain [
  | download ↦ false
  | extension_request ↦
      if is_empty (trim l.id) then false else elim (BTreeMap.get (trim l.id) s.state.entries) [
        | none ↦ false
        | some e ↦ s.flags.value e.cancelled
      ]
]

unfoldable pub check_live : RequestLease → State → Result (Unit {0}) CancellationError
unfolding check_open
check_live l s = do check_open s; if l.released then err lease_released else ok tt

unfoldable pub lease_is_cancelled : RequestLease → Shared → Result Bool CancellationError
unfolding check_live
lease_is_cancelled l s = do check_live l s.state; ok (flag l s)

abbrev cancelled_error : CancellationDomain → CancellationError
cancelled_error download = download_cancelled
cancelled_error extension_request = extension_request_cancelled

unfoldable pub check_active : RequestLease → Shared → Result (Unit {0}) CancellationError
unfolding lease_is_cancelled
check_active l s = do
  c ← lease_is_cancelled l s
  if c then err (cancelled_error l.domain) else ok tt

-- The bounded wait, in milliseconds. The argument is an `i64`.
unfoldable pub wait_timeout : ℤ → ℕ
wait_timeout (negsuc n) = 15000
wait_timeout (pos n) = if n == 0 then 15000 else min n 60000

-- What a waiter finds each time that it holds the lock: its lease, the shared state, and the
-- milliseconds since it started.
pub record Observation : Type 0 where
  pub lease : RequestLease
  pub shared : Shared
  pub elapsed : ℕ

-- One round of the loop; `none` is another wait on the condition variable.
unfoldable pub wait_round : ℕ → Observation → Option (Result Bool CancellationError)
unfolding check_live
wait_round timeout o = elim (check_live o.lease o.shared.state) [
  | err e ↦ some (err e)
  | ok _ ↦
      if flag o.lease o.shared
      then some (ok true)
      else if timeout - o.elapsed == 0
      then some (ok false)
      else none
]

-- The loop over the wake-ups that the environment gives, spurious ones included; `none` is a
-- waiter that still sleeps after the last of them.
unfoldable pub wait_rounds : ℕ → List Observation → Option (Result Bool CancellationError)
unfolding wait_round
wait_rounds timeout [] = none
wait_rounds timeout (o ∷ os) = elim (wait_round timeout o) [
  | some r ↦ some r
  | none ↦ wait_rounds timeout os
]

unfoldable pub wait_cancelled : ℤ → List Observation → Option (Result Bool CancellationError)
unfolding wait_timeout wait_rounds
wait_cancelled timeout_ms os = wait_rounds (wait_timeout timeout_ms) os

-- The registry after the lease's reference is gone; `references -= 1` wraps at 0.
unfoldable pub drop_reference : Text → Shared → Shared
drop_reference id s = elim (BTreeMap.get id s.state.entries) [
  | none ↦ s
  | some e ↦
      let left = (e.references + 2 ^ 64 - 1) % 2 ^ 64 in
      set_entries s (
        if left == 0
        then BTreeMap.remove id s.state.entries
        else BTreeMap.insert id (record e { references = left }) s.state.entries)
]

unfoldable pub release : RequestLease → Shared → RequestLease × Shared
unfolding drop_reference notify
release l s =
    if l.released then (l, s) else (record l { released = true }, notify (drop_reference l.id s))
