-- ===== src/Tests/Cancellation.antt =====
-- Runs of the registry of rust_backend/crates/core/src/cancellation.rs.
use spoti_flac_mobile.Prelude.{
  ℕ, ◌≡◌, ◌⊎◌, refl, Bool, true, false, some, List, [], ◌∷◌, ltb, arith,
}
use spoti_flac_mobile.Prelude.Int.{pos}
use spoti_flac_mobile.Prelude.Text.{Text, codes}
use spoti_flac_mobile.Prelude.Result.{Result, ok, err}
use spoti_flac_mobile.BTreeMap.{get, insert, remove}
use spoti_flac_mobile.Prelude.Text.{text_cmp}
use spoti_flac_mobile.Cancellation
use spoti_flac_mobile.Cancellation.{
  CancellationDomain, download, Shared, RequestLease, new, acquire, cancel, cancel_active,
  reset_if_idle, shutdown, registry_closed, CancellationError,
}
use spoti_flac_mobile.Cancellation.Lease.{
  lease_is_cancelled, check_active, release, wait_timeout, wait_cancelled, Observation,
}
use spoti_flac_mobile.Cancellation.World.{
  World, Step, Reach, start, IsConsistent, references, active,
}
use spoti_flac_mobile.Cancellation.World.Keeps.{Reach-IsConsistent}
use spoti_flac_mobile.Cancellation.Signals.{
  cancel-lease_is_cancelled, cancel_active-contains, contains,
}
use spoti_flac_mobile.Cancellation.Shutdown.{shutdown-closed}
use spoti_flac_mobile.Cancellation.Waiting.{
  WaitEnd, wait_cancelled-ends, WasNotified, Step-notifies,
}

registry : Unit {0}
unfolding new acquire cancel cancel_active reset_if_idle shutdown release lease_is_cancelled
    check_active get insert remove text_cmp references active wait_cancelled
registry = tt

abbrev nobody : ℕ → Bool
nobody _ = false

abbrev song : Text
song = codes "song"

abbrev w0 : World
w0 = start download nobody false

abbrev l1 : RequestLease
l1 = record { id = song; domain = download; cancelled = 0; released = false }

abbrev w1 : World
w1 = record w0 { shared = (acquire download song w0.shared).1; leases = l1 ∷ [] }

acquired : acquire download song w0.shared ≡ (ok l1, w1.shared)
unfolding registry
acquired = refl

reached : Reach w0 w1
reached = Reach.next Reach.here (Step.acquire w0 song l1 w1.shared acquired (omega arith))

opened : w1.shared.state.closed ≡ false
unfolding registry
opened = refl

Reach-IsConsistent_example : IsConsistent w1
Reach-IsConsistent_example = Reach-IsConsistent download nobody false reached

cancel-lease_is_cancelled_example : lease_is_cancelled l1 (cancel song w1.shared).1 ≡ ok true
unfolding text_cmp
cancel-lease_is_cancelled_example =
    cancel-lease_is_cancelled download nobody false reached opened song (cc) 0 l1 refl refl

cancel_active-contains_example :
    (ids : List Text) × ((cancel_active w1.shared).0 ≡ ok ids)
    × (contains song ids ≡ ltb 0 (active song w1.leases))
cancel_active-contains_example =
    cancel_active-contains download nobody false reached opened song (cc)

abbrev w5 : World
w5 = record w1 { shared = shutdown w1.shared }

shutdown-closed_example :
    (Cancellation.acquire download song w5.shared ≡ (err registry_closed, w5.shared))
    × (Cancellation.cancel song w5.shared ≡ (err registry_closed, w5.shared))
    × (Cancellation.cancel_active w5.shared ≡ (err registry_closed, w5.shared))
    × (Cancellation.is_cancelled song w5.shared ≡ err registry_closed)
    × (Cancellation.reset_if_idle song w5.shared ≡ (err registry_closed, w5.shared))
    × (lease_is_cancelled l1 w5.shared ≡ err registry_closed)
    × (check_active l1 w5.shared ≡ err registry_closed)
shutdown-closed_example = shutdown-closed w1 Reach.here download song l1

abbrev seen : ℕ → Shared → Observation
seen t s = record { lease = l1; shared = s; elapsed = t }

wait_cancelled-ends_example :
    (r : Result Bool CancellationError) × (wait_cancelled
        (pos 100)
        (seen 5 w1.shared ∷ seen 60000 w1.shared ∷ [])
      ≡ some r)
    × WaitEnd (wait_timeout (pos 100)) (seen 5 w1.shared ∷ seen 60000 w1.shared ∷ []) r
wait_cancelled-ends_example =
    wait_cancelled-ends (pos 100) (seen 5 w1.shared ∷ []) (seen 60000 w1.shared) (omega arith)

Step-notifies_example :
    (lease_is_cancelled l1 (cancel song w1.shared).1 ≡ lease_is_cancelled l1 w1.shared)
    ⊎ WasNotified w1.shared (cancel song w1.shared).1
Step-notifies_example =
    Step-notifies download nobody false reached (Step.cancel w1 song) 0 l1 l1 refl refl

-- An identity that is cancelled while a download runs wakes its waiter at once.
wait_woken :
    wait_cancelled (pos 100) (seen 5 w1.shared ∷ seen 7 (cancel song w1.shared).1 ∷ [])
    ≡ some (ok true)
unfolding registry
wait_woken = refl
