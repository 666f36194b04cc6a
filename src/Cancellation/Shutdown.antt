-- ===== src/Cancellation/Shutdown.antt =====
-- rust_backend/crates/core/src/cancellation.rs: shutdown is terminal.
use spoti_flac_mobile.Prelude.{◌≡◌, true, arith}
use spoti_flac_mobile.Prelude.Text.{Text}
use spoti_flac_mobile.Prelude.Result.{err}
use spoti_flac_mobile.Cancellation
use spoti_flac_mobile.Cancellation.{CancellationDomain, RequestLease, registry_closed, shutdown}
use spoti_flac_mobile.Cancellation.Lease
use spoti_flac_mobile.Cancellation.Lease.{lease_is_cancelled, check_active}
use spoti_flac_mobile.Cancellation.World.{World, Step, Reach}

Step-closed : {w u : World} → Step w u → w.shared.state.closed ≡ true → u.shared.state.closed ≡ true
unfolding Cancellation.acquire Cancellation.cancel Cancellation.cancel_active
    Cancellation.reset_if_idle Cancellation.shutdown Lease.release Lease.observe_thread
Step-closed (Step.acquire w id l s h room) c = ground arith
Step-closed (Step.cancel w id) c = ground arith
Step-closed (Step.cancel_active w) c = ground arith
Step-closed (Step.reset_if_idle w id) c = ground arith
Step-closed (Step.shutdown w) c = ground arith
Step-closed (Step.release w i l at) c = ground arith
Step-closed (Step.observe_thread w t) c = c
Step-closed (Step.drop_threads w strong) c = c

Reach-closed :
    {w u : World} → Reach w u → w.shared.state.closed ≡ true → u.shared.state.closed ≡ true
Reach-closed Reach.here c = c
Reach-closed (Reach.next r s) c = Step-closed s (Reach-closed r c)

closed-shutdown : (w : World) → (shutdown w.shared).state.closed ≡ true
unfolding shutdown
closed-shutdown w = ground arith

-- After a shutdown, whatever the callers do next, every method of the registry and every check of a
-- lease fails with `RegistryClosed`, and the failing methods change nothing.
pub shutdown-closed :
    (w : World) {u : World}
    → Reach (record w { shared = shutdown w.shared }) u
    → (d : CancellationDomain) (id : Text) (l : RequestLease)
    → (Cancellation.acquire d id u.shared ≡ (err registry_closed, u.shared))
      × (Cancellation.cancel id u.shared ≡ (err registry_closed, u.shared))
      × (Cancellation.cancel_active u.shared ≡ (err registry_closed, u.shared))
      × (Cancellation.is_cancelled id u.shared ≡ err registry_closed)
      × (Cancellation.reset_if_idle id u.shared ≡ (err registry_closed, u.shared))
      × (lease_is_cancelled l u.shared ≡ err registry_closed)
      × (check_active l u.shared ≡ err registry_closed)
unfolding Cancellation.acquire Cancellation.cancel Cancellation.cancel_active
    Cancellation.is_cancelled Cancellation.reset_if_idle lease_is_cancelled check_active
shutdown-closed w {u} r d id l =
    let c : u.shared.state.closed ≡ true = Reach-closed r (closed-shutdown w) in
    (
      ground arith,
      ground arith,
      ground arith,
      ground arith,
      ground arith,
      ground arith,
      ground arith,
    )
