-- ===== src/Downloads/Cancelled.antt =====
-- rust_backend/crates/core/src/downloads.rs: what a cancelled download leaves in both registries.
use spoti_flac_mobile.Progress.Registry.{closed}
use spoti_flac_mobile.Cancellation.{registry_closed}
use spoti_flac_mobile.Prelude.{◌≡◌, refl, true, false, none, some, [], arith, if◌then◌else◌}
use spoti_flac_mobile.Prelude.Text.{Text, is_empty, ◌=ₜ◌, =ₜ_iff}
use spoti_flac_mobile.Prelude.Result.{ok, err}
use spoti_flac_mobile.BTreeMap
use spoti_flac_mobile.BTreeMap.{get-remove, get-insert}
use spoti_flac_mobile.Cancellation
use spoti_flac_mobile.Progress.Registry
use spoti_flac_mobile.Progress.Steps.{IsOrdered}
use spoti_flac_mobile.Progress.Steps.{HasRoom}
use spoti_flac_mobile.Progress.Invariant.{remove-IsOrdered}
use spoti_flac_mobile.Downloads.{DownloadState, acquire, cancel_active, cancel, remove, shutdown}

is_cancelled-cancel :
    (s : Cancellation.Shared) (id : Text)
    → s.state.closed ≡ false
    → is_empty id ≡ false
    → (Cancellation.cancel id s).0 ≡ ok tt
      × (Cancellation.is_cancelled id (Cancellation.cancel id s).1 ≡ ok true)
unfolding Cancellation.cancel Cancellation.is_cancelled Cancellation.or_default Cancellation.notify
    Cancellation.check_open
is_cancelled-cancel s id opened named =
    let fresh : Cancellation.Entry = record { cancelled = s.flags.next; references = 0 } in
    (ground arith, ground (arith, get-insert id id fresh s.state.entries, =ₜ_iff id id))

module _ {F : Type 0} where
  -- `remove` of the progress registry takes the item and no other.
  items-remove :
      (s t : Registry.Shared F) (id j : Text)
      → Registry.remove id s ≡ some (ok tt, t)
      → BTreeMap.get j t.state.items ≡ (if j =ₜ id then none else BTreeMap.get j s.state.items)
  unfolding Registry.remove Registry.remove_present Registry.prune
  items-remove s t id j e = ground (arith, get-remove id j s.state.items, =ₜ_iff j id)

  -- On an open state, `cancel` returns, the cancelled download is no longer shown and no other item
  -- is touched, and the identity is cancelled.
  pub cancel-removes :
      (s : DownloadState F) (id : Text)
      → s.cancellation.state.closed ≡ false
      → s.progress.state.is_closed ≡ false
      → IsOrdered s.progress
      → HasRoom s.progress
      → is_empty id ≡ false
      → (t : DownloadState F) × (cancel id s ≡ some (ok tt, t))
        × ((j : Text)
            → BTreeMap.get j t.progress.state.items
              ≡ (if j =ₜ id then none else BTreeMap.get j s.progress.state.items))
        × (Cancellation.is_cancelled id t.cancellation ≡ ok true)
        × IsOrdered t.progress
  unfolding cancel remove
  cancel-removes s id opened opened' k room named =
      let (p, e, k') = remove-IsOrdered s.progress id k room opened' in
      let (f, g) = is_cancelled-cancel s.cancellation id opened named in
      let t : DownloadState F = record {
        progress = p;
        cancellation = (Cancellation.cancel id s.cancellation).1;
      } in
      (t, ground arith, (λ j. items-remove s.progress p id j e), g, k')

  -- After a shutdown no download starts and nothing is cancelled: every operation fails and leaves
  -- the state, and no item is shown.
  pub shutdown-fails :
      (s : DownloadState F) (id : Text)
      → is_empty id ≡ false
      → let t = shutdown s in
        (acquire id t ≡ (err registry_closed, t))
        × (cancel id t ≡ some (err registry_closed, t))
        × (cancel_active t ≡ some (err registry_closed, t))
        × (Registry.remove id t.progress ≡ some (err closed, t.progress))
        × (t.progress.state.items ≡ [])
  unfolding shutdown acquire cancel cancel_active Cancellation.shutdown Cancellation.acquire
      Cancellation.cancel Cancellation.cancel_active Registry.shutdown Registry.remove
  shutdown-fails s id named = (refl, ground arith, refl, refl, refl)
