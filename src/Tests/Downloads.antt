-- ===== src/Tests/Downloads.antt =====
-- Witnesses for the state of downloads.
use spoti_flac_mobile.Cancellation.{registry_closed}
use spoti_flac_mobile.Prelude.{ℕ, ◌≡◌, refl, true, false, some, none, if◌then◌else◌}
use spoti_flac_mobile.Prelude.Text.{Text, codes, ◌=ₜ◌}
use spoti_flac_mobile.Prelude.Result.{ok}
use spoti_flac_mobile.BTreeMap
use spoti_flac_mobile.Cancellation
use spoti_flac_mobile.Progress.Item.{other}
use spoti_flac_mobile.Progress.Steps.{IsOrdered}
use spoti_flac_mobile.Progress.Invariant.{Reach-IsOrdered}
use spoti_flac_mobile.Tests.Progress.{s1, room1, opened1, reached1, hundredths}
use spoti_flac_mobile.Downloads.{DownloadState, cancel}
use spoti_flac_mobile.Downloads.Cancelled.{cancel-removes}

abbrev track : Text
track = codes "a"

-- The track "a" is shown and is cancelled.
abbrev state : DownloadState ℕ
state = record { progress = s1; cancellation = Cancellation.new (λ thread. true) }

state_opened : state.cancellation.state.closed ≡ false
unfolding Cancellation.new
state_opened = refl

cancel-removes_example :
    (t : DownloadState ℕ) × (cancel track state ≡ some (ok tt, t))
    × ((j : Text)
        → BTreeMap.get j t.progress.state.items
          ≡ (if j =ₜ track then none else BTreeMap.get j state.progress.state.items))
    × (Cancellation.is_cancelled track t.cancellation ≡ ok true)
    × IsOrdered t.progress
cancel-removes_example =
    cancel-removes state track state_opened opened1 (Reach-IsOrdered hundredths other reached1)
      room1 refl
