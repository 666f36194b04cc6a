-- ===== src/Tests/Reporter.antt =====
-- Witnesses for the progress reporters.
use spoti_flac_mobile.Progress.Reporter.Counted.{WriteCall, write_all}
use spoti_flac_mobile.Progress.Reporter.Taken.{Shows, Takes}
use spoti_flac_mobile.Cancellation.{registry_closed}
use spoti_flac_mobile.Prelude.{ℕ, ◌≡◌, refl, true, List, [], ◌⊎◌, length, ◌++◌, ◌/◌, ◌∷◌}
use spoti_flac_mobile.Prelude.Int.{pos, wrap_i64, ◌+ℤ◌, ◌-ℤ◌, ℤ}
use spoti_flac_mobile.Prelude.Text.{Text, codes, text_cmp}
use spoti_flac_mobile.Prelude.Result.{Result, ok}
use spoti_flac_mobile.BTreeMap
use spoti_flac_mobile.Cancellation
use spoti_flac_mobile.Progress.Item.{other, ItemProgress, started}
use spoti_flac_mobile.Progress.Reporter.{
  ItemTransferProgressReporter, ItemProgressWriter, report_at, is_close, new_writer,
}
use spoti_flac_mobile.Progress.Reporter.Fresh.{IsFresh, report_at-IsFresh}
use spoti_flac_mobile.Tests.Progress.{s1, hundredths}
use spoti_flac_mobile.Progress.Registry

abbrev track : Text
track = codes "a"

abbrev reporter : ItemTransferProgressReporter
reporter = record { id = track; state = record { received = pos 0; total = pos 1048576; at = 7 } }

-- 64 KiB at once are not passed on.
report_at_test : report_at hundredths other (pos 65536) (pos 1048576) 7 reporter s1 ≡ (reporter, s1)
unfolding report_at is_close wrap_i64 ◌-ℤ◌
report_at_test = refl

-- The track as it was started.
abbrev shown : ItemProgress ℕ
shown = started hundredths other track (pos 1)

s1-Shows : Shows track shown s1
unfolding Registry.start Registry.new BTreeMap.get BTreeMap.insert text_cmp wrap_i64 ◌+ℤ◌
s1-Shows = (refl, refl)

report_at-IsFresh_example :
    let x = report_at hundredths other (pos 131072) (pos 1048576) 7 reporter s1 in
    IsFresh x.0.state (pos 131072) (pos 1048576) 7
    × (((x.0 ≡ reporter) × (x.1 ≡ s1))
        ⊎ ((x.0.state ≡ record { received = pos 131072; total = pos 1048576; at = 7 })
            × Takes hundredths other track (pos 131072) (pos 1048576) shown s1 x.1))
report_at-IsFresh_example =
    report_at-IsFresh hundredths other (pos 131072) (pos 1048576) 7 reporter shown s1 refl s1-Shows

-- A writer into a list of bytes.
abbrev push : List ℕ → List ℕ → Result ℕ Text × List ℕ
push bytes written = (ok (length bytes), written ++ bytes)

abbrev seconds : ℕ → ℕ
seconds nanos = nanos / 10000000

-- A registry in which the track is cancelled.
abbrev cancelled_track : Cancellation.Shared
cancelled_track = (Cancellation.cancel track (Cancellation.new (λ thread. true))).1

is_cancelled-cancelled_track : Cancellation.is_cancelled track cancelled_track ≡ ok true
unfolding Cancellation.is_cancelled Cancellation.cancel Cancellation.new BTreeMap.get
    BTreeMap.insert text_cmp
is_cancelled-cancelled_track = refl

-- Two writes of which the second sees the cancellation.
abbrev calls : List WriteCall
calls = (7 ∷ 8 ∷ [], 9, Cancellation.new (λ thread. true)) ∷ (9 ∷ [], 11, cancelled_track) ∷ []

abbrev written : ℤ × ItemProgressWriter (List ℕ) × Registry.Shared ℕ
written = write_all hundredths other push seconds 104857600 calls (pos 0) (new_writer [] track 7) s1
