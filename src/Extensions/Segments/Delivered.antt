-- ===== src/Extensions/Segments/Delivered.antt =====
-- rust_backend/crates/extensions/src/download/segments.rs: a transfer in which nothing fails publishes
-- its resource.
use spoti_flac_mobile.Prelude.{
  ℕ, ◌<◌, ◌≡◌, ap, subst, ◌∙◌, Bool, true, false, none, some, [], arith, length, if◌then◌else◌,
}
use spoti_flac_mobile.Prelude.Text.{Text}
use spoti_flac_mobile.Prelude.Result.{ok}
use spoti_flac_mobile.Extensions.Segments.Store.{SegmentOutput, Directory, OpenFaults, open_output}
use spoti_flac_mobile.Extensions.Segments.Writing.{publish, close}
use spoti_flac_mobile.Extensions.Segments.Assembled.{Source, joined}
use spoti_flac_mobile.Extensions.Segments.Resume.{IsRecoverable, Opening}
use spoti_flac_mobile.Extensions.Segments.Reopen.{open_output-Opening}
use spoti_flac_mobile.Extensions.Segments.Jobs.{Transfer, begin, worker_count}
use spoti_flac_mobile.Extensions.Segments.Steps.{Reach}
use spoti_flac_mobile.Extensions.Segments.Stepping.{Reach-IsSound}
use spoti_flac_mobile.Extensions.Segments.Complete.{Reach-complete}
use spoti_flac_mobile.Extensions.Segments.Lasting.{resumed_lem}
use spoti_flac_mobile.Extensions.Segments.Steady.{Reach-Steady}
use spoti_flac_mobile.Extensions.Segments.Published.{whole_file, close-target}
use spoti_flac_mobile.Extensions.Segments.Handed.{Reach-IsCounted}
use spoti_flac_mobile.Extensions.Segments.Life.{Ending, finish}

module _ (source : Source) (max_parallel : ℕ) (faults : OpenFaults) (fingerprint : Text)
    (segments : ℕ) (keep : Bool) (now : ℕ) (before after : Directory) (o : SegmentOutput) where
  -- When a resource of some bytes is opened, some of it is missing, and everything that was sent is
  -- received with no failure, then the end publishes all its segments in their order, unless a call
  -- of the publication fails.
  pub finish-publishes :
      length (source fingerprint) ≡ segments
      → IsRecoverable source before
      → open_output faults fingerprint segments keep now before ≡ (ok o, after)
      → 0 < max_parallel
      → 0 < length (joined (source fingerprint))
      → o.state.next_index < o.segments
      → {t : Transfer} → Reach source (begin (worker_count max_parallel o) o after) t
      → t.queue ≡ []
      → t.active ≡ []
      → t.results ≡ []
      → t.first_failure ≡ none
      → (x : Ending) → x.faults.sync ≡ false
      → x.faults.check ≡ false
      → x.faults.rename ≡ false
      → ((finish x t).0 ≡ ok tt) × ((finish x t).1.target ≡ some (joined (source fingerprint)))
  unfolding finish publish begin
  finish-publishes all r opened some_workers some_bytes missing {t} reached no_queue no_active
        no_results fine x sync check rename =
      let (s, k, same) = resumed_lem source max_parallel fingerprint segments (
        subst (Opening source fingerprint segments) opened
          (open_output-Opening source faults fingerprint segments keep now all before r)) in
      let sound = Reach-IsSound source (worker_count max_parallel o) reached k s in
      let complete =
        Reach-complete source max_parallel o after (omega (arith, missing)) reached some_workers
          missing no_queue no_active no_results fine in
      let counted = Reach-IsCounted (worker_count max_parallel o) source reached k in
      let ready = sound.going (counted.no_failure fine) in
      let whole : t.output.file.content ≡ joined (source fingerprint) =
        whole_file source t.output sound.valid ready complete
        ∙ ap (λ f. joined (source f)) ((Reach-Steady reached).fingerprint ∙ same) in
      let bytes : 0 < t.output.state.bytes =
        omega (arith, some_bytes, ready.ends, ap length whole) in
      let o' : SegmentOutput = record (t.output) { promoted = true } in
      let d' : Directory = record (t.directory) {
        staged = none;
        target = some t.output.file.content;
        checkpoint = if x.faults.remove_checkpoint then t.directory.checkpoint else none;
      } in
      let done : finish x t ≡ (ok tt, close x.checkpoint_stays x.staged_stays o' d') =
        ground (arith, fine, complete, bytes, sync, check, rename) in
      (
        ap (λ y. y.0) done,
        ap (λ y. y.1.target) done
            ∙ close-target x.checkpoint_stays x.staged_stays o' d'
            ∙ ap some whole,
      )
