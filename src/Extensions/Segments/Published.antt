-- ===== src/Extensions/Segments/Published.antt =====
-- rust_backend/crates/extensions/src/download: what is published is the whole resource.
use spoti_flac_mobile.Prelude.{
  ℕ, ◌≡◌, refl, sym, ap, subst, ◌∙◌, ◌⊎◌, Bool, true, false, not, ◌||◌, ◌&&◌, none, some, [], arith,
  length, ◌==◌, if_cases, Bool-cases, Option-cases, inl, inr,
}
use spoti_flac_mobile.Prelude.Result.{Result, ok, err}
use spoti_flac_mobile.Extensions.Segments.Stage.{take_all}
use spoti_flac_mobile.Extensions.Segments.Store.{
  SegmentOutput, Directory, Checkpoint, content_of, Failed, failed,
}
use spoti_flac_mobile.Extensions.Segments.Writing.{
  SaveOutcome, not_synced, not_written, saved, checkpoint, publish, close,
}
use spoti_flac_mobile.Extensions.Segments.Assembled.{Source, joined, IsValid, IsReady}
use spoti_flac_mobile.Extensions.Segments.Resume.{IsRecoverable, IsRecorded, checkpoint_of}
use spoti_flac_mobile.Extensions.Segments.Jobs.{Transfer}
use spoti_flac_mobile.Extensions.Segments.Sound.{IsSound, checkpoint-IsRecorded}
use spoti_flac_mobile.Extensions.Segments.Life.{Ending, finish}

pub close-target :
    (checkpoint_stays staged_stays : Bool) (o : SegmentOutput) (d : Directory)
    → (close checkpoint_stays staged_stays o d).target ≡ d.target
unfolding close
close-target checkpoint_stays staged_stays o d = ground arith

pub checkpoint-target :
    (force : Bool) (outcome : SaveOutcome) (now elapsed instant : ℕ) (o : SegmentOutput)
    (d : Directory)
    → (checkpoint force outcome now elapsed instant o d).1.target ≡ d.target
unfolding checkpoint
checkpoint-target force not_synced now elapsed instant o d = ground arith
checkpoint-target force not_written now elapsed instant o d = ground arith
checkpoint-target force saved now elapsed instant o d = ground arith

module _ (source : Source) where
  -- What is left when the checkpoint stays or goes, and the file too.
  left_behind :
      (o : SegmentOutput) (d d' : Directory)
      → IsRecorded source o d
      → ((c : Checkpoint)
          → checkpoint_of d'.checkpoint ≡ some c
          → checkpoint_of d.checkpoint ≡ some c)
      → (content_of d'.staged ≡ []) ⊎ (content_of d'.staged ≡ o.file.content)
      → IsRecoverable source d'
  left_behind o d d' r old (inl gone) = record {
    truth = λ c h some_bytes fits. absurd (omega (arith, some_bytes, fits, ap length gone));
  }
  left_behind o d d' r old (inr there) = record {
    truth = λ c h some_bytes fits. rw there (r.truth c (old c h));
  }

  nothing_staged : (d : Directory) → content_of d.staged ≡ [] → IsRecoverable source d
  nothing_staged d gone = record {
    truth = λ c h some_bytes fits. absurd (omega (arith, some_bytes, fits, ap length gone));
  }

  -- An output that was not published leaves what can be resumed, unless it removes it.
  close-IsRecoverable :
      (checkpoint_stays staged_stays : Bool) (o : SegmentOutput) (d : Directory)
      → IsRecorded source o d ⊎ (o.promoted ≡ true)
      → IsRecoverable source (close checkpoint_stays staged_stays o d)
  unfolding close
  close-IsRecoverable checkpoint_stays staged_stays o d (inl r) =
      left_behind o d (close checkpoint_stays staged_stays o d) r (λ c h. ground (arith, h))
        (elim (Bool-cases (o.promoted || not staged_stays && not o.keep)) [
          | inl gone ↦ inl (ground (arith, gone))
          | inr there ↦ inr (ground (arith, there))
        ])
  close-IsRecoverable checkpoint_stays staged_stays o d (inr promoted) =
      nothing_staged (close checkpoint_stays staged_stays o d) (ground (arith, promoted))

  -- The output of all segments is the resource.
  pub whole_file :
      (o : SegmentOutput)
      → IsValid source o
      → IsReady o
      → o.state.next_index ≡ o.segments
      → o.file.content ≡ joined (source o.state.fingerprint)
  whole_file o v ready complete =
      sym (take_all o.state.bytes o.file.content (omega (arith, ready.ends)))
      ∙ v.prefix.same
      ∙ ap joined (
          take_all o.state.next_index (source o.state.fingerprint)
            (omega (arith, v.all_segments, complete)))

  -- How a transfer ends: with the whole resource published, or with nothing published.
  pub data Ended (t : Transfer) : Result (Unit {0}) Failed × Directory → Type 0 where
    published :
        (d : Directory)
        → IsRecoverable source d
        → d.target ≡ some (joined (source t.output.state.fingerprint))
        → Ended t (ok tt, d)
    unpublished :
        (e : Failed) (d : Directory)
        → IsRecoverable source d
        → d.target ≡ t.directory.target
        → Ended t (err e, d)

  module _ (x : Ending) (t : Transfer) (s : IsSound source t) where
    abbrev closed : SegmentOutput → Directory → Directory
    closed = close x.checkpoint_stays x.staged_stays

    kept_as_it_is : (e : Failed) → Ended t (err e, closed t.output t.directory)
    kept_as_it_is e =
        unpublished e (closed t.output t.directory)
          (close-IsRecoverable x.checkpoint_stays x.staged_stays t.output t.directory
            (inl s.recorded))
          (close-target x.checkpoint_stays x.staged_stays t.output t.directory)

    abbrev after :
        Result (Unit {0}) Failed × SegmentOutput × Directory → Result (Unit {0}) Failed × Directory
    after y = (y.0, closed y.1 y.2)

    abbrev Publishes : Result (Unit {0}) Failed × SegmentOutput × Directory → Type 0
    Publishes y = Ended t (after y)

    publish-Ended :
        IsReady t.output
        → t.output.state.next_index ≡ t.output.segments
        → Publishes (publish x.faults t.output t.directory)
    unfolding publish
    publish-Ended ready complete =
        if_cases Publishes x.faults.sync _ _ (λ e. kept_as_it_is failed)
          (λ e.
            if_cases Publishes x.faults.check _ _ (λ e. kept_as_it_is failed)
              (λ e.
                if_cases Publishes x.faults.rename _ _ (λ e. kept_as_it_is failed)
                  (λ e.
                    published _
                      (close-IsRecoverable x.checkpoint_stays x.staged_stays
                        (record (t.output) { promoted = true }) _ (inr refl))
                      (close-target x.checkpoint_stays x.staged_stays
                          (record (t.output) { promoted = true }) _
                        ∙ ap some (whole_file t.output s.valid ready complete)))))

    pub finish-Ended : (t.first_failure ≡ none → t.stop ≡ false) → Ended t (finish x t)
    unfolding finish
    finish-Ended no_failure = elim (Option-cases t.first_failure) [
      | inl fine ↦
          let ready = s.going (no_failure fine) in
          subst (Ended t) (ground (arith, fine)) (
            if_cases (Ended t)
              (not (t.output.state.next_index == t.output.segments) || t.output.state.bytes == 0)
              (err failed, closed t.output t.directory)
              (after (publish x.faults t.output t.directory)) (λ e. kept_as_it_is failed)
              (λ e. publish-Ended ready (ground (arith, e))))
      | inr (e, failure) ↦
          let (o, d) = checkpoint true x.outcome x.now x.elapsed x.instant t.output t.directory in
          subst (Ended t) (ground (arith, failure)) (
            unpublished e (closed o d)
              (close-IsRecoverable x.checkpoint_stays x.staged_stays o d (
                inl (
                  checkpoint-IsRecorded source true x.outcome x.now x.elapsed x.instant t.output
                    t.directory s.valid s.recorded)))
              (close-target x.checkpoint_stays x.staged_stays o d
                ∙ checkpoint-target true x.outcome x.now x.elapsed x.instant t.output t.directory))
    ]
