-- ===== src/Extensions/Segments/Lasting.antt =====
-- rust_backend/crates/extensions/src/download: over any number of transfers, failures and stops.
use spoti_flac_mobile.Prelude.{
  ℕ, ◌-◌, ◌≡◌, refl, sym, ap, subst, ◌∙◌, ◌⊎◌, Bool, false, Option, none, some, List, arith, inl,
  inr, min,
}
use spoti_flac_mobile.Prelude.Text.{Text}
use spoti_flac_mobile.Prelude.Result.{Result, ok, err}
use spoti_flac_mobile.Extensions.Segments.Store.{
  SegmentOutput, Directory, Failed, OpenFaults, open_output,
}
use spoti_flac_mobile.Extensions.Segments.Assembled.{
  Source, joined, Prefix_of_take, IsValid, IsReady,
}
use spoti_flac_mobile.Extensions.Segments.Resume.{
  IsRecoverable, IsRecorded, Opening, resumed, refused,
}
use spoti_flac_mobile.Extensions.Segments.Reopen.{open_output-Opening}
use spoti_flac_mobile.Extensions.Segments.Jobs.{Transfer, begin, worker_count, find}
use spoti_flac_mobile.Extensions.Segments.Places.{IsCounted}
use spoti_flac_mobile.Extensions.Segments.Handed.{Step-IsCounted, begin-IsCounted}
use spoti_flac_mobile.Extensions.Segments.Sound.{IsSound}
use spoti_flac_mobile.Extensions.Segments.Stepping.{Step-IsSound}
use spoti_flac_mobile.Extensions.Segments.Published.{Ended, published, unpublished, finish-Ended}
use spoti_flac_mobile.Extensions.Segments.Steady.{Step-Steady}
use spoti_flac_mobile.Extensions.Segments.Life.{
  Life, idle, running, LifeStep, not_opened, start, run, stop, end, Lives, born, later,
}

open_output-target :
    (faults : OpenFaults) (fingerprint : Text) (segments : ℕ) (keep : Bool) (now : ℕ)
    (d : Directory)
    → (open_output faults fingerprint segments keep now d).1.target ≡ d.target
unfolding open_output
open_output-target faults fingerprint segments keep now d = ground arith

module _ (source : Source) (max_parallel : ℕ) where
  -- Nothing is published, or a whole resource.
  abbrev WholeOrNone : Option (List ℕ) → Type 0
  WholeOrNone target =
      (target ≡ none) ⊎ ((fingerprint : Text) × (target ≡ some (joined (source fingerprint))))

  abbrev Keeps : Life → Type 0
  Keeps (idle d) = IsRecoverable source d × WholeOrNone d.target
  Keeps (running t) =
      (workers : ℕ) × IsCounted workers t × IsSound source t × WholeOrNone t.directory.target

  begin-IsSound :
      (workers : ℕ) (o : SegmentOutput) (d : Directory)
      → IsValid source o
      → IsReady o
      → IsRecorded source o d
      → o.promoted ≡ false
      → IsSound source (begin workers o d)
  unfolding begin find
  begin-IsSound workers o d v ready r unpromoted = record {
    valid = v;
    recorded = r;
    received = λ i c h. absurd (cc);
    coming = tt;
    ready = inl ready;
    going = λ g. ready;
    unpromoted = unpromoted;
  }

  module _ (fingerprint : Text) (segments : ℕ) where
    refused_lem :
        {e : Failed} {d : Directory}
        → Opening source fingerprint segments (err e, d)
        → IsRecoverable source d
    refused_lem (refused e d r) = r

    pub resumed_lem :
        {o : SegmentOutput} {d : Directory}
        → Opening source fingerprint segments (ok o, d)
        → IsSound source (begin (worker_count max_parallel o) o d)
          × IsCounted (worker_count max_parallel o) (begin (worker_count max_parallel o) o d)
          × (o.state.fingerprint ≡ fingerprint)
    unfolding worker_count
    resumed_lem (resumed o d v ready r same size unpromoted) = (
      begin-IsSound (min max_parallel (o.segments - o.state.next_index)) o d v ready r unpromoted,
      begin-IsCounted (min max_parallel (o.segments - o.state.next_index)) o d
          (omega (arith, v.next_le)),
      same,
    )

  ended_lem :
      (t : Transfer) {y : Result (Unit {0}) Failed × Directory}
      → Ended source t y
      → WholeOrNone t.directory.target
      → IsRecoverable source y.1 × WholeOrNone y.1.target
  ended_lem t (published d r h) w = (r, inr (t.output.state.fingerprint, h))
  ended_lem t (unpublished e d r h) w = (r, rw h w)

  LifeStep-Keeps : {a b : Life} → LifeStep source max_parallel a b → Keeps a → Keeps b
  unfolding begin
  LifeStep-Keeps (not_opened d d' faults fingerprint segments keep now e all h) (r, w) = (
    refused_lem fingerprint segments (
        subst (Opening source fingerprint segments) h
          (open_output-Opening source faults fingerprint segments keep now all d r)),
    subst WholeOrNone
        (sym (
          ap (λ y. y.1.target) (sym h) ∙ open_output-target faults fingerprint segments keep now d))
        w,
  )
  LifeStep-Keeps (start d d' faults fingerprint segments keep now o all h) (r, w) =
      let (s, k, same) = resumed_lem fingerprint segments (
        subst (Opening source fingerprint segments) h
          (open_output-Opening source faults fingerprint segments keep now all d r)) in
      (
        worker_count max_parallel o,
        k,
        s,
        subst WholeOrNone
            (sym (
              ap (λ y. y.1.target) (sym h)
              ∙ open_output-target faults fingerprint segments keep now d))
            w,
      )
  LifeStep-Keeps (run t u step) (workers, k, s, w) = (
    workers,
    Step-IsCounted workers source step k,
    Step-IsSound source workers step k s,
    subst WholeOrNone (sym (Step-Steady step).target) w,
  )
  LifeStep-Keeps (stop t content size same) (workers, k, s, w) = (
    record {
      truth = λ c h some_bytes fits.
          let b : c.bytes ≡ t.output.saved_bytes = s.recorded.saved c h in
          Prefix_of_take content (s.recorded.truth c h) (rw b same) fits;
    },
    w,
  )
  LifeStep-Keeps (end t x) (workers, k, s, w) =
      ended_lem t (finish-Ended source x t s k.no_failure) w

  Lives-Keeps : {a b : Life} → Lives source max_parallel a b → Keeps a → Keeps b
  Lives-Keeps born k = k
  Lives-Keeps (later l step) k = LifeStep-Keeps step (Lives-Keeps l k)

  abbrev pub target_of : Life → Option (List ℕ)
  target_of (idle d) = d.target
  target_of (running t) = t.directory.target

  Keeps-whole : (a : Life) → Keeps a → WholeOrNone (target_of a)
  Keeps-whole (idle d) (r, w) = w
  Keeps-whole (running t) (workers, k, s, w) = w

  -- In an empty directory, whatever transfers are begun, whatever calls fail and wherever the
  -- process stops: the target is missing, or it is all the segments of a resource in their order.
  pub Lives-whole :
      (a : Life)
      → Lives source max_parallel
          (idle (record { staged = none; checkpoint = none; target = none }))
          a
      → (target_of a ≡ none)
        ⊎ ((fingerprint : Text) × (target_of a ≡ some (joined (source fingerprint))))
  Lives-whole a l =
      Keeps-whole a
        (Lives-Keeps l (record { truth = λ c h some_bytes fits. absurd (cc) }, inl refl))
