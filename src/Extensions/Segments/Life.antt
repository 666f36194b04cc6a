-- ===== src/Extensions/Segments/Life.antt =====
-- rust_backend/crates/extensions/src/download/segments.rs: the end of `download`, and what may become
-- of the files of a transfer over any number of downloads and of stops of the process.
use spoti_flac_mobile.Prelude.{
  ℕ, ◌≤◌, ◌≡◌, Bool, true, not, ◌||◌, none, some, List, length, take, ◌==◌, if◌then◌else◌,
}
use spoti_flac_mobile.Prelude.Text.{Text}
use spoti_flac_mobile.Prelude.Result.{Result, ok, err}
use spoti_flac_mobile.Extensions.Segments.Store.{
  SegmentOutput, Directory, file, Failed, failed, OpenFaults, open_output,
}
use spoti_flac_mobile.Extensions.Segments.Writing.{
  SaveOutcome, checkpoint, PublishFaults, publish, close,
}
use spoti_flac_mobile.Extensions.Segments.Jobs.{Transfer, begin, worker_count}
use spoti_flac_mobile.Extensions.Segments.Steps.{Step}
use spoti_flac_mobile.Extensions.Segments.Assembled.{Source}

-- What the calls after the loop meet.
pub record Ending : Type 0 where
  pub outcome : SaveOutcome
  pub now : ℕ
  pub elapsed : ℕ
  pub instant : ℕ
  pub faults : PublishFaults
  pub checkpoint_stays : Bool
  pub staged_stays : Bool

-- `download` after the loop, with the end of the output.
unfoldable pub finish : Ending → Transfer → Result (Unit {0}) Failed × Directory
finish x t = elim t.first_failure [
  | some e ↦
      let (o, d) = checkpoint true x.outcome x.now x.elapsed x.instant t.output t.directory in
      (err e, close x.checkpoint_stays x.staged_stays o d)
  | none ↦
      if not (t.output.state.next_index == t.output.segments) || t.output.state.bytes == 0
      then (err failed, close x.checkpoint_stays x.staged_stays t.output t.directory)
      else (let (r, o, d) = publish x.faults t.output t.directory in
          (r, close x.checkpoint_stays x.staged_stays o d))
]

-- No transfer is running, or one is.
pub data Life : Type 0 where
  idle : Directory → Life
  running : Transfer → Life

-- A process that stops in a transfer leaves the file as it was last saved, followed by anything, and
-- the checkpoint as it is: it is replaced as a whole.
pub data LifeStep (source : Source) (max_parallel : ℕ) : Life → Life → Type 0 where
  not_opened :
      (d d' : Directory) (faults : OpenFaults) (fingerprint : Text) (segments : ℕ) (keep : Bool)
      (now : ℕ) (e : Failed)
      → length (source fingerprint) ≡ segments
      → open_output faults fingerprint segments keep now d ≡ (err e, d')
      → LifeStep source max_parallel (idle d) (idle d')
  start :
      (d d' : Directory) (faults : OpenFaults) (fingerprint : Text) (segments : ℕ) (keep : Bool)
      (now : ℕ) (o : SegmentOutput)
      → length (source fingerprint) ≡ segments
      → open_output faults fingerprint segments keep now d ≡ (ok o, d')
      → LifeStep source max_parallel (idle d) (running (begin (worker_count max_parallel o) o d'))
  run : (t u : Transfer) → Step source t u → LifeStep source max_parallel (running t) (running u)
  stop :
      (t : Transfer) (content : List ℕ)
      → t.output.saved_bytes ≤ length content
      → take t.output.saved_bytes content ≡ take t.output.saved_bytes t.output.file.content
      → LifeStep source max_parallel
          (running t)
          (idle (record (t.directory) { staged = some (file content) }))
  end : (t : Transfer) (x : Ending) → LifeStep source max_parallel (running t) (idle (finish x t).1)

pub data Lives (source : Source) (max_parallel : ℕ) (a : Life) : Life → Type 0 where
  born : Lives source max_parallel a a
  later :
      {b c : Life}
      → Lives source max_parallel a b
      → LifeStep source max_parallel b c
      → Lives source max_parallel a c
