-- ===== src/Extensions/Segments/Effects.antt =====
-- rust_backend/crates/extensions/src/download/segment_store.rs: what the calls of an output do to its
-- counters.
use spoti_flac_mobile.Prelude.{ℕ, ◌+◌, ◌≡◌, Bool, some, List, arith}
use spoti_flac_mobile.Prelude.Result.{ok, err}
use spoti_flac_mobile.Extensions.Segments.Store.{SegmentOutput, Directory, Failed}
use spoti_flac_mobile.Extensions.Segments.Writing.{
  Completed, append, checkpoint, AppendFaults, Turn, SaveOutcome, not_synced, not_written, saved,
}

-- `checkpoint` changes nothing of the output but its stamps.
pub record SameOutput (o o' : SegmentOutput) : Type 0 where
  pub file : o'.file ≡ o.file
  pub next_index : o'.state.next_index ≡ o.state.next_index
  pub bytes : o'.state.bytes ≡ o.state.bytes
  pub fingerprint : o'.state.fingerprint ≡ o.state.fingerprint
  pub segments : o'.segments ≡ o.segments
  pub promoted : o'.promoted ≡ o.promoted

pub checkpoint-SameOutput :
    (force : Bool) (outcome : SaveOutcome) (now elapsed instant : ℕ) (o : SegmentOutput)
    (d : Directory)
    → SameOutput o (checkpoint force outcome now elapsed instant o d).0
unfolding checkpoint
checkpoint-SameOutput force not_synced now elapsed instant o d = ground arith
checkpoint-SameOutput force not_written now elapsed instant o d = ground arith
checkpoint-SameOutput force saved now elapsed instant o d = ground arith

pub append-next :
    (faults : AppendFaults) (turns : List Turn) (c : Completed) (o o' : SegmentOutput)
    → append faults turns c o ≡ some (ok tt, o')
    → (o'.state.next_index ≡ o.state.next_index + 1) × (o'.segments ≡ o.segments)
unfolding append
append-next faults turns c o o' e = ground arith

pub append-failed :
    (faults : AppendFaults) (turns : List Turn) (c : Completed) (o o' : SegmentOutput) (x : Failed)
    → append faults turns c o ≡ some (err x, o')
    → (o'.state.next_index ≡ o.state.next_index) × (o'.segments ≡ o.segments)
unfolding append
append-failed faults turns c o o' x e = ground arith
