-- ===== src/Extensions/Segments/Writing.antt =====
-- rust_backend/crates/extensions/src/download/segment_store.rs: what is done to an open output:
-- `append`, `checkpoint`, `publish` and its end.
use spoti_flac_mobile.Prelude.{
  ℕ, ◌+◌, ◌-◌, Bool, true, not, ◌&&◌, ◌||◌, Option, none, some, List, [], ◌∷◌, length, take, drop,
  ltb, ◌==◌, if◌then◌else◌, drop,
}
use spoti_flac_mobile.Prelude.Int.{pos}
use spoti_flac_mobile.Prelude.Result.{Result, ok, err}
use spoti_flac_mobile.Extensions.Segments.Stage.{Stage, set_len, seek, write_all}
use spoti_flac_mobile.Extensions.Segments.Store.{SegmentOutput, Directory, file, Failed, failed}

-- One turn of the loop of `append`: `check` fails, the read fails, the read gives at most so many
-- bytes, or it does and the write fails with so many of them written.
pub data Turn : Type 0 where
  cancelled unread : Turn
  moved : ℕ → Turn
  torn : ℕ → ℕ → Turn

-- The loop of `append`. `none` means that the turns are not the whole loop.
unfoldable pub copy : List Turn → List ℕ → Stage → ℕ → Option (Result ℕ Failed × Stage)
copy [] rest s copied = none
copy (cancelled ∷ turns) rest s copied = some (err failed, s)
copy (unread ∷ turns) rest s copied = some (err failed, s)
copy (moved count ∷ turns) rest s copied =
    let buffer = take count rest in
    let again = copy turns (drop count rest) (write_all buffer s) (copied + length buffer) in
    if length buffer == 0 then some (ok copied, s) else again
copy (torn count written ∷ turns) rest s copied =
    let buffer = take count rest in
    if length buffer == 0
    then some (ok copied, s)
    else some (err failed, write_all (take written buffer) s)

-- A segment's file, with the size that was counted while it was fetched.
pub record Completed : Type 0 where
  pub content : List ℕ
  pub size : ℕ

-- The calls of `append` outside its loop that fail.
pub record AppendFaults : Type 0 where
  pub rewind_segment : Bool
  pub resize : Bool
  pub rewind : Bool

-- The cleaning up after a loop that failed; its own failures are ignored.
unfoldable pub rolled_back : AppendFaults → ℕ → Stage → Stage
rolled_back faults n s =
    let s' = if faults.resize then s else set_len n s in if faults.rewind then s' else seek n s'

abbrev pub appended :
    AppendFaults
    → Completed
    → SegmentOutput
    → Result ℕ Failed × Stage
    → Result (Unit {0}) Failed × SegmentOutput
appended faults segment o (ok copied, s) =
    if copied == segment.size
    then (
      ok tt,
      record o {
        file = s;
        state = record (o.state) {
          bytes = o.state.bytes + copied;
          next_index = o.state.next_index + 1;
        };
      },
    )
    else (err failed, record o { file = rolled_back faults o.state.bytes s })
appended faults segment o (err e, s) =
    (err e, record o { file = rolled_back faults o.state.bytes s })

unfoldable pub append :
    AppendFaults
    → List Turn
    → Completed
    → SegmentOutput
    → Option (Result (Unit {0}) Failed × SegmentOutput)
unfolding copy rolled_back
append faults turns segment o =
    if faults.rewind_segment
    then some (err failed, o)
    else elim (copy turns segment.content o.file 0) [
      | none ↦ none
      | some r ↦ some (appended faults segment o r)
    ]

-- What becomes of the file and of the checkpoint: `sync_all` may fail, and so may what follows it.
pub data SaveOutcome : Type 0 where
  not_synced not_written saved : SaveOutcome

-- The readings of the clocks: for the checkpoint, and for the time since the last one.
unfoldable pub save :
    SaveOutcome
    → ℕ
    → SegmentOutput
    → Directory
    → Result (Unit {0}) Failed × SegmentOutput × Directory
save not_synced now o d = (err failed, o, d)
save not_written now o d =
    (err failed, record o { state = record (o.state) { version = pos 1; updated_at = now } }, d)
save saved now o d =
    let state = record (o.state) { version = pos 1; updated_at = now } in
    (ok tt, record o { state = state }, record d { checkpoint = some (file (some state)) })

abbrev pub min_saved_bytes : ℕ
min_saved_bytes = 8388608

unfoldable pub checkpoint :
    Bool → SaveOutcome → ℕ → ℕ → ℕ → SegmentOutput → Directory → SegmentOutput × Directory
unfolding save
checkpoint force outcome now elapsed instant o d =
    if not o.keep
      || o.state.next_index == 0
      || o.state.bytes == 0
      || not force && ltb (o.state.bytes - o.saved_bytes) min_saved_bytes && ltb elapsed 5
    then (o, d)
    else (let (r, o', d') = save outcome now o d in
        elim r [
          | err _ ↦ (o', d')
          | ok _ ↦ (record o' { saved_bytes = o'.state.bytes; saved_at = instant }, d')
        ])

-- The calls of `publish` that fail, `check` among them.
pub record PublishFaults : Type 0 where
  pub sync : Bool
  pub check : Bool
  pub rename : Bool
  pub remove_checkpoint : Bool

unfoldable pub publish :
    PublishFaults → SegmentOutput → Directory → Result (Unit {0}) Failed × SegmentOutput × Directory
publish faults o d =
    if faults.sync
    then (err failed, o, d)
    else if faults.check
    then (err failed, o, d)
    else if faults.rename
    then (err failed, o, d)
    else (
      ok tt,
      record o { promoted = true },
      record d {
        staged = none;
        target = some o.file.content;
        checkpoint = if faults.remove_checkpoint then d.checkpoint else none;
      },
    )

-- `drop`: a transfer that keeps nothing leaves nothing, unless a removal fails.
unfoldable pub close : Bool → Bool → SegmentOutput → Directory → Directory
close checkpoint_stays staged_stays o d =
    let left = record d { staged = if o.promoted then none else some (file o.file.content) } in
    if o.promoted || not o.keep
    then record left {
      checkpoint = if checkpoint_stays then left.checkpoint else none;
      staged = if staged_stays then left.staged else none;
    }
    else left
