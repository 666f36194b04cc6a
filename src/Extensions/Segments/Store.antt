-- ===== src/Extensions/Segments/Store.antt =====
-- rust_backend/crates/extensions/src/download/segment_store.rs: the staged output of a transfer in
-- segments, and the checkpoint by which a later transfer resumes it. The texts of errors are left
-- out; each call of the file system is given with its outcome.
use spoti_flac_mobile.Prelude.{
  ℕ, Bool, true, false, not, ◌&&◌, ◌||◌, Option, none, some, List, [], length, leb, ◌==◌,
  if◌then◌else◌,
}
use spoti_flac_mobile.Prelude.Int.{ℤ, pos, eq_ℤ}
use spoti_flac_mobile.Prelude.Text.{Text, ◌=ₜ◌}
use spoti_flac_mobile.Prelude.Result.{Result, ok, err}
use spoti_flac_mobile.Extensions.Segments.Stage.{Stage, set_len, seek}

pub record Checkpoint : Type 0 where
  pub version : ℤ
  pub fingerprint : Text
  pub next_index : ℕ
  pub bytes : ℕ
  pub updated_at : ℕ

-- What stands under a name: a regular file, or something else.
pub data Entry (A : Type 0) : Type 0 where
  file : A → Entry A
  other : Entry A

-- The names of a transfer in its directory. The checkpoint's file is `none` where its text is no
-- checkpoint.
pub record Directory : Type 0 where
  pub staged : Option (Entry (List ℕ))
  pub checkpoint : Option (Entry (Option Checkpoint))
  pub target : Option (List ℕ)

pub data Failed : Type 0 where
  failed : Failed

-- While the output is open, the staged file is `file`.
pub record SegmentOutput : Type 0 where
  pub file : Stage
  pub state : Checkpoint
  pub keep : Bool
  pub promoted : Bool
  pub saved_bytes : ℕ
  pub saved_at : ℕ
  pub segments : ℕ

-- The calls of `open` that fail.
pub record OpenFaults : Type 0 where
  pub inspect : Bool
  pub read : Bool
  pub remove_staged : Bool
  pub remove_checkpoint : Bool
  pub create : Bool
  pub measure : Bool
  pub remove_stale : Bool
  pub resize : Bool
  pub rewind : Bool

abbrev pub is_other : {A : Type 0} → Option (Entry A) → Bool
is_other none = false
is_other (some (file a)) = false
is_other (some other) = true

abbrev pub fresh : Text → Checkpoint
fresh fingerprint = record {
  version = pos 0;
  fingerprint = fingerprint;
  next_index = 0;
  bytes = 0;
  updated_at = 0;
}

unfoldable pub is_usable : Text → ℕ → Checkpoint → Bool
is_usable fingerprint segments c =
    eq_ℤ c.version (pos 1)
    && c.fingerprint =ₜ fingerprint
    && leb c.next_index segments
    && (if c.next_index == 0 then c.bytes == 0 else not (c.bytes == 0))

abbrev pub usable : Text → ℕ → Option (Entry (Option Checkpoint)) → Option Checkpoint
usable fingerprint segments (some (file (some c))) =
    if is_usable fingerprint segments c then some c else none
usable fingerprint segments _ = none

-- The checkpoint of an earlier transfer, where one is kept and usable.
unfoldable pub restored : OpenFaults → Text → ℕ → Bool → Directory → Option Checkpoint
unfolding is_usable
restored faults fingerprint segments keep d =
    if keep && not faults.read then usable fingerprint segments d.checkpoint else none

abbrev pub content_of : Option (Entry (List ℕ)) → List ℕ
content_of (some (file bytes)) = bytes
content_of _ = []

-- `open` once the staged file is open with its content.
unfoldable pub opened :
    OpenFaults
    → Checkpoint
    → Bool
    → ℕ
    → ℕ
    → List ℕ
    → Directory
    → Result SegmentOutput Failed × Directory
opened faults state keep segments now content d =
    let resized = set_len state.bytes (record { content = content; position = 0 }) in
    let cleared = record d {
      staged = some (file content);
      checkpoint = if state.next_index == 0 then none else d.checkpoint;
    } in
    if faults.measure || state.next_index == 0 && faults.remove_stale
    then (err failed, record d { staged = some (file content) })
    else if faults.resize
    then (err failed, cleared)
    else if faults.rewind
    then (err failed, record cleared { staged = some (file resized.content) })
    else (
      ok (record {
        file = seek state.bytes resized;
        state = state;
        keep = keep;
        promoted = false;
        saved_bytes = state.bytes;
        saved_at = now;
        segments = segments;
      }),
      cleared,
    )

-- A file that is shorter than its checkpoint says is discarded.
unfoldable pub long_enough : Text → List ℕ → Checkpoint → Checkpoint
long_enough fingerprint content c = if leb c.bytes (length content) then c else fresh fingerprint

unfoldable pub open_output :
    OpenFaults → Text → ℕ → Bool → ℕ → Directory → Result SegmentOutput Failed × Directory
unfolding restored opened long_enough
open_output faults fingerprint segments keep now d =
    if faults.inspect || is_other d.staged || is_other d.checkpoint
    then (err failed, d)
    else elim (restored faults fingerprint segments keep d) [
      | none ↦
          if faults.remove_staged
          then (err failed, d)
          else if faults.remove_checkpoint
          then (err failed, record d { staged = none })
          else if faults.create
          then (err failed, record d { staged = none; checkpoint = none })
          else opened faults (fresh fingerprint) keep segments now []
              (record d { staged = none; checkpoint = none })
      | some c ↦
          if faults.create
          then (err failed, d)
          else opened faults (long_enough fingerprint (content_of d.staged) c) keep segments now
              (content_of d.staged) d
    ]
