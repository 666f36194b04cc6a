-- ===== src/Lyrics/Cache.antt =====
-- rust_backend/crates/providers/src/lyrics/cache.rs: the cache of the lyrics that were found, and its
-- snapshots. A `SystemTime` is its nanoseconds after the epoch, a path its text; what is read from
-- the file and whether a thread starts or a file is written are arguments.
pub mod Bounded
pub mod Found
pub mod Restored
pub mod Writer
use spoti_flac_mobile.Prelude.{[], ◌∷◌, ◌/◌}
use spoti_flac_mobile.Prelude.Text.{Text, is_empty, ◌=ₜ◌, codes}
use spoti_flac_mobile.Prelude.{
  ℕ, [], Option, ℕ, [], List, Bool, ◌*◌, none, some, leb, ◌+◌, length, false, if◌then◌else◌, true,
  ◌-◌, ◌&&◌, ltb, ◌||◌,
}
use spoti_flac_mobile.BTreeMap
use spoti_flac_mobile.BTreeMap.{BTreeMap}
use spoti_flac_mobile.BTreeMap.Oldest.{evict, live}
use spoti_flac_mobile.Prelude.Int.{ℤ, pos, negsuc}

-- `LyricsResponse` of core/src/lyrics.rs.
pub record LyricsResponse (Line : Type 0) : Type 0 where
  pub lines : Option (List Line)
  pub sync_type : Text
  pub instrumental : Bool
  pub plain_lyrics : Text
  pub provider : Text
  pub source : Text

pub record Entry (Line : Type 0) : Type 0 where
  pub response : LyricsResponse Line
  pub expires_at : ℕ

pub record PersistedEntry (Line : Type 0) : Type 0 where
  pub persisted : Option (LyricsResponse Line)
  pub seconds : ℤ

pub record Snapshot (Line : Type 0) : Type 0 where
  pub version : ℕ
  pub stored : BTreeMap (PersistedEntry Line)

pub record State (Line : Type 0) : Type 0 where
  pub entries : BTreeMap (Entry Line)
  pub path : Option Text
  pub pending : Option (Text × BTreeMap (Entry Line))
  pub writing : Bool
  pub flush : Bool
  pub error : Option Text

abbrev pub max_entries : ℕ
max_entries = 500

abbrev pub second : ℕ
second = 1000000000

abbrev pub ttl : ℕ
ttl = 86400 * second

abbrev pub snapshot_version : ℕ
snapshot_version = 5

-- `u64::try_from`, in nanoseconds; no number of seconds in an `i64` is out of range of the sum.
abbrev pub expiry_of : ℤ → Option ℕ
expiry_of (pos n) = some (n * second)
expiry_of (negsuc n) = none

module _ {Line : Type 0} where
  abbrev pub default : State Line
  default = record {
    entries = [];
    path = none;
    pending = none;
    writing = false;
    flush = false;
    error = none;
  }

  -- An empty list collapses to none.
  abbrev pub collapse : Option (List Line) → Option (List Line)
  collapse (some []) = none
  collapse lines = lines

  unfoldable pub clone_response : LyricsResponse Line → LyricsResponse Line
  clone_response r = record r { lines = collapse r.lines }

  unfoldable pub get : Text → ℕ → State Line → Option (LyricsResponse Line)
  get key now s =
      live (λ e. e.expires_at) (λ e. clone_response e.response) now (BTreeMap.get key s.entries)

  -- `spawned` is the error of a thread that does not start.
  abbrev pub start_writer : Option Text → State Line → State Line
  start_writer none s = record s { writing = true }
  start_writer (some message) s = record s { writing = false; error = some message }

  abbrev pub schedule_at : Option Text → Option Text → State Line → State Line
  schedule_at none spawned s = s
  schedule_at (some path) spawned s =
      let s' : State Line = record s { pending = some (path, s.entries) } in
      if s.writing then s' else start_writer spawned s'

  unfoldable pub schedule : Option Text → State Line → State Line
  schedule spawned s = schedule_at s.path spawned s

  -- The room for one more entry; `none` is a panic.
  unfoldable pub make_room : ℕ → BTreeMap (Entry Line) → Option (BTreeMap (Entry Line))
  make_room now m =
      let kept = BTreeMap.retain (λ _ e. leb now e.expires_at) m in
      if leb max_entries (length m)
      then evict (λ e. e.expires_at) (max_entries - 1) (length kept) kept
      else some m

  abbrev pub insert_into :
      Option Text
      → Text
      → Entry Line
      → State Line
      → Option (BTreeMap (Entry Line))
      → Option (State Line)
  insert_into spawned key entry s none = none
  insert_into spawned key entry s (some m) =
      some (schedule spawned (record s { entries = BTreeMap.insert key entry m }))

  unfoldable pub set :
      Option Text → Text → LyricsResponse Line → ℕ → State Line → Option (State Line)
  set spawned key r now s =
      insert_into spawned key (record { response = clone_response r; expires_at = now + ttl }) s
        (make_room now s.entries)

  unfoldable pub clean_expired : ℕ → State Line → ℕ × State Line
  clean_expired now s =
      let kept = BTreeMap.retain (λ _ e. leb now e.expires_at) s.entries in
      (length s.entries - length kept, record s { entries = kept })

  unfoldable pub clear : Option Text → State Line → ℕ × State Line
  clear spawned s = (length s.entries, schedule spawned (record s { entries = [] }))

  unfoldable pub drop_memory : State Line → ℕ × State Line
  drop_memory s = (length s.entries, record s { entries = [] })

  abbrev pub insert_missing :
      Text → Entry Line → BTreeMap (Entry Line) → Option (Entry Line) → BTreeMap (Entry Line)
  insert_missing key e m none = BTreeMap.insert key e m
  insert_missing key e m (some _) = m

  -- `entry(key).or_insert_with`.
  abbrev pub insert_new : Text → Entry Line → BTreeMap (Entry Line) → BTreeMap (Entry Line)
  insert_new key e m = insert_missing key e m (BTreeMap.get key m)

  abbrev pub restore_live :
      ℕ → Text → LyricsResponse Line → Option ℕ → BTreeMap (Entry Line) → BTreeMap (Entry Line)
  restore_live now key r none m = m
  restore_live now key r (some expires) m =
      if ltb now expires
      then insert_new key (record { response = clone_response r; expires_at = expires }) m
      else m

  abbrev pub restore_response :
      ℕ
      → ℕ
      → Text
      → ℤ
      → Option (LyricsResponse Line)
      → BTreeMap (Entry Line)
      → BTreeMap (Entry Line)
  restore_response version now key seconds none m = m
  restore_response version now key seconds (some r) m =
      if ltb version snapshot_version && (r.provider =ₜ codes "Apple Music")
      then m
      else restore_live now key r (expiry_of seconds) m

  -- The body of the loop of `set_persistence_path`.
  unfoldable pub restore_entry :
      ℕ → ℕ → Text → PersistedEntry Line → BTreeMap (Entry Line) → BTreeMap (Entry Line)
  restore_entry version now key p m = restore_response version now key p.seconds p.persisted m

  unfoldable pub restore :
      ℕ → ℕ → BTreeMap (PersistedEntry Line) → BTreeMap (Entry Line) → BTreeMap (Entry Line)
  restore version now [] m = m
  restore version now ((key, p) ∷ stored) m =
      let rest = restore version now stored (restore_entry version now key p m) in
      if leb max_entries (length m) then m else rest

  -- What is still to be written is scheduled again, for the new path.
  abbrev pub schedule_pending :
      Option (Text × BTreeMap (Entry Line)) → Option Text → State Line → State Line
  schedule_pending none spawned s = s
  schedule_pending (some _) spawned s = schedule spawned s

  unfoldable pub set_persistence_path :
      Option Text → Text → Snapshot Line → ℕ → State Line → State Line
  set_persistence_path spawned path loaded now s =
      let known = leb 1 loaded.version && leb loaded.version snapshot_version in
      let restored = restore loaded.version now loaded.stored s.entries in
      let s' : State Line = record s {
        path = some path;
        entries = if known then restored else s.entries;
      } in
      let rescheduled = schedule_pending s'.pending spawned s' in
      if is_empty path || (path =ₜ codes ".") then s else rescheduled

  -- The snapshot that `write_snapshot` serializes; the seconds round down.
  unfoldable pub snapshot_entries : BTreeMap (Entry Line) → BTreeMap (PersistedEntry Line)
  snapshot_entries [] = []
  snapshot_entries ((key, e) ∷ m) =
      (key, record { persisted = some e.response; seconds = pos (e.expires_at / second) })
      ∷ snapshot_entries m

  abbrev pub snapshot_of : BTreeMap (Entry Line) → Snapshot Line
  snapshot_of m = record { version = snapshot_version; stored = snapshot_entries m }
