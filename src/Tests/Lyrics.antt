-- ===== src/Tests/Lyrics.antt =====
-- A test and witnesses for the cache of the lyrics.
use spoti_flac_mobile.Lyrics.Cache.Writer.Flush.{flush_end-written, writer_turn-ends}
use spoti_flac_mobile.Lyrics.Cache.Found.{IsFull, get-set}
use spoti_flac_mobile.Prelude.Text.{text_cmp, is_empty}
use spoti_flac_mobile.Lyrics.Cache.Found.{IsFull}
use spoti_flac_mobile.Lyrics.Cache.Restored.{restored, get-restored}
use spoti_flac_mobile.Prelude.Text.{codes, text_cmp, ◌=ₜ◌}
use spoti_flac_mobile.Prelude.{
  arith, [], ◌∷◌, some, none, ℕ, List, false, ◌≡◌, Option, if◌then◌else◌, refl, leb, ◌+◌, ◌⊎◌, ◌||◌,
  In,
}
use spoti_flac_mobile.BTreeMap
use spoti_flac_mobile.BTreeMap.{BTreeMap}
use spoti_flac_mobile.Lyrics.Cache
use spoti_flac_mobile.Lyrics.Cache.{
  ttl, schedule, make_room, set_persistence_path, set, restore, restore_entry, clone_response,
  LyricsResponse, Entry, State,
}
use spoti_flac_mobile.Lyrics.Cache.Bounded
use spoti_flac_mobile.Lyrics.Cache.Bounded.{Op, set_op, path_op, clear_op, apply}
use spoti_flac_mobile.Lyrics.Cache.Writer.{
  World, Reach, fresh, call, write, called, writer_turn, idle, flush_end, IsSettled,
}

abbrev lyrics : LyricsResponse ℕ
lyrics = record {
  lines = some [];
  sync_type = codes "LINE_SYNCED";
  instrumental = false;
  plain_lyrics = codes "la";
  provider = codes "LRCLIB";
  source = [];
}

abbrev held : BTreeMap (Entry ℕ)
held = (codes "a", record { response = lyrics; expires_at = 90000000000 }) ∷ []

abbrev empty : Cache.Snapshot ℕ
empty = record { version = 0; stored = [] }

abbrev ops : List (Op ℕ)
ops = path_op none (codes "f") empty 0 ∷ set_op none (codes "k") lyrics 5 ∷ clear_op none ∷ []

abbrev before : State ℕ
before = record Cache.default { entries = held }

before-IsBounded : Bounded.IsBounded before
before-IsBounded = ((tt, tt), omega arith)

run-IsBounded_example : (s : State ℕ) × (Bounded.run ops before ≡ some s) × Bounded.IsBounded s
run-IsBounded_example = Bounded.run-IsBounded ops before before-IsBounded

get-set_example :
    (s : State ℕ) × (set none (codes "k") lyrics 5 before ≡ some s)
    × ((Cache.get (codes "k") 6 s ≡ (
          if codes "k" =ₜ codes "k"
          then (if leb 6 (5 + ttl) then some (clone_response lyrics) else none)
          else Cache.get (codes "k") 6 before))
        ⊎ ((Cache.get (codes "k") 6 s ≡ none) × IsFull (codes "k") 6 s.entries))
get-set_example =
    get-set none (codes "k") (codes "k") lyrics 5 6 before before-IsBounded.0 (omega arith)

f-IsPath : (is_empty (codes "f") || (codes "f" =ₜ codes ".")) ≡ false
unfolding text_cmp
f-IsPath = refl

get-restored_example :
    Cache.get
      (codes "a")
      80000000000
      (set_persistence_path none (codes "f") (Cache.snapshot_of held) 7 Cache.default)
    ≡ restored 7 80000000000 (BTreeMap.get (codes "a") held)
get-restored_example =
    get-restored none (codes "f") (codes "a") 7 80000000000 held (tt, tt) (omega arith) f-IsPath

-- A path is set, lyrics are set, and the thread writes them.
abbrev or_keep : State ℕ → Option (State ℕ) → State ℕ
or_keep s none = s
or_keep s (some s') = s'

abbrev start_world : World ℕ
start_world = record {
  state = Cache.default;
  phase = idle;
  last = none;
  owed = false;
  written = none;
}

abbrev path_set : World ℕ
path_set =
    called (path_op none (codes "f") empty 0)
      (or_keep start_world.state (apply (path_op none (codes "f") empty 0) start_world.state))
      start_world

abbrev lyrics_set : World ℕ
lyrics_set =
    called (set_op none (codes "k") lyrics 5)
      (or_keep path_set.state (apply (set_op none (codes "k") lyrics 5) path_set.state)) path_set

abbrev stored_world : World ℕ
stored_world = writer_turn none (writer_turn none lyrics_set)

lyrics_set-Reach : Reach lyrics_set
unfolding apply set set_persistence_path schedule make_room restore called text_cmp
lyrics_set-Reach =
    call (set_op none (codes "k") lyrics 5) (call (path_op none (codes "f") empty 0) fresh refl)
      refl

stored_world-Reach : Reach stored_world
stored_world-Reach = write none (write none lyrics_set-Reach)

stored_world-IsQuiet : stored_world.state.writing ≡ false
unfolding apply set set_persistence_path schedule make_room restore called writer_turn text_cmp
stored_world-IsQuiet = refl

stored_world_told : (flush_end stored_world.state).0 ≡ none
unfolding apply set set_persistence_path schedule make_room restore called writer_turn text_cmp
    flush_end
stored_world_told = refl

flush_end-written_example : stored_world.last ≡ stored_world.written
flush_end-written_example =
    flush_end-written stored_world-Reach stored_world-IsQuiet stored_world_told

writer_turn-ends_example :
    (w' : World ℕ) × (w'
      ≡ writer_turn none (writer_turn (some (codes "full")) (writer_turn none lyrics_set)))
    × (w'.state.writing ≡ false)
    × IsSettled w'.state w'.last w'.written
    × (((lyrics_set.state.writing ≡ false) × (w'.state ≡ lyrics_set.state))
        ⊎ In (flush_end w'.state).0 (none ∷ some (codes "full") ∷ none ∷ []))
writer_turn-ends_example = writer_turn-ends none (some (codes "full")) none lyrics_set-Reach
