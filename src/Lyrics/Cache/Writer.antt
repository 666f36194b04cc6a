-- ===== src/Lyrics/Cache/Writer.antt =====
-- rust_backend/crates/providers/src/lyrics/cache.rs: the thread that writes the snapshots, beside the
-- calls of the cache. The waits of the thread end at any time; the file is what was written last.
pub mod Agree
pub mod Flush
use spoti_flac_mobile.Prelude.Text.{◌=ₜ◌}
use mathlib.Core.Option.{some_inj}
use spoti_flac_mobile.Prelude.{
  inl, inr, [], some, none, true, false, Option, Bool, ◌≡◌, ◌⊎◌, refl, arith, subst, if_cases, ap,
  ◌∙◌, if◌then◌else◌, ◌||◌, not,
}
use spoti_flac_mobile.BTreeMap.{BTreeMap, insert}
use spoti_flac_mobile.Lyrics.Cache.{
  set, Text, State, default, Entry, start_writer, schedule_at, schedule, clean_expired,
  schedule_pending, insert_into, clear, drop_memory, set_persistence_path, make_room, is_empty,
  ◌=ₜ◌, codes,
}
use spoti_flac_mobile.Lyrics.Cache.Bounded.{Op, apply, set_op, clean_op, clear_op, drop_op, path_op}

abbrev pub Pending : Type 0 → Type 0
Pending Line = Text × BTreeMap (Entry Line)

-- Where `persist` is: at its wait, at the write of what it took, or there is no such thread.
pub data Phase (Line : Type 0) : Type 0 where
  idle : Phase Line
  waiting : Phase Line
  storing : Pending Line → Phase Line

-- `last` and `owed` are not of the code: the snapshot that is to be written, by the calls alone, and
-- whether the thread is still to take it.
pub record World (Line : Type 0) : Type 0 where
  pub state : State Line
  pub phase : Phase Line
  pub last : Option (Pending Line)
  pub owed : Bool
  pub written : Option (Pending Line)

module _ {Line : Type 0} where
  -- `state.pending.take()` after the wait.
  abbrev pub take_pending : Option (Pending Line) → State Line → State Line × Phase Line
  take_pending none s = (record s { writing = false }, idle)
  take_pending (some p) s = (record s { pending = none }, storing p)

  -- The end of the loop of `persist`: another round if something came meanwhile.
  abbrev pub next_round : Option (Pending Line) → State Line → State Line × Phase Line
  next_round none s = (record s { writing = false }, idle)
  next_round (some p) s = (s, waiting)

  -- `state.error = result.err()`.
  abbrev pub stored : Option Text → State Line → State Line × Phase Line
  stored failure s = next_round s.pending (record s { error = failure })

  abbrev pub file_after : Option Text → Pending Line → Option (Pending Line) → Option (Pending Line)
  file_after none p file = some p
  file_after (some failure) p file = file

  abbrev pub turn_of : Option Text → Phase Line → World Line → World Line
  turn_of failure idle w = w
  turn_of failure waiting w =
      let (s, phase) = take_pending w.state.pending w.state in
      record w { state = s; phase = phase; owed = false }
  turn_of failure (storing p) w =
      let (s, phase) = stored failure w.state in
      record w { state = s; phase = phase; written = file_after failure p w.written }

  -- One lock of `persist`; `failure` is the error of a write.
  unfoldable pub writer_turn : Option Text → World Line → World Line
  writer_turn failure w = turn_of failure w.phase w

  abbrev pub started : Bool → Phase Line → Phase Line
  started writing idle = if writing then waiting else idle
  started writing waiting = waiting
  started writing (storing p) = storing p

  -- The entries of a cache with a path are to be in its file.
  abbrev pub to_file : Option Text → BTreeMap (Entry Line) → Option (Pending Line)
  to_file none entries = none
  to_file (some path) entries = some (path, entries)

  -- What a call asks to be written, from the path before it and the entries that it leaves: setting
  -- lyrics and clearing ask for all entries, and a new path asks for them if a snapshot is owed. What
  -- the code has pending plays no part.
  abbrev pub asked_by : Op Line → Bool → Option Text → BTreeMap (Entry Line) → Option (Pending Line)
  asked_by (set_op spawned key r now) owed path entries = to_file path entries
  asked_by (clean_op now) owed path entries = none
  asked_by (clear_op spawned) owed path entries = to_file path entries
  asked_by drop_op owed path entries = none
  asked_by (path_op spawned new_path loaded now) owed path entries =
      if is_empty new_path || (new_path =ₜ codes ".")
      then none
      else if owed
      then some (new_path, entries)
      else none

  abbrev pub latest : Option (Pending Line) → Option (Pending Line) → Option (Pending Line)
  latest none last = last
  latest (some p) last = some p

  abbrev pub is_owed : Option (Pending Line) → Bool → Bool
  is_owed none owed = owed
  is_owed (some p) owed = true

  -- A call has returned with a state: a thread starts if it is to write.
  unfoldable pub called : Op Line → State Line → World Line → World Line
  called op s w =
      let asked = asked_by op w.owed w.state.path s.entries in
      record w {
        state = s;
        phase = started s.writing w.phase;
        last = latest asked w.last;
        owed = is_owed asked w.owed;
      }

  -- `flush` returns when nobody writes; its answer is the error.
  unfoldable pub flush_end : State Line → Option Text × State Line
  flush_end s = (s.error, record s { flush = false })

  unfoldable pub flush_start : State Line → State Line
  flush_start s = record s { flush = true }

  pub data Reach : World Line → Type 0 where
    fresh :
        Reach (record { state = default; phase = idle; last = none; owed = false; written = none })
    call :
        {w : World Line} {s : State Line} (op : Op Line)
        → Reach w
        → apply op w.state ≡ some s
        → Reach (called op s w)
    write : {w : World Line} (failure : Option Text) → Reach w → Reach (writer_turn failure w)
    flush_call : {w : World Line} → Reach w → Reach (record w { state = flush_start w.state })
    flush_return : {w : World Line} → Reach w → Reach (record w { state = (flush_end w.state).1 })

  -- The file holds what was asked for last, or the error is there to be told.
  abbrev pub IsSettled : State Line → Option (Pending Line) → Option (Pending Line) → Type 0
  IsSettled s last written = (last ≡ written) ⊎ ((e : Text) × (s.error ≡ some e))
