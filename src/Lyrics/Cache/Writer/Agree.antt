-- ===== src/Lyrics/Cache/Writer/Agree.antt =====
-- rust_backend/crates/providers/src/lyrics/cache.rs: the state of the cache beside the writer.
use spoti_flac_mobile.Lyrics.Cache.Writer.{
  idle, waiting, storing, fresh, call, write, flush_call, flush_return, turn_of, to_file, asked_by,
  is_owed,
}
use spoti_flac_mobile.Lyrics.Cache.Writer.{
  Pending, Phase, called, latest, World, started, storing, writer_turn, IsSettled, turn_of,
  flush_start, flush_end, Reach, call, write, flush_call, flush_return,
}
use spoti_flac_mobile.Prelude.Text.{◌=ₜ◌}
use mathlib.Core.Option.{some_inj}
use spoti_flac_mobile.Prelude.{
  inl, inr, [], some, none, true, false, Option, Bool, ◌≡◌, ◌⊎◌, refl, arith, subst, if_cases, ap,
  ◌∙◌, ◌||◌, if◌then◌else◌, sym, Bool-cases,
}
use spoti_flac_mobile.BTreeMap.{BTreeMap, insert}
use spoti_flac_mobile.Lyrics.Cache.{
  set, Text, State, Entry, start_writer, schedule_at, schedule, clean_expired, schedule_pending,
  insert_into, clear, drop_memory, set_persistence_path, make_room, is_empty, ◌=ₜ◌, codes,
}
use spoti_flac_mobile.Lyrics.Cache.Bounded.{
  Op, apply, set_op, clean_op, clear_op, drop_op, path_op, schedule_entries,
}

module _ {Line : Type 0} where
  abbrev pub IsDue : State Line → Option (Pending Line) → Type 0
  IsDue s last = (p : Pending Line) × (s.pending ≡ some p) × (last ≡ some p)

  abbrev pub Agrees :
      Phase Line → State Line → Option (Pending Line) → Option (Pending Line) → Type 0
  Agrees idle s last written = (s.writing ≡ false) × IsSettled s last written
  Agrees waiting s last written = (s.writing ≡ true) × IsDue s last
  Agrees (storing p) s last written =
      (s.writing ≡ true) × (((s.pending ≡ none) × (last ≡ some p)) ⊎ IsDue s last)

  abbrev pub is_some : Option (Pending Line) → Bool
  is_some none = false
  is_some (some p) = true

  abbrev pub IsConsistent : World Line → Type 0
  IsConsistent w = (w.owed ≡ is_some w.state.pending) × Agrees w.phase w.state w.last w.written

  pub turn_of-IsConsistent :
      (failure : Option Text) (phase : Phase Line) (w : World Line)
      → w.owed ≡ is_some w.state.pending
      → Agrees phase w.state w.last w.written
      → IsConsistent (turn_of failure phase (record w { phase = phase }))
  turn_of-IsConsistent failure idle w o h = (o, h)
  turn_of-IsConsistent failure waiting w o (writing, (p, pending, last)) =
      rw pending (refl, (writing, inl (refl, last)))
  turn_of-IsConsistent none (storing p) w o (writing, inl (taken, last)) =
      rw taken (rw taken at o, (refl, inl last))
  turn_of-IsConsistent (some e) (storing p) w o (writing, inl (taken, last)) =
      rw taken (rw taken at o, (refl, inr (e, refl)))
  turn_of-IsConsistent failure (storing p) w o (writing, inr (q, pending, last)) =
      rw pending (rw pending at o, (writing, (q, refl, last)))

  -- What a call that asks for a snapshot does to what the writer looks at.
  abbrev Schedules : Pending Line → State Line → State Line → Type 0
  Schedules p s s' =
      (s'.pending ≡ some p)
      × (((s'.writing ≡ true) × (s'.error ≡ s.error))
          ⊎ ((s.writing ≡ false) × (s'.writing ≡ false) × ((e : Text) × (s'.error ≡ some e))))

  -- And a call that asks for none does nothing to it.
  abbrev Touches : Option (Pending Line) → State Line → State Line → Type 0
  Touches none s s' = (s'.pending ≡ s.pending) × (s'.writing ≡ s.writing) × (s'.error ≡ s.error)
  Touches (some p) s s' = Schedules p s s'

  start_writer-Schedules :
      (spawned : Option Text) (p : Pending Line) (s : State Line)
      → s.writing ≡ false
      → s.pending ≡ some p
      → Schedules p s (start_writer spawned s)
  start_writer-Schedules none p s w h = (h, inl (refl, refl))
  start_writer-Schedules (some e) p s w h = (h, inr (w, refl, (e, refl)))

  schedule_at-Touches :
      (path spawned : Option Text) (s : State Line)
      → Touches (to_file path s.entries) s (schedule_at path spawned s)
  schedule_at-Touches none spawned s = (refl, refl, refl)
  schedule_at-Touches (some path) spawned s =
      let p : Pending Line = (path, s.entries) in
      let s' : State Line = record s { pending = some p } in
      if_cases (Schedules p s) s.writing s' _ (λ busy. (refl, inl (busy, refl)))
        (λ free. start_writer-Schedules spawned p s' free refl)

  schedule-Touches_now :
      (spawned : Option Text) (s : State Line)
      → Touches (to_file s.path s.entries) s (schedule spawned s)
  unfolding schedule
  schedule-Touches_now spawned s = schedule_at-Touches s.path spawned s

  -- To schedule leaves the entries, so the snapshot that is asked for is that of the new state.
  schedule-Touches :
      (spawned : Option Text) (s : State Line)
      → Touches (to_file s.path (schedule spawned s).entries) s (schedule spawned s)
  schedule-Touches spawned s =
      subst (λ m. Touches (to_file s.path m) s (schedule spawned s))
        (sym (schedule_entries spawned s)) (schedule-Touches_now spawned s)

  -- Another path or other entries before a call do not matter.
  Touches-from :
      (asked : Option (Pending Line)) (path : Option Text) (entries : BTreeMap (Entry Line))
      (s t : State Line)
      → Touches asked (record s { path = path; entries = entries }) t
      → Touches asked s t
  Touches-from none path entries s t h = h
  Touches-from (some p) path entries s t h = h

  insert_into-Touches :
      (spawned : Option Text) (key : Text) (e : Entry Line) (s s' : State Line)
      (m : Option (BTreeMap (Entry Line)))
      → insert_into spawned key e s m ≡ some s'
      → Touches (to_file s.path s'.entries) s s'
  insert_into-Touches spawned key e s s' none h = absurd (ground arith)
  insert_into-Touches spawned key e s s' (some m) h =
      subst (λ t. Touches (to_file s.path t.entries) s t) (some_inj.0 h)
        (Touches-from _ s.path (insert key e m) s _
          (schedule-Touches spawned (record s { entries = insert key e m })))

  schedule_pending-Touches :
      (pending : Option (Pending Line)) (spawned : Option Text) (path : Text)
      (entries : BTreeMap (Entry Line)) (s : State Line)
      → let s' : State Line = record s { path = some path; entries = entries } in
        let r = schedule_pending pending spawned s' in
        Touches (if is_some pending then some (path, r.entries) else none) s' r
  schedule_pending-Touches none spawned path entries s = (refl, refl, refl)
  schedule_pending-Touches (some p) spawned path entries s =
      schedule-Touches spawned (record s { path = some path; entries = entries })

  apply-Touches :
      (op : Op Line) (s s' : State Line)
      → apply op s ≡ some s'
      → Touches (asked_by op (is_some s.pending) s.path s'.entries) s s'
  unfolding apply set clean_expired clear drop_memory set_persistence_path
  apply-Touches (set_op spawned key r now) s s' h =
      insert_into-Touches spawned key _ s s' (make_room now s.entries) h
  apply-Touches (clean_op now) s s' h = subst (Touches none s) (some_inj.0 h) (refl, refl, refl)
  apply-Touches (clear_op spawned) s s' h =
      subst (λ t. Touches (to_file s.path t.entries) s t) (some_inj.0 h)
        (Touches-from _ s.path [] s _ (schedule-Touches spawned (record s { entries = [] })))
  apply-Touches drop_op s s' h = subst (Touches none s) (some_inj.0 h) (refl, refl, refl)
  apply-Touches (path_op spawned path loaded now) s s' h =
      let asks : State Line → Option (Pending Line) =
        λ t. if is_some s.pending then some (path, t.entries) else none in
      subst (λ t. Touches (if is_empty path || (path =ₜ codes ".") then none else asks t) s t)
        (some_inj.0 h)
        (elim (Bool-cases (is_empty path || (path =ₜ codes "."))) [
          | inl nowhere ↦ rw nowhere (refl, refl, refl)
          | inr somewhere ↦ rw somewhere (
              Touches-from _ (some path) _ s _
                (schedule_pending-Touches s.pending spawned path _ s))
        ])

  owed_after :
      (asked : Option (Pending Line)) (owed : Bool) (s s' : State Line)
      → owed ≡ is_some s.pending
      → Touches asked s s'
      → is_owed asked owed ≡ is_some s'.pending
  owed_after none owed s s' o (p, _, _) = o ∙ ap is_some (sym p)
  owed_after (some q) owed s s' o (p, _) = ap is_some (sym p)

  -- A thread that runs goes on after a call that asks for a snapshot.
  running-IsDue :
      (p : Pending Line) (s s' : State Line)
      → s.writing ≡ true
      → Schedules p s s'
      → (s'.writing ≡ true) × IsDue s' (some p)
  running-IsDue p s s' w (pending, inl (w', e)) = (w', (p, pending, refl))
  running-IsDue p s s' w (pending, inr (free, w', e)) = absurd (cc)

  called-Agrees :
      (asked : Option (Pending Line)) (phase : Phase Line) (s s' : State Line)
      (last written : Option (Pending Line))
      → Agrees phase s last written
      → Touches asked s s'
      → Agrees (started s'.writing phase) s' (latest asked last) written
  called-Agrees none idle s s' last written (w, settled) (p, v, e) =
      let idle_now : s'.writing ≡ false = v ∙ w in
      rw idle_now (refl, elim settled [ inl l ↦ inl l | inr (m, told) ↦ inr (m, e ∙ told) ])
  called-Agrees (some q) idle s s' last written h (pending, inl (w, e)) =
      rw w (refl, (q, pending, refl))
  called-Agrees (some q) idle s s' last written h (pending, inr (_, w, e)) = rw w (refl, inr e)
  called-Agrees none waiting s s' last written (w, (q, due, l)) (p, v, e) = (v ∙ w, (q, p ∙ due, l))
  called-Agrees (some q) waiting s s' last written (w, due) scheduled =
      running-IsDue q s s' w scheduled
  called-Agrees none (storing q) s s' last written (w, inl (taken, l)) (p, v, e) =
      (v ∙ w, inl (p ∙ taken, l))
  called-Agrees none (storing q) s s' last written (w, inr (r, due, l)) (p, v, e) =
      (v ∙ w, inr (r, p ∙ due, l))
  called-Agrees (some r) (storing q) s s' last written (w, owing) scheduled =
      let (w', due) = running-IsDue r s s' w scheduled in (w', inr due)

  Agrees-flush :
      (b : Bool) (phase : Phase Line) (s : State Line) (last written : Option (Pending Line))
      → Agrees phase s last written
      → Agrees phase (record s { flush = b }) last written
  Agrees-flush b idle s last written h = h
  Agrees-flush b waiting s last written h = h
  Agrees-flush b (storing p) s last written h = h

  -- The state and the thread agree in every world.
  pub Reach-IsConsistent : {w : World Line} → Reach w → IsConsistent w
  unfolding called writer_turn flush_start flush_end
  Reach-IsConsistent fresh = (refl, (refl, inl refl))
  Reach-IsConsistent (call {w} {s} op r h) =
      let (owed, agrees) = Reach-IsConsistent r in
      let asked = asked_by op w.owed w.state.path s.entries in
      let touched =
        subst (λ b. Touches (asked_by op b w.state.path s.entries) w.state s) (sym owed)
          (apply-Touches op w.state s h) in
      (
        owed_after asked w.owed w.state s owed touched,
        called-Agrees asked w.phase w.state s w.last w.written agrees touched,
      )
  Reach-IsConsistent (write {w} failure r) =
      let (owed, agrees) = Reach-IsConsistent r in
      turn_of-IsConsistent failure w.phase w owed agrees
  Reach-IsConsistent (flush_call {w} r) =
      let (owed, agrees) = Reach-IsConsistent r in
      (owed, Agrees-flush true w.phase w.state w.last w.written agrees)
  Reach-IsConsistent (flush_return {w} r) =
      let (owed, agrees) = Reach-IsConsistent r in
      (owed, Agrees-flush false w.phase w.state w.last w.written agrees)
