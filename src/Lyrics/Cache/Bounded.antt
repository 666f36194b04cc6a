-- ===== src/Lyrics/Cache/Bounded.antt =====
-- rust_backend/crates/providers/src/lyrics/cache.rs: the size of the cache, and what is found after
-- lyrics were set.
use spoti_flac_mobile.Prelude.Text.{◌=ₜ◌}
use spoti_flac_mobile.Prelude.{
  inl, inr, Bool-cases, [], ◌∷◌, Option, ℕ, length, ◌≤◌, ◌≡◌, some, leb, ◌+◌, inl, inr, arith,
  subst, ◌<◌, refl, if_cases, sym, ap, ltb, none, ◌&&◌, List, ◌∙◌, if◌then◌else◌, Bool, ◌||◌,
}
use spoti_flac_mobile.BTreeMap
use spoti_flac_mobile.BTreeMap.{BTreeMap, get-insert}
use spoti_flac_mobile.BTreeMap.Order.{
  IsSorted, insert-IsSorted, retain-IsSorted, length-retain-le, length-insert-le,
}
use spoti_flac_mobile.BTreeMap.Clean.{Cleans, clean-Cleans, Cleans-nothing}
use spoti_flac_mobile.Lyrics.Cache.{
  set, Entry, State, make_room, schedule, Text, LyricsResponse, clone_response, max_entries, ttl,
  schedule_at, ℤ, restore, insert_missing, restore_live, restore_response, restore_entry,
  PersistedEntry, snapshot_version, ◌=ₜ◌, codes, expiry_of, Snapshot, clean_expired,
  schedule_pending, set_persistence_path, clear, drop_memory, is_empty,
}

-- The calls that change the entries; `spawned` is the error of a thread that does not start.
pub data Op (Line : Type 0) : Type 0 where
  set_op : (spawned : Option Text) → Text → LyricsResponse Line → ℕ → Op Line
  clean_op : ℕ → Op Line
  clear_op : (spawned : Option Text) → Op Line
  drop_op : Op Line
  path_op : (spawned : Option Text) → Text → Snapshot Line → ℕ → Op Line

module _ {Line : Type 0} where
  abbrev pub expiry : Entry Line → ℕ
  expiry e = e.expires_at

  abbrev pub IsBounded : State Line → Type 0
  IsBounded s = IsSorted s.entries × (length s.entries ≤ 500)

  make_room-Cleans :
      (now : ℕ) (m : BTreeMap (Entry Line))
      → IsSorted m
      → (m' : BTreeMap (Entry Line)) × (make_room now m ≡ some m') × Cleans expiry 499 now m m'
  unfolding make_room
  make_room-Cleans now m s =
      let (m', ends, cleans) = clean-Cleans expiry 499 now m s in
      elim (Bool-cases (leb max_entries (length m))) [
        | inl full ↦ (m', rw full ends, cleans)
        | inr small ↦ (m, rw small refl, Cleans-nothing expiry 499 now m s (ground arith))
      ]

  schedule_at_entries :
      (path spawned : Option Text) (s : State Line)
      → (schedule_at path spawned s).entries ≡ s.entries
  schedule_at_entries none spawned s = refl
  schedule_at_entries (some path) none s =
      if_cases (λ (s' : State Line). s'.entries ≡ s.entries) s.writing _ _ (λ _. refl) (λ _. refl)
  schedule_at_entries (some path) (some e) s =
      if_cases (λ (s' : State Line). s'.entries ≡ s.entries) s.writing _ _ (λ _. refl) (λ _. refl)

  -- To schedule a snapshot leaves the cache.
  pub schedule_entries :
      (spawned : Option Text) (s : State Line) → (schedule spawned s).entries ≡ s.entries
  unfolding schedule
  schedule_entries spawned s = schedule_at_entries s.path spawned s

  pub set-Cleans :
      (spawned : Option Text) (key : Text) (r : LyricsResponse Line) (now : ℕ) (s : State Line)
      → IsSorted s.entries
      → (m : BTreeMap (Entry Line)) × (s' : State Line) × (set spawned key r now s ≡ some s')
        × (s'.entries
            ≡ BTreeMap.insert key
                (record { response = clone_response r; expires_at = now + ttl })
                m)
        × Cleans expiry 499 now s.entries m
  unfolding set
  set-Cleans spawned key r now s h =
      let (m, room, cleans) = make_room-Cleans now s.entries h in
      let e : Entry Line = record { response = clone_response r; expires_at = now + ttl } in
      let s' : State Line = record s { entries = BTreeMap.insert key e m } in
      (m, schedule spawned s', rw room refl, schedule_entries spawned s', cleans)

  set-IsBounded :
      (spawned : Option Text) (key : Text) (r : LyricsResponse Line) (now : ℕ) (s : State Line)
      → IsBounded s
      → (s' : State Line) × (set spawned key r now s ≡ some s') × IsBounded s'
  set-IsBounded spawned key r now s h =
      let (m, s', ends, same, cleans) = set-Cleans spawned key r now s h.0 in
      let e : Entry Line = record { response = clone_response r; expires_at = now + ttl } in
      (
        s',
        ends,
        (
          subst IsSorted (sym same) (insert-IsSorted key e m cleans.0),
          omega (arith, ap length same, length-insert-le key e m, cleans.1),
        ),
      )

  -- A map and its size within the limit.
  abbrev Fits : BTreeMap (Entry Line) → Type 0
  Fits m = IsSorted m × (length m ≤ 500)

  insert_missing-Fits :
      (key : Text) (e : Entry Line) (m : BTreeMap (Entry Line)) (found : Option (Entry Line))
      → IsSorted m
      → length m < 500
      → Fits (insert_missing key e m found)
  insert_missing-Fits key e m none s h =
      (insert-IsSorted key e m s, omega (arith, length-insert-le key e m))
  insert_missing-Fits key e m (some w) s h = (s, omega arith)

  restore_live-Fits :
      (now : ℕ) (key : Text) (r : LyricsResponse Line) (expires : Option ℕ)
      (m : BTreeMap (Entry Line))
      → IsSorted m
      → length m < 500
      → Fits (restore_live now key r expires m)
  restore_live-Fits now key r none m s h = (s, omega arith)
  restore_live-Fits now key r (some t) m s h =
      if_cases Fits (ltb now t) _ m (λ _. insert_missing-Fits key _ m (BTreeMap.get key m) s h)
        (λ _. (s, omega arith))

  restore_response-Fits :
      (version now : ℕ) (key : Text) (seconds : ℤ) (r : Option (LyricsResponse Line))
      (m : BTreeMap (Entry Line))
      → IsSorted m
      → length m < 500
      → Fits (restore_response version now key seconds r m)
  restore_response-Fits version now key seconds none m s h = (s, omega arith)
  restore_response-Fits version now key seconds (some r) m s h =
      if_cases Fits (ltb version snapshot_version && (r.provider =ₜ codes "Apple Music")) m _
        (λ _. (s, omega arith)) (λ _. restore_live-Fits now key r (expiry_of seconds) m s h)

  pub restore-Fits :
      (version now : ℕ) (stored : BTreeMap (PersistedEntry Line)) (m : BTreeMap (Entry Line))
      → Fits m
      → Fits (restore version now stored m)
  unfolding restore restore_entry
  restore-Fits version now [] m h = h
  restore-Fits version now ((key, p) ∷ stored) m h =
      elim (Bool-cases (leb max_entries (length m))) [
        | inl full ↦ rw full h
        | inr room ↦ rw room (
            restore-Fits version now stored (restore_entry version now key p m)
              (restore_response-Fits version now key p.seconds p.persisted m h.0 (ground arith)))
      ]

  unfoldable pub apply : Op Line → State Line → Option (State Line)
  apply (set_op spawned key r now) s = set spawned key r now s
  apply (clean_op now) s = some ((clean_expired now s).1)
  apply (clear_op spawned) s = some ((clear spawned s).1)
  apply drop_op s = some ((drop_memory s).1)
  apply (path_op spawned path loaded now) s = some (set_persistence_path spawned path loaded now s)

  abbrev pub and_then :
      (State Line → Option (State Line)) → Option (State Line) → Option (State Line)
  and_then f none = none
  and_then f (some s) = f s

  unfoldable pub run : List (Op Line) → State Line → Option (State Line)
  run [] s = some s
  run (op ∷ ops) s = and_then (run ops) (apply op s)

  pub schedule_pending_entries :
      (pending : Option (Text × BTreeMap (Entry Line))) (spawned : Option Text) (s : State Line)
      → (schedule_pending pending spawned s).entries ≡ s.entries
  schedule_pending_entries none spawned s = refl
  schedule_pending_entries (some p) spawned s = schedule_entries spawned s

  path-IsBounded :
      (spawned : Option Text) (path : Text) (loaded : Snapshot Line) (now : ℕ) (s : State Line)
      → IsBounded s
      → IsBounded (set_persistence_path spawned path loaded now s)
  unfolding set_persistence_path
  path-IsBounded spawned path loaded now s h =
      let known = leb 1 loaded.version && leb loaded.version snapshot_version in
      let restored = restore loaded.version now loaded.stored s.entries in
      let fits : Fits (if known then restored else s.entries) =
        if_cases Fits known restored s.entries
          (λ _. restore-Fits loaded.version now loaded.stored s.entries h) (λ _. h) in
      if_cases (λ (s' : State Line). IsBounded s') (is_empty path || (path =ₜ codes ".")) s _
        (λ _. h) (λ _. subst Fits (sym (schedule_pending_entries s.pending spawned _)) fits)

  apply-IsBounded :
      (op : Op Line) (s : State Line)
      → IsBounded s
      → (s' : State Line) × (apply op s ≡ some s') × IsBounded s'
  unfolding apply clean_expired clear drop_memory
  apply-IsBounded (set_op spawned key r now) s h = set-IsBounded spawned key r now s h
  apply-IsBounded (clean_op now) s h =
      let alive : Text → Entry Line → Bool = λ _ e. leb now e.expires_at in
      (
        _,
        refl,
        (retain-IsSorted alive s.entries h.0, omega (arith, length-retain-le alive s.entries, h.1)),
      )
  apply-IsBounded (clear_op spawned) s h =
      let s' : State Line = record s { entries = [] } in
      (schedule spawned s', refl, subst Fits (sym (schedule_entries spawned s')) (tt, omega arith))
  apply-IsBounded drop_op s h = (record s { entries = [] }, refl, (tt, omega arith))
  apply-IsBounded (path_op spawned path loaded now) s h =
      (_, refl, path-IsBounded spawned path loaded now s h)

  -- Whatever calls are made, none panics, and at most 500 lyrics are kept, in a map in order, those
  -- that a file of any size restores included.
  pub run-IsBounded :
      (ops : List (Op Line)) (s : State Line)
      → IsBounded s
      → (s' : State Line) × (run ops s ≡ some s') × IsBounded s'
  unfolding run
  run-IsBounded [] s h = (s, refl, h)
  run-IsBounded (op ∷ ops) s h =
      let (s1, first, bounded) = apply-IsBounded op s h in
      let (s2, rest, still) = run-IsBounded ops s1 bounded in
      (s2, ap (and_then (run ops)) first ∙ rest, still)
