-- ===== src/Lyrics/Cache/Restored.antt =====
-- rust_backend/crates/providers/src/lyrics/cache.rs: what a snapshot that was written restores.
use spoti_flac_mobile.Prelude.Text.{◌=ₜ◌, =ₜ_iff}
use spoti_flac_mobile.Prelude.{
  inl, inr, [], ◌∷◌, some, none, ℕ, Option, ◌≡◌, length, ◌/◌, ◌≤◌, ◌*◌, if◌then◌else◌, ◌+◌, ltb,
  arith, Bool, sym, refl, Bool-cases, if_cases, leb, false, ◌∙◌, subst, true, ap, ◌&&◌, ◌||◌,
}
use spoti_flac_mobile.Prelude.Int.{pos}
use spoti_flac_mobile.BTreeMap
use spoti_flac_mobile.BTreeMap.{BTreeMap, get-insert}
use spoti_flac_mobile.BTreeMap.Order.{IsSorted, get-After, length-insert-le, After}
use spoti_flac_mobile.BTreeMap.Oldest.{live}
use spoti_flac_mobile.Lyrics.Cache.{
  get, max_entries, second, Entry, Text, restore_entry, restore, PersistedEntry, snapshot_version,
  snapshot_entries, insert_missing, ◌=ₜ◌, clone_response, LyricsResponse, restore_live,
  set_persistence_path, is_empty, codes, snapshot_of, default,
}
use spoti_flac_mobile.Lyrics.Cache.Bounded.{expiry}
use spoti_flac_mobile.Lyrics.Cache.Found.{clone_response_twice}

module _ {Line : Type 0} where
  -- An entry as it comes back: a clone, its expiry in whole seconds, if that is still ahead.
  abbrev revived : ℕ → Option (Entry Line) → Option (Entry Line)
  revived now none = none
  revived now (some e) =
      let expires = e.expires_at / second * second in
      if ltb now expires
      then some (record { response = clone_response e.response; expires_at = expires })
      else none

  abbrev or_else : Option (Entry Line) → Option (Entry Line) → Option (Entry Line)
  or_else (some e) o = some e
  or_else none o = o

  abbrev persisted_of : Entry Line → PersistedEntry Line
  persisted_of e = record { persisted = some e.response; seconds = pos (e.expires_at / second) }

  get-insert_missing :
      (key j : Text) (e : Entry Line) (m : BTreeMap (Entry Line)) (found : Option (Entry Line))
      → BTreeMap.get key m ≡ found
      → BTreeMap.get j (insert_missing key e m found)
        ≡ or_else (BTreeMap.get j m) (if j =ₜ key then some e else none)
  get-insert_missing key j e m none h = ground (arith, get-insert key j e m, =ₜ_iff j key)
  get-insert_missing key j e m (some w) h = ground (arith, =ₜ_iff j key)

  or_else-none : (o : Option (Entry Line)) → or_else o none ≡ o
  or_else-none none = refl
  or_else-none (some e) = refl

  abbrev nothing : Option (Entry Line)
  nothing = none

  if_same : (b : Bool) → (if b then nothing else nothing) ≡ nothing
  if_same true = refl
  if_same false = refl

  length-insert_missing :
      (key : Text) (e : Entry Line) (m : BTreeMap (Entry Line)) (found : Option (Entry Line))
      → length (insert_missing key e m found) ≤ length m + 1
  length-insert_missing key e m none = length-insert-le key e m
  length-insert_missing key e m (some w) = omega arith

  get-restore_live :
      (now x : ℕ) (key j : Text) (r : LyricsResponse Line) (m : BTreeMap (Entry Line))
      → BTreeMap.get j (restore_live now key r (some x) m)
        ≡ or_else (BTreeMap.get j m) (
            if j =ₜ key
            then (if ltb now x
                then some (record { response = clone_response r; expires_at = x })
                else none)
            else none)
  get-restore_live now x key j r m = elim (Bool-cases (ltb now x)) [
    | inl ahead ↦ rw ahead (get-insert_missing key j _ m (BTreeMap.get key m) refl)
    | inr past ↦ rw (past, if_same (j =ₜ key)) (sym (or_else-none (BTreeMap.get j m)))
  ]

  length-restore_live :
      (now x : ℕ) (key : Text) (r : LyricsResponse Line) (m : BTreeMap (Entry Line))
      → length (restore_live now key r (some x) m) ≤ length m + 1
  length-restore_live now x key r m =
      if_cases (λ (m' : BTreeMap (Entry Line)). length m' ≤ length m + 1) (ltb now x) _ m
        (λ _. length-insert_missing key _ m (BTreeMap.get key m)) (λ _. omega arith)

  add_entry :
      (j key : Text) (e : Entry Line) (held found : Option (Entry Line)) (m : BTreeMap (Entry Line))
      (now : ℕ)
      → found ≡ or_else held (if j =ₜ key then revived now (some e) else none)
      → After key m
      → or_else found (revived now (BTreeMap.get j m))
        ≡ or_else held (revived now (if j =ₜ key then some e else BTreeMap.get j m))
  add_entry j key e held found m now h a = elim (Bool-cases (j =ₜ key)) [
    | inl same ↦
        let gone : BTreeMap.get j m ≡ none =
          subst (λ k. BTreeMap.get k m ≡ none) (sym ((=ₜ_iff j key).0 same)) (get-After key m a) in
        rw (same, gone) (or_else-none found ∙ h ∙ rw same refl)
    | inr other ↦
        rw other
          (ap (λ o. or_else o (revived now (BTreeMap.get j m))) (h ∙ rw other (or_else-none held)))
  ]

  get-restore :
      (now : ℕ) (j : Text) (m acc : BTreeMap (Entry Line))
      → IsSorted m
      → length acc + length m ≤ 500
      → BTreeMap.get j (restore snapshot_version now (snapshot_entries m) acc)
        ≡ or_else (BTreeMap.get j acc) (revived now (BTreeMap.get j m))
  unfolding restore restore_entry snapshot_entries BTreeMap.get
  get-restore now j [] acc s h = sym (or_else-none (BTreeMap.get j acc))
  get-restore now j ((key, e) ∷ m) acc s h =
      let x = e.expires_at / second * second in
      let acc' = restore_live now key e.response (some x) acc in
      let rest =
        get-restore now j m acc' s.1
          (omega (arith, length-restore_live now x key e.response acc)) in
      let room : leb max_entries (length acc) ≡ false = ground arith in
      rw room (
        rest
        ∙ add_entry j key e (BTreeMap.get j acc) (BTreeMap.get j acc') m now
            (get-restore_live now x key j e.response acc) s.0)

  -- What is found in a cache that was restored, for an entry that was written.
  abbrev pub restored : ℕ → ℕ → Option (Entry Line) → Option (LyricsResponse Line)
  restored now t none = none
  restored now t (some e) =
      let expires = e.expires_at / second * second in
      if ltb now expires && leb t expires then some (clone_response e.response) else none

  live-revived :
      (now t : ℕ) (o : Option (Entry Line))
      → live expiry (λ e. clone_response e.response) t (revived now o) ≡ restored now t o
  live-revived now t none = refl
  live-revived now t (some e) =
      let x = e.expires_at / second * second in
      elim (Bool-cases (ltb now x)) [
        | inl ahead ↦ rw (ahead, clone_response_twice e.response) refl
        | inr past ↦ rw past refl
      ]

  -- A cache of at most 500 lyrics whose snapshot was written and is restored into a new cache gives
  -- the same lyrics, cloned, until the whole second in which they expire, those that had expired when
  -- the snapshot was read left out.
  pub get-restored :
      (spawned : Option Text) (path j : Text) (now t : ℕ) (m : BTreeMap (Entry Line))
      → IsSorted m
      → length m ≤ 500
      → (is_empty path || (path =ₜ codes ".")) ≡ false
      → get j t (set_persistence_path spawned path (snapshot_of m) now default)
        ≡ restored now t (BTreeMap.get j m)
  unfolding get set_persistence_path BTreeMap.get
  get-restored spawned path j now t m s h p = rw p (
      ap (live expiry (λ e. clone_response e.response) t) (get-restore now j m [] s (omega arith))
      ∙ live-revived now t (BTreeMap.get j m))
