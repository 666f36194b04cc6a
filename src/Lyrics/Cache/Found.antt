-- ===== src/Lyrics/Cache/Found.antt =====
-- rust_backend/crates/providers/src/lyrics/cache.rs: what is found after lyrics were set.
use spoti_flac_mobile.Lyrics.Cache.{ttl}
use spoti_flac_mobile.Prelude.Text.{◌=ₜ◌, =ₜ_iff}
use spoti_flac_mobile.Prelude.{
  [], ◌∷◌, some, none, Option, List, ℕ, ◌≡◌, ◌≤◌, arith, ap, length, ◌⊎◌, if◌then◌else◌, refl,
  Bool-cases, leb, ◌+◌, subst, sym,
}
use spoti_flac_mobile.Prelude.{inl, inr}
use spoti_flac_mobile.BTreeMap
use spoti_flac_mobile.BTreeMap.{BTreeMap, get-insert}
use spoti_flac_mobile.BTreeMap.Order.{IsSorted, insert-IsSorted, length_le-insert}
use spoti_flac_mobile.BTreeMap.Oldest.{All, All-get, pointwise-All, live}
use spoti_flac_mobile.BTreeMap.Clean.{live-Cleans, MadeRoom}
use spoti_flac_mobile.Lyrics.Cache.{
  get, set, clone_response, Entry, Text, LyricsResponse, collapse, State, ◌=ₜ◌, ttl,
}
use spoti_flac_mobile.Lyrics.Cache.Bounded.{expiry, set-Cleans}

module _ {Line : Type 0} where
  collapse_twice : (lines : Option (List Line)) → collapse (collapse lines) ≡ collapse lines
  collapse_twice none = refl
  collapse_twice (some []) = refl
  collapse_twice (some (x ∷ xs)) = refl

  pub clone_response_twice :
      (r : LyricsResponse Line) → clone_response (clone_response r) ≡ clone_response r
  unfolding clone_response
  clone_response_twice r = ap (λ lines. record r { lines = lines }) (collapse_twice r.lines)

  abbrev cloned : Entry Line → LyricsResponse Line
  cloned e = clone_response e.response

  -- Nothing is found because the cache is full of lyrics that live as long, but for the new ones.
  abbrev pub IsFull : Text → ℕ → BTreeMap (Entry Line) → Type 0
  IsFull key t m = (499 ≤ length m) × All (λ j w. (j ≡ key) ⊎ (t ≤ w.expires_at)) m

  IsFull-insert :
      (key : Text) (e : Entry Line) (t : ℕ) (m : BTreeMap (Entry Line))
      → IsSorted m
      → MadeRoom expiry 499 t m
      → IsFull key t (BTreeMap.insert key e m)
  IsFull-insert key e t m s (size, all) = (
    omega (arith, length_le-insert key e m),
    pointwise-All (λ j w. (j ≡ key) ⊎ (t ≤ w.expires_at)) (BTreeMap.insert key e m)
        (insert-IsSorted key e m s)
        (λ j w h. elim (Bool-cases (j =ₜ key)) [
          | inl same ↦ inl ((=ₜ_iff j key).0 same)
          | inr other ↦
              inr
                (All-get (λ _ w. t ≤ w.expires_at) m j w all (ground (arith, get-insert key j e m)))
        ]),
  )

  -- After lyrics were set, at that time or later, their key gives a clone of them for a day, and any
  -- other key gives what it gave before; or else it gives nothing, since the cache was full and every
  -- entry left in it lives at that time too.
  pub get-set :
      (spawned : Option Text) (key j : Text) (r : LyricsResponse Line) (now t : ℕ) (s : State Line)
      → IsSorted s.entries
      → now ≤ t
      → (s' : State Line) × (set spawned key r now s ≡ some s')
        × ((get j t s' ≡ (
              if j =ₜ key
              then (if leb t (now + ttl) then some (clone_response r) else none)
              else get j t s))
            ⊎ ((get j t s' ≡ none) × IsFull key t s'.entries))
  unfolding get
  get-set spawned key j r now t s h le =
      let (m, s', ends, same, cleans) = set-Cleans spawned key r now s h in
      let e : Entry Line = record { response = clone_response r; expires_at = now + ttl } in
      let here : live expiry cloned t (BTreeMap.get j s'.entries)
          ≡ live expiry cloned t (BTreeMap.get j (BTreeMap.insert key e m)) =
        ap (λ x. live expiry cloned t (BTreeMap.get j x)) same in
      let twice = clone_response_twice r in
      (
        s',
        ends,
        elim (live-Cleans expiry cloned 499 now t s.entries m j le cleans) [
          | inl kept ↦ inl (ground (arith, get-insert key j e m))
          | inr (gone, room) ↦ elim (Bool-cases (j =ₜ key)) [
            | inl is ↦ inl (ground (arith, get-insert key j e m))
            | inr other ↦ inr (
              ground (arith, get-insert key j e m),
              subst (IsFull key t) (sym same) (IsFull-insert key e t m cleans.0 room),
            )
          ]
        ],
      )
