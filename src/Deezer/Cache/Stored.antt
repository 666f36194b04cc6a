-- ===== src/Deezer/Cache/Stored.antt =====
-- rust_backend/crates/providers/src/deezer/cache.rs: the sizes of the caches, and what is found after
-- an answer was stored.
use spoti_flac_mobile.Deezer.Cache.{get, clean_bucket}
use spoti_flac_mobile.Prelude.Text.{◌=ₜ◌}
use spoti_flac_mobile.Deezer.Cache.{searches, albums, artists, live}
use spoti_flac_mobile.Deezer.Cache.{
  pop_over, Bucket, Cache, cleanup, put, Entry, bucket, Text, set_bucket, limit, is_periodic,
  seconds,
}
use spoti_flac_mobile.Prelude.{
  Bool-cases, ℕ, Bool, length, ◌≤◌, ◌≡◌, arith, some, ◌∷◌, ◌+◌, [], if◌then◌else◌, true, false,
  ◌&&◌, ◌⊎◌, none, inl, leb, inr, ◌∙◌, refl, ◌||◌, ltb,
}
use spoti_flac_mobile.BTreeMap
use spoti_flac_mobile.BTreeMap.{BTreeMap, get-insert}
use spoti_flac_mobile.BTreeMap.Order.{IsSorted, insert-IsSorted}
use spoti_flac_mobile.BTreeMap.Clean.{Cleans, clean-Cleans, Cleans-nothing, live-Cleans, MadeRoom}

length-pop_over : (most : ℕ) (m : BTreeMap Text) → length (pop_over most m) ≤ most
unfolding pop_over
length-pop_over most [] = omega arith
length-pop_over most (e ∷ m) = ground (arith, length-pop_over most m)

abbrev pub is_bucket : Bucket → Bucket → Bool
is_bucket searches searches = true
is_bucket albums albums = true
is_bucket artists artists = true
is_bucket b b' = false

module _ {V : Type 0} where
  abbrev pub expiry : Entry V → ℕ
  expiry e = e.expires

  clean_bucket-Cleans :
      (periodic : Bool) (most now : ℕ) (m : BTreeMap (Entry V))
      → IsSorted m
      → (m' : BTreeMap (Entry V)) × (clean_bucket periodic most now m ≡ some m')
        × Cleans expiry most now m m'
  unfolding clean_bucket
  clean_bucket-Cleans periodic most now m s =
      let (m', ends, cleans) = clean-Cleans expiry most now m s in
      elim (Bool-cases (periodic || ltb most (length m))) [
        | inl runs ↦ (m', rw runs ends, cleans)
        | inr idle ↦ (m, rw idle refl, Cleans-nothing expiry most now m s (ground arith))
      ]

  abbrev pub AreSorted : Cache V → Type 0
  AreSorted c = IsSorted c.search_entries × IsSorted c.album_entries × IsSorted c.artist_entries

  -- The buckets are maps within their limits.
  abbrev pub IsBudgeted : Cache V → Type 0
  IsBudgeted c =
      AreSorted c
      × (length c.search_entries ≤ 300)
      × (length c.album_entries ≤ 200)
      × (length c.artist_entries ≤ 200)
      × (length c.isrc ≤ 4000)

  Cleans-buckets :
      (now : ℕ) (c c' : Cache V)
      → Cleans expiry 300 now c.search_entries c'.search_entries
      → Cleans expiry 200 now c.album_entries c'.album_entries
      → Cleans expiry 200 now c.artist_entries c'.artist_entries
      → (b : Bucket) → Cleans expiry (limit b) now (bucket b c) (bucket b c')
  Cleans-buckets now c c' s al ar searches = s
  Cleans-buckets now c c' s al ar albums = al
  Cleans-buckets now c c' s al ar artists = ar

  cleanup-Cleans :
      (now : ℕ) (c : Cache V)
      → AreSorted c
      → (c' : Cache V) × (cleanup now c ≡ some c')
        × IsBudgeted c'
        × ((b : Bucket) → Cleans expiry (limit b) now (bucket b c) (bucket b c'))
  unfolding cleanup
  cleanup-Cleans now c (s, al, ar) =
      let p = is_periodic now c.last_cleanup in
      let (m1, e1, c1) = clean_bucket-Cleans p 300 now c.search_entries s in
      let (m2, e2, c2) = clean_bucket-Cleans p 200 now c.album_entries al in
      let (m3, e3, c3) = clean_bucket-Cleans p 200 now c.artist_entries ar in
      let c' : Cache V = record {
        search_entries = m1;
        album_entries = m2;
        artist_entries = m3;
        isrc = pop_over 4000 c.isrc;
        last_cleanup = if p then some now else c.last_cleanup;
      } in
      (
        c',
        rw (e1, e2, e3) refl,
        ((c1.0, c2.0, c3.0), c1.1, c2.1, c3.1, length-pop_over 4000 c.isrc),
        Cleans-buckets now c c' c1 c2 c3,
      )

  set_bucket-AreSorted :
      (b : Bucket) (m : BTreeMap (Entry V)) (c : Cache V)
      → AreSorted c
      → IsSorted m
      → AreSorted (set_bucket b m c)
  set_bucket-AreSorted searches m c s h = (h, s.1, s.2)
  set_bucket-AreSorted albums m c s h = (s.0, h, s.2)
  set_bucket-AreSorted artists m c s h = (s.0, s.1, h)

  bucket-IsSorted : (b : Bucket) (c : Cache V) → AreSorted c → IsSorted (bucket b c)
  bucket-IsSorted searches c s = s.0
  bucket-IsSorted albums c s = s.1
  bucket-IsSorted artists c s = s.2

  put-Cleans :
      (b : Bucket) (k : Text) (v : V) (now : ℕ) (c : Cache V)
      → AreSorted c
      → (c' : Cache V) × (put b k v now c ≡ some c')
        × IsBudgeted c'
        × ((b' : Bucket)
            → Cleans expiry
                (limit b')
                now
                (bucket b' (
                  set_bucket b
                    (BTreeMap.insert k
                      (record { value = v; expires = now + seconds 600 })
                      (bucket b c))
                    c))
                (bucket b' c'))
  unfolding put
  put-Cleans b k v now c s =
      cleanup-Cleans now _
        (set_bucket-AreSorted b _ c s (insert-IsSorted k _ (bucket b c) (bucket-IsSorted b c s)))

  abbrev with_entry : Bucket → Text → Entry V → Cache V → Cache V
  with_entry b k e c = set_bucket b (BTreeMap.insert k e (bucket b c)) c

  -- What is found in the entries before a clean-up.
  get-with_entry :
      (b b' : Bucket) (k j : Text) (e : Entry V) (t : ℕ) (c : Cache V)
      → live expiry (λ w. w.value) t (BTreeMap.get j (bucket b' (with_entry b k e c))) ≡ (
          if is_bucket b b' && (j =ₜ k)
          then live expiry (λ w. w.value) t (some e)
          else get b' j t c)
  unfolding get
  get-with_entry searches searches k j e t c = ground (arith, get-insert k j e c.search_entries)
  get-with_entry albums albums k j e t c = ground (arith, get-insert k j e c.album_entries)
  get-with_entry artists artists k j e t c = ground (arith, get-insert k j e c.artist_entries)
  get-with_entry searches albums k j e t c = refl
  get-with_entry searches artists k j e t c = refl
  get-with_entry albums searches k j e t c = refl
  get-with_entry albums artists k j e t c = refl
  get-with_entry artists searches k j e t c = refl
  get-with_entry artists albums k j e t c = refl

  -- To store an answer in buckets in order, however full, returns and leaves them within their
  -- budgets. At that time or later, its key gives it for ten minutes, and any other key of any bucket
  -- gives what it gave before; or else it gives nothing, since the bucket is full and every entry in
  -- it lives at that time too.
  pub get-put :
      (b b' : Bucket) (k j : Text) (v : V) (now t : ℕ) (c : Cache V)
      → AreSorted c
      → now ≤ t
      → (c' : Cache V) × (put b k v now c ≡ some c')
        × IsBudgeted c'
        × ((get b' j t c' ≡ (
              if is_bucket b b' && (j =ₜ k)
              then (if leb t (now + seconds 600) then some v else none)
              else get b' j t c))
            ⊎ ((get b' j t c' ≡ none) × MadeRoom expiry (limit b') t (bucket b' c')))
  unfolding get
  get-put b b' k j v now t c s le =
      let e : Entry V = record { value = v; expires = now + seconds 600 } in
      let (c', ends, budgeted, cleans) = put-Cleans b k v now c s in
      let before = get-with_entry b b' k j e t c in
      (
        c',
        ends,
        budgeted,
        elim (live-Cleans expiry (λ e. e.value) (limit b') now t (bucket b' (with_entry b k e c))
            (bucket b' c') j le (cleans b')) [
              | inl same ↦ inl (same ∙ before)
              | inr gone ↦ inr gone
            ],
      )
