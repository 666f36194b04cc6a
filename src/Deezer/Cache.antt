-- ===== src/Deezer/Cache.antt =====
-- rust_backend/crates/providers/src/deezer/cache.rs: the bounded caches of answers. An `Instant` is
-- its nanoseconds since a start; the payloads of the answers are parameters.
pub mod Stored
use spoti_flac_mobile.Prelude.Text.{Text}
use spoti_flac_mobile.Prelude.{
  ℕ, [], ℕ, [], Bool, Option, ◌*◌, none, ◌∷◌, some, leb, if◌then◌else◌, true, ◌+◌, ◌||◌, ltb, ◌-◌,
  length,
}
use spoti_flac_mobile.BTreeMap
use spoti_flac_mobile.BTreeMap.{BTreeMap}
use spoti_flac_mobile.BTreeMap.Oldest.{evict, live}

pub data Value (Search Album Artist Extended : Type 0) : Type 0 where
  search : Search → Value Search Album Artist Extended
  album : Album → Value Search Album Artist Extended
  artist : Artist → Value Search Album Artist Extended
  extended : Extended → Value Search Album Artist Extended
  album_id : Text → Value Search Album Artist Extended

pub data Bucket : Type 0 where
  searches : Bucket
  albums : Bucket
  artists : Bucket

-- The caches only copy their values.
pub record Entry (V : Type 0) : Type 0 where
  pub value : V
  pub expires : ℕ

pub record Cache (V : Type 0) : Type 0 where
  pub search_entries : BTreeMap (Entry V)
  pub album_entries : BTreeMap (Entry V)
  pub artist_entries : BTreeMap (Entry V)
  pub isrc : BTreeMap Text
  pub last_cleanup : Option ℕ

-- `Duration::from_secs`.
abbrev pub seconds : ℕ → ℕ
seconds n = n * 1000000000

abbrev pub limit : Bucket → ℕ
limit searches = 300
limit albums = 200
limit artists = 200

-- `while self.isrc.len() > limit { self.isrc.pop_first() }`.
unfoldable pub pop_over : ℕ → BTreeMap Text → BTreeMap Text
pop_over most [] = []
pop_over most (e ∷ m) =
    let rest = pop_over most m in if ltb most (length (e ∷ m)) then rest else e ∷ m

-- `is_none_or` of a difference that stops at 0.
abbrev pub is_periodic : ℕ → Option ℕ → Bool
is_periodic now none = true
is_periodic now (some last) = leb (seconds 300) (now - last)

module _ {V : Type 0} where
  abbrev pub default : Cache V
  default = record {
    search_entries = [];
    album_entries = [];
    artist_entries = [];
    isrc = [];
    last_cleanup = none;
  }

  abbrev pub bucket : Bucket → Cache V → BTreeMap (Entry V)
  bucket searches c = c.search_entries
  bucket albums c = c.album_entries
  bucket artists c = c.artist_entries

  abbrev pub set_bucket : Bucket → BTreeMap (Entry V) → Cache V → Cache V
  set_bucket searches m c = record c { search_entries = m }
  set_bucket albums m c = record c { album_entries = m }
  set_bucket artists m c = record c { artist_entries = m }

  unfoldable pub get : Bucket → Text → ℕ → Cache V → Option V
  get b key now c = live (λ e. e.expires) (λ e. e.value) now (BTreeMap.get key (bucket b c))

  -- The body of the loop over the buckets; `none` is a panic.
  unfoldable pub clean_bucket : Bool → ℕ → ℕ → BTreeMap (Entry V) → Option (BTreeMap (Entry V))
  clean_bucket periodic most now entries =
      let kept = BTreeMap.retain (λ _ entry. leb now entry.expires) entries in
      if periodic || ltb most (length entries)
      then evict (λ entry. entry.expires) most (length kept) kept
      else some entries

  abbrev pub cleaned :
      Bool
      → ℕ
      → Cache V
      → Option (BTreeMap (Entry V))
      → Option (BTreeMap (Entry V))
      → Option (BTreeMap (Entry V))
      → Option (Cache V)
  cleaned periodic now c (some s) (some al) (some ar) = some (record {
    search_entries = s;
    album_entries = al;
    artist_entries = ar;
    isrc = pop_over 4000 c.isrc;
    last_cleanup = if periodic then some now else c.last_cleanup;
  })
  cleaned periodic now c (some s) (some al) none = none
  cleaned periodic now c (some s) none ar = none
  cleaned periodic now c none al ar = none

  unfoldable pub cleanup : ℕ → Cache V → Option (Cache V)
  cleanup now c =
      let periodic = is_periodic now c.last_cleanup in
      cleaned periodic now c (clean_bucket periodic (limit searches) now c.search_entries)
        (clean_bucket periodic (limit albums) now c.album_entries)
        (clean_bucket periodic (limit artists) now c.artist_entries)

  unfoldable pub put : Bucket → Text → V → ℕ → Cache V → Option (Cache V)
  put b key value now c =
      let entry : Entry V = record { value = value; expires = now + seconds 600 } in
      cleanup now (set_bucket b (BTreeMap.insert key entry (bucket b c)) c)
