-- ===== src/Tests/Deezer.antt =====
-- A test and witnesses for the caches of Deezer.
use spoti_flac_mobile.Deezer.Flights.Answered.{waits-Served}
use spoti_flac_mobile.Deezer.Flights.Served.{Served}
use spoti_flac_mobile.Prelude.{get_elem?}
use spoti_flac_mobile.Deezer.Flights.Single.{Leads-unique}
use spoti_flac_mobile.Deezer.Flights.Leaders.{Leads}
use spoti_flac_mobile.Deezer.Flights.{
  World, Turn, turn, act, enter, start, Reach, begin, call, go, leading, waiting,
}
use spoti_flac_mobile.Prelude.Result.{ok}
use spoti_flac_mobile.Prelude.Text.{text_cmp}
use spoti_flac_mobile.BTreeMap
use spoti_flac_mobile.Prelude.{arith, length, refl, ◌≤◌}
use spoti_flac_mobile.BTreeMap.Clean.{MadeRoom}
use spoti_flac_mobile.Prelude.Text.{codes}
use spoti_flac_mobile.Prelude.{ℕ, ℕ, [], ◌∷◌, ◌≡◌, some, ◌⊎◌, none, arith}
use spoti_flac_mobile.Deezer.Cache.{searches, albums, artists, seconds, limit}
use spoti_flac_mobile.Deezer.Cache
use spoti_flac_mobile.Deezer.Cache.Stored

-- A cache that was cleaned a second ago, with one album.
abbrev warm : Cache.Cache ℕ
warm = record {
  search_entries = [];
  album_entries = (codes "a", record { value = 1; expires = seconds 700 }) ∷ [];
  artist_entries = [];
  isrc = (codes "i", codes "x") ∷ [];
  last_cleanup = some (seconds 100);
}

warm-AreSorted : Stored.AreSorted warm
warm-AreSorted = (tt, (tt, tt), tt)

get-put_example :
    (c : Cache.Cache ℕ) × (Cache.put searches (codes "k") 7 (seconds 101) warm ≡ some c)
    × Stored.IsBudgeted c
    × ((Cache.get albums (codes "a") (seconds 650) c
          ≡ Cache.get albums (codes "a") (seconds 650) warm)
        ⊎ ((Cache.get albums (codes "a") (seconds 650) c ≡ none)
            × MadeRoom Stored.expiry 200 (seconds 650) (Cache.bucket albums c)))
get-put_example =
    Stored.get-put searches albums (codes "k") (codes "a") 7 (seconds 101) (seconds 650) warm
      warm-AreSorted (omega arith)

-- Two callers of one key: the first leads, the second waits for it.
abbrev quiet : Turn ℕ
quiet = record { checked = none; now = seconds 101; later = seconds 101; fetch = some (ok 7) }

abbrev two_callers : World ℕ
two_callers = turn 1 quiet (
    turn 1 quiet (turn 0 quiet (turn 0 quiet (enter (codes "k") (enter (codes "k") (start warm))))))

two_callers_test :
    two_callers.callers
    ≡ record { key = codes "k"; phase = leading 0 }
      ∷ record { key = codes "k"; phase = waiting 0 }
      ∷ []
unfolding turn act enter Cache.get BTreeMap.get BTreeMap.insert text_cmp
two_callers_test = refl

two_callers-Reach : Reach two_callers
two_callers-Reach =
    go 1 quiet
      (go 1 quiet (go 0 quiet (go 0 quiet (call (codes "k") (call (codes "k") (begin warm))))))

two_callers-Leads : Leads two_callers 0 (codes "k") 0
unfolding turn act enter Cache.get BTreeMap.get BTreeMap.insert text_cmp
two_callers-Leads = (record { key = codes "k"; phase = leading 0 }, refl, refl, refl)

Leads-unique_example :
    (◌≡◌ {A = ℕ} 0 0)
    × (BTreeMap.get (codes "k") two_callers.flights ≡ some 0)
    × (length two_callers.flights ≤ 64)
Leads-unique_example =
    Leads-unique 0 0 (codes "k") 0 0 two_callers-Reach two_callers-Leads two_callers-Leads

two_callers_wait :
    get_elem? two_callers.callers 1 ≡ some (record { key = codes "k"; phase = waiting 0 })
unfolding turn act enter Cache.get BTreeMap.get BTreeMap.insert text_cmp
two_callers_wait = refl

waits-Served_example : Served two_callers.callers two_callers.results 0
waits-Served_example =
    waits-Served 1 (record { key = codes "k"; phase = waiting 0 }) 0 two_callers-Reach
      two_callers_wait refl
