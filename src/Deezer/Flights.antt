-- ===== src/Deezer/Flights.antt =====
-- rust_backend/crates/providers/src/deezer/cache.rs: `coalesced`, one lock after the other, for any
-- threads that share the flights. A flight is its place among the results of all flights so far.
pub mod Leaders
pub mod Single
pub mod Served
pub mod Waiters
pub mod Answered
use spoti_flac_mobile.Prelude.Text.{Text, codes}
use spoti_flac_mobile.Prelude.{
  ℕ, [], ℕ, Option, [], List, some, set, get_elem?, ◌++◌, length, ◌∷◌, none, if◌then◌else◌, leb,
}
use spoti_flac_mobile.Prelude.Result.{Result, ok, err}
use spoti_flac_mobile.Resolver.Errors.{ResolverError, failed, transport, cancelled, closed, busy}
use spoti_flac_mobile.BTreeMap
use spoti_flac_mobile.BTreeMap.{BTreeMap}
use spoti_flac_mobile.Deezer.Cache
use spoti_flac_mobile.Deezer.Cache.{searches}

abbrev pub Answer : Type 0 → Type 0
Answer V = Result V ResolverError

-- Where a caller is: at the top of the loop, past the cache, at the wait for a flight, at the fetch
-- that it leads, past it, past the removal of its flight, or back.
pub data Phase (V : Type 0) : Type 0 where
  calling : Phase V
  missed : Phase V
  waiting : ℕ → Phase V
  leading : ℕ → Phase V
  fetched : ℕ → Answer V → Phase V
  removed : ℕ → Answer V → Phase V
  returned : Answer V → Phase V

pub record Caller (V : Type 0) : Type 0 where
  pub key : Text
  pub phase : Phase V

pub record World (V : Type 0) : Type 0 where
  pub cache : Cache.Cache V
  pub flights : BTreeMap ℕ
  pub results : List (Option (Answer V))
  pub callers : List (Caller V)

-- What a caller finds at its turn: the error of `check`, two readings of the
-- clock, and what `fetch` gives, if it
-- does not panic.
pub record Turn (V : Type 0) : Type 0 where
  pub checked : Option Text
  pub now : ℕ
  pub later : ℕ
  pub fetch : Option (Answer V)

module _ {V : Type 0} where
  abbrev pub found : Option V → Phase V
  found none = missed
  found (some v) = returned (ok v)

  -- The top of the loop.
  abbrev pub look : Option Text → Option V → Phase V
  look (some message) cached = returned (err (cancelled message))
  look none cached = found cached

  abbrev pub set_phase : ℕ → Text → Phase V → World V → World V
  set_phase i key phase w = record w {
    callers = set w.callers i (record { key = key; phase = phase });
  }

  -- The lock of the flights.
  abbrev pub claim : ℕ → Text → Option ℕ → World V → World V
  claim i key (some f) w = set_phase i key (waiting f) w
  claim i key none w =
      let f = length w.results in
      if leb 64 (length w.flights)
      then set_phase i key (returned (err busy)) w
      else set_phase i key (leading f) (record w {
        flights = BTreeMap.insert key f w.flights;
        results = w.results ++ (none ∷ []);
      })

  -- The cached value or that of `fetch`.
  abbrev pub value_of : Option V → Option (Answer V) → Answer V
  value_of (some v) fetch = ok v
  value_of none (some answer) = answer
  value_of none none = err (failed (codes "metadata request panicked"))

  abbrev pub with_cache : World V → V → Option (Cache.Cache V) → Answer V × Cache.Cache V
  with_cache w v (some c) = (ok v, c)
  with_cache w v none = (err (failed (codes "metadata request panicked")), w.cache)

  -- The fetch of the leader: an error, a cancellation, or a value that is stored.
  abbrev pub store : Text → Turn V → World V → Answer V → Answer V × Cache.Cache V
  store key t w (err e) = (err e, w.cache)
  store key t w (ok v) = elim t.checked [
    | some message ↦ (err (cancelled message), w.cache)
    | none ↦ with_cache w v (Cache.put searches key v t.later w.cache)
  ]

  abbrev pub lead : ℕ → Text → ℕ → World V → Answer V × Cache.Cache V → World V
  lead i key f w (answer, c) = set_phase i key (fetched f answer) (record w { cache = c })

  -- A cancelled leader lets the waiters try again.
  abbrev pub hear : ℕ → Option (Option (Answer V)) → Phase V
  hear f none = waiting f
  hear f (some none) = waiting f
  hear f (some (some (err (cancelled message)))) = calling
  hear f (some (some (err (failed m)))) = returned (err (failed m))
  hear f (some (some (err (transport m)))) = returned (err (transport m))
  hear f (some (some (err closed))) = returned (err closed)
  hear f (some (some (err busy))) = returned (err busy)
  hear f (some (some (ok v))) = returned (ok v)

  -- A round of the wait for a flight.
  abbrev pub wait_round : ℕ → Option Text → Option (Option (Answer V)) → Phase V
  wait_round f (some message) result = returned (err (cancelled message))
  wait_round f none result = hear f result

  unfoldable pub act : Phase V → ℕ → Text → Turn V → World V → World V
  act calling i key t w = set_phase i key (look t.checked (Cache.get searches key t.now w.cache)) w
  act missed i key t w = claim i key (BTreeMap.get key w.flights) w
  act (waiting f) i key t w = set_phase i key (wait_round f t.checked (get_elem? w.results f)) w
  act (leading f) i key t w =
      lead i key f w (store key t w (value_of (Cache.get searches key t.now w.cache) t.fetch))
  act (fetched f answer) i key t w =
      set_phase i key (removed f answer) (record w { flights = BTreeMap.remove key w.flights })
  act (removed f answer) i key t w =
      set_phase i key (returned answer) (record w { results = set w.results f (some answer) })
  act (returned answer) i key t w = w

  abbrev pub turn_at : Option (Caller V) → ℕ → Turn V → World V → World V
  turn_at none i t w = w
  turn_at (some c) i t w = act c.phase i c.key t w

  unfoldable pub turn : ℕ → Turn V → World V → World V
  turn i t w = turn_at (get_elem? w.callers i) i t w

  unfoldable pub enter : Text → World V → World V
  enter key w = record w { callers = w.callers ++ (record { key = key; phase = calling } ∷ []) }

abbrev pub start : {V : Type 0} → Cache.Cache V → World V
start c = record { cache = c; flights = []; results = []; callers = [] }

-- The worlds that any callers reach in any order.
pub data Reach {V : Type 0} : World V → Type 0 where
  begin : (c : Cache.Cache V) → Reach (start c)
  call : {w : World V} (key : Text) → Reach w → Reach (enter key w)
  go : {w : World V} (i : ℕ) (t : Turn V) → Reach w → Reach (turn i t w)
