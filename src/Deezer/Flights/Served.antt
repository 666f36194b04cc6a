-- ===== src/Deezer/Flights/Served.antt =====
-- rust_backend/crates/providers/src/deezer/cache.rs: the callers that wait for a flight.
use mathlib.Core.Option.{some_inj}
use spoti_flac_mobile.Prelude.{
  zero, suc, ap, [], ◌∷◌, some, none, inl, inr, set, List, ℕ, Option, get_elem?, ◌≡◌, Bool-cases,
  arith, ◌==◌, ◌<◌, ◌++◌, ==_iff, length, refl, sym, subst, ◌⊎◌, ◌∙◌, get_elem?-set_ne, ◌≤◌,
}
use spoti_flac_mobile.BTreeMap
use spoti_flac_mobile.BTreeMap.{BTreeMap, get-insert, get-remove}
use spoti_flac_mobile.Deezer.Cache
use spoti_flac_mobile.Deezer.Cache.{searches}
use spoti_flac_mobile.Deezer.Flights.{
  calling, missed, waiting, leading, fetched, removed, returned, Phase, Caller, Answer, Text, World,
  set_phase,
}
use spoti_flac_mobile.Deezer.Flights.Leaders.{leads, set_cases}

pub get_elem?-set_at :
    {A : Type 0} (xs : List A) (i : ℕ) (v x : A)
    → get_elem? xs i ≡ some x
    → get_elem? (set xs i v) i ≡ some v
get_elem?-set_at [] i v x h = absurd (ground arith)
get_elem?-set_at (y ∷ ys) zero v x h = refl
get_elem?-set_at (y ∷ ys) (suc i) v x h = get_elem?-set_at ys i v x h

pub get_elem?-append :
    {A : Type 0} (xs ys : List A) (i : ℕ) (x : A)
    → get_elem? xs i ≡ some x
    → get_elem? (xs ++ ys) i ≡ some x
get_elem?-append [] ys i x h = absurd (ground arith)
get_elem?-append (y ∷ xs) ys zero x h = h
get_elem?-append (y ∷ xs) ys (suc i) x h = get_elem?-append xs ys i x h

module _ {V : Type 0} where
  -- The flight that a caller will tell the answer of.
  abbrev pub carries : Phase V → Option ℕ
  carries calling = none
  carries missed = none
  carries (waiting f) = none
  carries (leading f) = some f
  carries (fetched f answer) = some f
  carries (removed f answer) = some f
  carries (returned answer) = none

  abbrev pub waits : Phase V → Option ℕ
  waits calling = none
  waits missed = none
  waits (waiting f) = some f
  waits (leading f) = none
  waits (fetched f answer) = none
  waits (removed f answer) = none
  waits (returned answer) = none

  abbrev pub Someone : (Caller V → Type 0) → List (Caller V) → Type 0
  Someone P cs = (i : ℕ) × (c : Caller V) × (get_elem? cs i ≡ some c) × P c

  abbrev pub Carries : ℕ → Caller V → Type 0
  Carries f c = carries c.phase ≡ some f

  abbrev pub LeadsFor : Text → ℕ → Caller V → Type 0
  LeadsFor key f c = (c.key ≡ key) × (leads c.phase ≡ some f)

  abbrev pub Told : List (Option (Answer V)) → ℕ → Type 0
  Told rs f = (a : Answer V) × (get_elem? rs f ≡ some (some a))

  -- A change of one caller keeps what holds of some caller, if that one keeps it.
  pub Someone-set :
      (P : Caller V → Type 0) (Q : Type 0) (cs : List (Caller V)) (i : ℕ) (c v : Caller V)
      → get_elem? cs i ≡ some c
      → (P c → Q ⊎ P v)
      → Someone P cs
      → Q ⊎ Someone P (set cs i v)
  Someone-set P Q cs i c v at keeps (j, d, there, holds) = elim (Bool-cases (j == i)) [
    | inl is ↦
        let j≡i = (==_iff j i).0 is in
        let d≡c : d ≡ c = some_inj.0 (sym there ∙ ap (get_elem? cs) j≡i ∙ at) in
        elim (keeps (subst P d≡c holds)) [
          | inl q ↦ inl q
          | inr kept ↦ inr (i, v, get_elem?-set_at cs i v c at, kept)
        ]
    | inr other ↦ inr (j, d, get_elem?-set_ne cs v (λ e. absurd (ground arith)) ∙ there, holds)
  ]

  pub Told-set :
      (rs : List (Option (Answer V))) (f g : ℕ) (a : Answer V)
      → Told rs g
      → Told (set rs f (some a)) g
  Told-set rs f g a (b, told) = elim (Bool-cases (f == g)) [
    | inl is ↦
        let f≡g = (==_iff f g).0 is in
        (
          a,
          subst (λ n. get_elem? (set rs f (some a)) n ≡ some (some a)) f≡g
              (get_elem?-set_at rs f (some a) (some b) (ap (get_elem? rs) f≡g ∙ told)),
        )
    | inr other ↦ (b, get_elem?-set_ne rs (some a) (λ e. absurd (ground arith)) ∙ told)
  ]

  abbrev pub Served : List (Caller V) → List (Option (Answer V)) → ℕ → Type 0
  Served cs rs f = Told rs f ⊎ Someone (Carries f) cs

  -- The flights in the map have a leader, what a caller carries has a place for its result, and what
  -- a caller waits for is told or carried.
  abbrev pub Serves : World V → Type 0
  Serves w =
      ((key : Text) (f : ℕ)
        → BTreeMap.get key w.flights ≡ some f
        → Someone (LeadsFor key f) w.callers)
      × ((j : ℕ) (c : Caller V) (f : ℕ)
          → get_elem? w.callers j ≡ some c
          → Carries f c
          → f < length w.results)
      × ((j : ℕ) (c : Caller V) (f : ℕ)
          → get_elem? w.callers j ≡ some c
          → waits c.phase ≡ some f
          → Served w.callers w.results f)

  Served-set :
      (cs : List (Caller V)) (rs rs' : List (Option (Answer V))) (i : ℕ) (c v : Caller V) (f : ℕ)
      → get_elem? cs i ≡ some c
      → (Told rs f → Told rs' f)
      → (Carries f c → Told rs' f ⊎ Carries f v)
      → Served cs rs f
      → Served (set cs i v) rs' f
  Served-set cs rs rs' i c v f at still keeps (inl told) = inl (still told)
  Served-set cs rs rs' i c v f at still keeps (inr someone) =
      Someone-set (Carries f) (Told rs' f) cs i c v at keeps someone

  -- One caller changes its phase, and the results grow.
  pub set-Serves :
      (w : World V) (i : ℕ) (c : Caller V) (phase : Phase V) (cache : Cache.Cache V)
      (flights : BTreeMap ℕ) (rs : List (Option (Answer V)))
      → Serves w
      → get_elem? w.callers i ≡ some c
      → ((key : Text) (f : ℕ)
          → BTreeMap.get key flights ≡ some f
          → Someone (LeadsFor key f) (set w.callers i (record { key = c.key; phase = phase })))
      → ((f : ℕ) → carries phase ≡ some f → f < length rs)
      → length w.results ≤ length rs
      → ((f : ℕ) → Told w.results f → Told rs f)
      → ((f : ℕ) → Carries f c → Told rs f ⊎ (carries phase ≡ some f))
      → ((f : ℕ) → waits phase ≡ some f → Served w.callers w.results f)
      → Serves
          (set_phase i c.key phase (record w { cache = cache; flights = flights; results = rs }))
  set-Serves w i c phase cache flights rs (_, placed, served) at led place grow still keeps waits' =
      let v : Caller V = record { key = c.key; phase = phase } in
      let lift : (f : ℕ) → Served w.callers w.results f → Served (set w.callers i v) rs f =
        λ f. Served-set w.callers w.results rs i c v f at (still f) (keeps f) in
      (
        led,
        (λ j d f there carried. elim (set_cases w.callers i j v d there) [
          | inl (_, d≡v) ↦ place f (ap (λ x. carries x.phase) (sym d≡v) ∙ carried)
          | inr (_, before) ↦ omega (arith, placed j d f before carried, grow)
        ]),
        λ j d f there waiting'. elim (set_cases w.callers i j v d there) [
          | inl (_, d≡v) ↦ lift f (waits' f (ap (λ x. waits x.phase) (sym d≡v) ∙ waiting'))
          | inr (_, before) ↦ lift f (served j d f before waiting')
        ],
      )
