-- ===== src/Deezer/Flights/Leaders.antt =====
-- rust_backend/crates/providers/src/deezer/cache.rs: the callers that lead a fetch.
use spoti_flac_mobile.Prelude.Text.{◌=ₜ◌, =ₜ_iff}
use mathlib.Core.Option.{some_inj}
use spoti_flac_mobile.Prelude.{
  zero, suc, ap, [], ◌∷◌, some, none, inl, inr, List, ℕ, Option, length, get_elem?, ◌≤◌, set, ◌≡◌,
  ◌++◌, ◌⊎◌, ◌<◌, subst, ◌≢◌, arith, sym, suc, ◌∙◌, ap, ◌+◌, Bool-cases, refl, length-append,
}
use spoti_flac_mobile.BTreeMap
use spoti_flac_mobile.BTreeMap.{BTreeMap, get-insert, get-remove}
use spoti_flac_mobile.BTreeMap.Order.{
  IsSorted, insert-IsSorted, remove-IsSorted, length-insert-le, length-remove-le,
}
use spoti_flac_mobile.Deezer.Cache
use spoti_flac_mobile.Deezer.Flights.{
  calling, missed, waiting, leading, fetched, removed, returned, Phase, World, Text, Caller,
  set_phase, Answer,
}

pub set_cases :
    {A : Type 0} (xs : List A) (i j : ℕ) (v x : A)
    → get_elem? (set xs i v) j ≡ some x
    → ((j ≡ i) × (x ≡ v)) ⊎ ((j ≢ i) × (get_elem? xs j ≡ some x))
set_cases [] i j v x h = absurd (ground arith)
set_cases (y ∷ ys) zero zero v x h = inl (refl, ground arith)
set_cases (y ∷ ys) zero (suc j) v x h = inr ((λ e. absurd (omega arith)), h)
set_cases (y ∷ ys) (suc i) zero v x h = inr ((λ e. absurd (omega arith)), h)
set_cases (y ∷ ys) (suc i) (suc j) v x h = elim (set_cases ys i j v x h) [
  | inl (e, same) ↦ inl (ap suc e, same)
  | inr (ne, there) ↦ inr ((λ e. ne (omega arith)), there)
]

pub append_cases :
    {A : Type 0} (xs : List A) (j : ℕ) (v x : A)
    → get_elem? (xs ++ (v ∷ [])) j ≡ some x
    → (get_elem? xs j ≡ some x) ⊎ ((j ≡ length xs) × (x ≡ v))
append_cases [] zero v x h = inr (refl, ground arith)
append_cases [] (suc j) v x h = absurd (ground arith)
append_cases (y ∷ ys) zero v x h = inl h
append_cases (y ∷ ys) (suc j) v x h = elim (append_cases ys j v x h) [
  | inl there ↦ inl there
  | inr (e, same) ↦ inr (ap suc e, same)
]

module _ {V : Type 0} where
  -- The flight that a caller leads, until it is out of the map.
  abbrev pub leads : Phase V → Option ℕ
  leads calling = none
  leads missed = none
  leads (waiting f) = none
  leads (leading f) = some f
  leads (fetched f answer) = some f
  leads (removed f answer) = none
  leads (returned answer) = none

  -- A caller leads a flight.
  abbrev pub Leads : World V → ℕ → Text → ℕ → Type 0
  Leads w i key f =
      (c : Caller V) × (get_elem? w.callers i ≡ some c) × (c.key ≡ key) × (leads c.phase ≡ some f)

  abbrev pub Keeps : World V → Type 0
  Keeps w =
      IsSorted w.flights
      × (length w.flights ≤ 64)
      × ((key : Text) (f : ℕ) → BTreeMap.get key w.flights ≡ some f → f < length w.results)
      × ((i : ℕ) (key : Text) (f : ℕ) → Leads w i key f → BTreeMap.get key w.flights ≡ some f)
      × ((i j : ℕ) (key other : Text) (f : ℕ) → Leads w i key f → Leads w j other f → i ≡ j)

  -- Who leads after a caller has changed its phase.
  pub Leads-set_phase :
      (w : World V) (i : ℕ) (key : Text) (phase : Phase V) (j : ℕ) (k : Text) (f : ℕ)
      → Leads (set_phase i key phase w) j k f
      → ((j ≡ i) × (k ≡ key) × (leads phase ≡ some f)) ⊎ ((j ≢ i) × Leads w j k f)
  Leads-set_phase w i key phase j k f (c, there, named, led) =
      elim (set_cases w.callers i j (record { key = key; phase = phase }) c there) [
        | inl (e, same) ↦
            inl (e, sym named ∙ ap (λ x. x.key) same, ap (λ x. leads x.phase) (sym same) ∙ led)
        | inr (ne, before) ↦ inr (ne, (c, before, named, led))
      ]

  -- A step in which nobody begins to lead.
  pub keep-Keeps :
      (w : World V) (i : ℕ) (key : Text) (phase : Phase V) (c : Cache.Cache V)
      (rs : List (Option (Answer V)))
      → Keeps w
      → length rs ≡ length w.results
      → ((f : ℕ) → leads phase ≡ some f → Leads w i key f)
      → Keeps (set_phase i key phase (record w { cache = c; results = rs }))
  keep-Keeps w i key phase c rs (sorted, size, bounded, held, unique) len same =
      let w' : World V = record w { cache = c; results = rs } in
      let back : (j : ℕ) (k : Text) (f : ℕ)
          → Leads (set_phase i key phase w') j k f
          → Leads w j k f =
        λ j k f l. elim (Leads-set_phase w' i key phase j k f l) [
          | inl (j≡, k≡, led) ↦
              subst (λ n. Leads w n k f) (sym j≡) (subst (λ n. Leads w i n f) (sym k≡) (same f led))
          | inr (_, before) ↦ before
        ] in
      (
        sorted,
        size,
        (λ k f g. omega (arith, bounded k f g, len)),
        (λ j k f l. held j k f (back j k f l)),
        λ j l k o f a b. unique j l k o f (back j k f a) (back l o f b),
      )

  -- A caller claims a new flight.
  pub claim-Keeps :
      (w : World V) (i : ℕ) (key : Text)
      → Keeps w
      → length w.flights < 64
      → BTreeMap.get key w.flights ≡ none
      → Keeps (
          set_phase i key (leading (length w.results)) (record w {
            flights = BTreeMap.insert key (length w.results) w.flights;
            results = w.results ++ (none ∷ []);
          }))
  claim-Keeps w i key (sorted, size, bounded, held, unique) room free =
      let n = length w.results in
      let w' : World V = record w {
        flights = BTreeMap.insert key n w.flights;
        results = w.results ++ (none ∷ []);
      } in
      let longer : length (w.results ++ (none ∷ [])) ≡ n + 1 =
        length-append w.results (none ∷ []) in
      let old : (j : ℕ) (k : Text) (f : ℕ) → Leads w j k f → f < n =
        λ j k f l. bounded k f (held j k f l) in
      let split : (j : ℕ) (k : Text) (f : ℕ)
          → Leads (set_phase i key (leading n) w') j k f
          → ((j ≡ i) × (k ≡ key) × (f ≡ n)) ⊎ ((j ≢ i) × Leads w j k f) =
        λ j k f l. elim (Leads-set_phase w' i key (leading n) j k f l) [
          | inl (j≡, k≡, led) ↦ inl (j≡, k≡, sym (some_inj.0 led))
          | inr before ↦ inr before
        ] in
      (
        insert-IsSorted key n w.flights sorted,
        omega (arith, length-insert-le key n w.flights),
        (λ k f g. elim (Bool-cases (k =ₜ key)) [
          | inl is ↦
              let e : n ≡ f = some_inj.0 (ground (arith, get-insert key k n w.flights)) in
              omega (arith, longer)
          | inr other ↦
              let before = bounded k f (ground (arith, get-insert key k n w.flights)) in
              omega (arith, longer)
        ]),
        (λ j k f l. elim (split j k f l) [
          | inl (j≡, k≡, f≡) ↦
              rw (k≡, f≡) (ground (arith, get-insert key key n w.flights, =ₜ_iff key key))
          | inr (_, before) ↦
              let there = held j k f before in
              ground (arith, get-insert key k n w.flights, =ₜ_iff k key)
        ]),
        λ j l k o f a b. elim (split j k f a) [
          | inl (j≡, _, f≡) ↦ elim (split l o f b) [
            | inl (l≡, _, _) ↦ j≡ ∙ sym l≡
            | inr (_, before) ↦ absurd (omega (arith, old l o f before))
          ]
          | inr (_, first) ↦ elim (split l o f b) [
            | inl (_, _, f≡) ↦ absurd (omega (arith, old j k f first))
            | inr (_, second) ↦ unique j l k o f first second
          ]
        ],
      )

  -- The leader takes its flight out of the map.
  pub release-Keeps :
      (w : World V) (i : ℕ) (key : Text) (f0 : ℕ) (answer : Answer V)
      → Keeps w
      → Leads w i key f0
      → Keeps (
          set_phase i key
            (removed f0 answer)
            (record w { flights = BTreeMap.remove key w.flights }))
  release-Keeps w i key f0 answer (sorted, size, bounded, held, unique) mine =
      let w' : World V = record w { flights = BTreeMap.remove key w.flights } in
      let back : (j : ℕ) (k : Text) (f : ℕ)
          → Leads (set_phase i key (removed f0 answer) w') j k f
          → (j ≢ i) × Leads w j k f =
        λ j k f l. elim (Leads-set_phase w' i key (removed f0 answer) j k f l) [
          | inl (_, _, led) ↦ absurd (cc)
          | inr before ↦ before
        ] in
      (
        remove-IsSorted key w.flights sorted,
        omega (arith, length-remove-le key w.flights),
        (λ k f g. bounded k f (ground (arith, get-remove key k w.flights))),
        (λ j k f l.
            let (ne, before) = back j k f l in
            let there = held j k f before in
            elim (Bool-cases (k =ₜ key)) [
              | inl is ↦
                  let k≡ : k ≡ key = (=ₜ_iff k key).0 is in
                  let f≡ : f0 ≡ f = some_inj.0 (
                    sym (held i key f0 mine)
                    ∙ ap (λ x. BTreeMap.get x w.flights) (sym k≡)
                    ∙ there) in
                  absurd (ne (unique j i k key f before (subst (λ x. Leads w i key x) f≡ mine)))
              | inr other ↦ ground (arith, get-remove key k w.flights)
            ]),
        λ j l k o f a b. unique j l k o f ((back j k f a).1) ((back l o f b).1),
      )
