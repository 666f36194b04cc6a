-- ===== src/Deezer/Flights/Waiters.antt =====
-- rust_backend/crates/providers/src/deezer/cache.rs: no caller waits for a flight that nobody ends.
use spoti_flac_mobile.Prelude.Text.{=ₜ_iff, ◌=ₜ◌}
use mathlib.Core.Option.{some_inj}
use spoti_flac_mobile.Prelude.{
  ap, [], ◌∷◌, some, none, inl, inr, set, ◌∙◌, Option, ℕ, ◌≡◌, ◌⊎◌, get_elem?, refl, arith, subst,
  length, ◌++◌, ◌+◌, length-append, sym, if_cases, length-set, leb, get_elem?-set_self, Bool-cases,
}
use spoti_flac_mobile.Prelude.Result.{ok, err}
use spoti_flac_mobile.BTreeMap
use spoti_flac_mobile.BTreeMap.{BTreeMap, get-insert, get-remove}
use spoti_flac_mobile.Deezer.Cache
use spoti_flac_mobile.Deezer.Cache.{searches}
use spoti_flac_mobile.Deezer.Flights.{
  calling, missed, waiting, leading, fetched, removed, returned, busy, cancelled, failed, transport,
  closed, Phase, World, Text, Answer, Caller, look, hear, wait_round, set_phase, claim, lead, act,
  Turn, store, value_of,
}
use spoti_flac_mobile.Deezer.Flights.Leaders.{leads}
use spoti_flac_mobile.Deezer.Flights.Served.{
  carries, waits, Someone, LeadsFor, Served, Serves, set-Serves, Someone-set, Told-set,
  get_elem?-append, get_elem?-set_at,
}

module _ {V : Type 0} where
  -- Neither carries a flight nor waits for one.
  abbrev IsFree : Phase V → Type 0
  IsFree phase = (leads phase ≡ none) × (carries phase ≡ none) × (waits phase ≡ none)

  look-IsFree : (checked : Option Text) (cached : Option V) → IsFree (look checked cached)
  look-IsFree (some m) cached = (refl, refl, refl)
  look-IsFree none none = (refl, refl, refl)
  look-IsFree none (some v) = (refl, refl, refl)

  abbrev WaitsOnly : ℕ → Phase V → Type 0
  WaitsOnly f phase = (carries phase ≡ none) × ((waits phase ≡ none) ⊎ (waits phase ≡ some f))

  hear-WaitsOnly : (f : ℕ) (result : Option (Option (Answer V))) → WaitsOnly f (hear f result)
  hear-WaitsOnly f none = (refl, inr refl)
  hear-WaitsOnly f (some none) = (refl, inr refl)
  hear-WaitsOnly f (some (some (ok v))) = (refl, inl refl)
  hear-WaitsOnly f (some (some (err (cancelled m)))) = (refl, inl refl)
  hear-WaitsOnly f (some (some (err (failed m)))) = (refl, inl refl)
  hear-WaitsOnly f (some (some (err (transport m)))) = (refl, inl refl)
  hear-WaitsOnly f (some (some (err closed))) = (refl, inl refl)
  hear-WaitsOnly f (some (some (err busy))) = (refl, inl refl)

  wait_round-WaitsOnly :
      (f : ℕ) (checked : Option Text) (result : Option (Option (Answer V)))
      → WaitsOnly f (wait_round f checked result)
  wait_round-WaitsOnly f (some m) result = (refl, inl refl)
  wait_round-WaitsOnly f none result = hear-WaitsOnly f result

  carries-leads : (phase : Phase V) (f : ℕ) → leads phase ≡ some f → carries phase ≡ some f
  carries-leads (leading g) f h = h
  carries-leads (fetched g a) f h = h
  carries-leads calling f h = absurd (cc)
  carries-leads missed f h = absurd (cc)
  carries-leads (waiting g) f h = absurd (cc)
  carries-leads (removed g a) f h = absurd (cc)
  carries-leads (returned a) f h = absurd (cc)

  -- The leaders are kept by a change of one caller that leads what it led.
  led-set :
      (w : World V) (i : ℕ) (c : Caller V) (phase : Phase V) (key : Text) (f : ℕ)
      → get_elem? w.callers i ≡ some c
      → (LeadsFor key f c → leads phase ≡ some f)
      → Someone (LeadsFor key f) w.callers
      → Someone (LeadsFor key f) (set w.callers i (record { key = c.key; phase = phase }))
  led-set w i c phase key f at same someone =
      elim (Someone-set (LeadsFor key f) ⊥ w.callers i c (record { key = c.key; phase = phase }) at
        (λ l. inr (l.0, same l)) someone) [ inl never ↦ absurd never | inr kept ↦ kept ]

  -- A caller that carries nothing goes on without a flight, or waits for one that is served.
  free-Serves :
      (w : World V) (i : ℕ) (c : Caller V) (phase : Phase V)
      → Serves w
      → get_elem? w.callers i ≡ some c
      → carries c.phase ≡ none
      → carries phase ≡ none
      → ((f : ℕ) → waits phase ≡ some f → Served w.callers w.results f)
      → Serves (set_phase i c.key phase w)
  free-Serves w i c phase s at none_before none_after waits' =
      set-Serves w i c phase w.cache w.flights w.results s at
        (λ key f g.
          led-set w i c phase key f at (λ l. let e = carries-leads c.phase f l.1 in absurd (cc))
            (s.0 key f g))
        (λ f e. absurd (cc)) (omega arith) (λ f told. told) (λ f e. absurd (cc)) waits'

  claim-Serves :
      (w : World V) (i : ℕ) (c : Caller V) (o : Option ℕ)
      → Serves w
      → get_elem? w.callers i ≡ some c
      → carries c.phase ≡ none
      → BTreeMap.get c.key w.flights ≡ o
      → Serves (claim i c.key o w)
  claim-Serves w i c (some f) s at free e = free-Serves w i c (waiting f) s at free refl (λ g is.
      let (j, d, there, (_, led)) = s.0 c.key f e in
      subst (Served w.callers w.results) (some_inj.0 is)
        (inr (j, d, there, carries-leads d.phase f led)))
  claim-Serves w i c none s at free e =
      let n = length w.results in
      let longer : length (w.results ++ (none ∷ [])) ≡ n + 1 =
        length-append w.results (none ∷ []) in
      let v : Caller V = record { key = c.key; phase = leading n } in
      if_cases Serves (leb 64 (length w.flights)) (set_phase i c.key (returned (err busy)) w) _
        (λ _. free-Serves w i c (returned (err busy)) s at free refl (λ f e. absurd (cc)))
        (λ _.
          set-Serves w i c (leading n) w.cache (BTreeMap.insert c.key n w.flights)
            (w.results ++ (none ∷ [])) s at
            (λ key f g. elim (Bool-cases (key =ₜ c.key)) [
              | inl is ↦
                  let n≡f : n ≡ f = some_inj.0 (ground (arith, get-insert c.key key n w.flights)) in
                  (
                    i,
                    v,
                    get_elem?-set_at w.callers i v c at,
                    (sym ((=ₜ_iff key c.key).0 is), ap some n≡f),
                  )
              | inr other ↦
                  led-set w i c (leading n) key f at
                    (λ l. let e' = carries-leads c.phase f l.1 in absurd (cc))
                    (s.0 key f (ground (arith, get-insert c.key key n w.flights)))
            ])
            (λ f is. let n≡f : n ≡ f = some_inj.0 is in omega (arith, longer))
            (omega (arith, longer))
            (λ f told. (told.0, get_elem?-append w.results (none ∷ []) f (some told.0) told.1))
            (λ f is. absurd (cc)) (λ f is. absurd (cc)))

  lead-Serves :
      (w : World V) (i : ℕ) (c : Caller V) (f : ℕ) (p : Answer V × Cache.Cache V)
      → Serves w
      → get_elem? w.callers i ≡ some c
      → c.phase ≡ leading f
      → Serves (lead i c.key f w p)
  lead-Serves w i c f (answer, cache) s at now =
      set-Serves w i c (fetched f answer) cache w.flights w.results s at
        (λ key g e.
          led-set w i c (fetched f answer) key g at (λ l. ap leads (sym now) ∙ l.1) (s.0 key g e))
        (λ g is. s.1 i c g at (ap carries now ∙ is)) (omega arith) (λ g told. told)
        (λ g is. inr (ap carries (sym now) ∙ is)) (λ g is. absurd (cc))

  release-Serves :
      (w : World V) (i : ℕ) (c : Caller V) (f : ℕ) (answer : Answer V)
      → Serves w
      → get_elem? w.callers i ≡ some c
      → c.phase ≡ fetched f answer
      → Serves (
          set_phase i c.key
            (removed f answer)
            (record w { flights = BTreeMap.remove c.key w.flights }))
  release-Serves w i c f answer s at now =
      set-Serves w i c (removed f answer) w.cache (BTreeMap.remove c.key w.flights) w.results s at
        (λ key g e.
          led-set w i c (removed f answer) key g at
            (λ l. absurd (ground (arith, get-remove c.key key w.flights, =ₜ_iff key c.key, l.0)))
            (s.0 key g (ground (arith, get-remove c.key key w.flights))))
        (λ g is. s.1 i c g at (ap carries now ∙ is)) (omega arith) (λ g told. told)
        (λ g is. inr (ap carries (sym now) ∙ is)) (λ g is. absurd (cc))

  -- A caller tells its answer to those that wait.
  tell-Serves :
      (w : World V) (i : ℕ) (c : Caller V) (f : ℕ) (answer : Answer V)
      → Serves w
      → get_elem? w.callers i ≡ some c
      → c.phase ≡ removed f answer
      → Serves (
          set_phase i c.key
            (returned answer)
            (record w { results = set w.results f (some answer) }))
  tell-Serves w i c f answer s at now =
      let placed = s.1 i c f at (ap carries now) in
      set-Serves w i c (returned answer) w.cache w.flights (set w.results f (some answer)) s at
        (λ key g e.
          led-set w i c (returned answer) key g at
            (λ l. let e' = ap leads (sym now) ∙ l.1 in absurd (cc)) (s.0 key g e))
        (λ g is. absurd (cc)) (omega (arith, length-set w.results f (some answer)))
        (λ g told. Told-set w.results f g answer told)
        (λ g is.
          let f≡g : f ≡ g = some_inj.0 (ap carries (sym now) ∙ is) in
          inl (
            answer,
            ap (get_elem? (set w.results f (some answer))) (sym f≡g)
                ∙ get_elem?-set_self w.results f (some answer) placed,
          ))
        (λ g is. absurd (cc))

  pub act-Serves :
      (phase : Phase V) (i : ℕ) (c : Caller V) (t : Turn V) (w : World V)
      → Serves w
      → get_elem? w.callers i ≡ some c
      → c.phase ≡ phase
      → Serves (act phase i c.key t w)
  unfolding act
  act-Serves calling i c t w s at p =
      let free = look-IsFree t.checked (Cache.get searches c.key t.now w.cache) in
      free-Serves w i c _ s at (ap carries p) free.1 (λ f is. let e = free.2 in absurd (cc))
  act-Serves missed i c t w s at p =
      claim-Serves w i c (BTreeMap.get c.key w.flights) s at (ap carries p) refl
  act-Serves (waiting f) i c t w s at p =
      let round = wait_round-WaitsOnly f t.checked (get_elem? w.results f) in
      free-Serves w i c _ s at (ap carries p) round.0 (λ g is. elim round.1 [
        | inl over ↦ absurd (cc)
        | inr same ↦
            subst (Served w.callers w.results) (some_inj.0 (sym same ∙ is))
              (s.2 i c f at (ap waits p))
      ])
  act-Serves (leading f) i c t w s at p =
      lead-Serves w i c f
        (store c.key t w (value_of (Cache.get searches c.key t.now w.cache) t.fetch)) s at p
  act-Serves (fetched f answer) i c t w s at p = release-Serves w i c f answer s at p
  act-Serves (removed f answer) i c t w s at p = tell-Serves w i c f answer s at p
  act-Serves (returned answer) i c t w s at p = s
