-- ===== src/Deezer/Flights/Single.antt =====
-- rust_backend/crates/providers/src/deezer/cache.rs: one leader for a key.
use mathlib.Core.Option.{some_inj}
use spoti_flac_mobile.Prelude.{
  ap, some, none, inl, inr, set, Option, ℕ, ◌≡◌, sym, arith, subst, get_elem?, ◌∙◌, length, refl,
  if_cases, length-set, ◌≤◌, leb,
}
use spoti_flac_mobile.Prelude.Result.{ok, err}
use spoti_flac_mobile.BTreeMap
use spoti_flac_mobile.BTreeMap.{BTreeMap}
use spoti_flac_mobile.Deezer.Cache
use spoti_flac_mobile.Deezer.Cache.{searches}
use spoti_flac_mobile.Deezer.Flights.{
  calling, missed, waiting, leading, fetched, removed, returned, busy, cancelled, failed, transport,
  closed, begin, call, go, World, act, enter, turn, Text, Answer, Phase, Caller, Reach, look, hear,
  wait_round, lead, Turn, set_phase, claim, turn_at, store, value_of,
}
use spoti_flac_mobile.Deezer.Flights.Leaders.{
  Leads, leads, Keeps, keep-Keeps, claim-Keeps, release-Keeps, append_cases,
}

module _ {V : Type 0} where
  pub leads-look : (checked : Option Text) (cached : Option V) → leads (look checked cached) ≡ none
  leads-look (some m) cached = refl
  leads-look none none = refl
  leads-look none (some v) = refl

  leads-hear : (f : ℕ) (result : Option (Option (Answer V))) → leads (hear f result) ≡ none
  leads-hear f none = refl
  leads-hear f (some none) = refl
  leads-hear f (some (some (ok v))) = refl
  leads-hear f (some (some (err (cancelled m)))) = refl
  leads-hear f (some (some (err (failed m)))) = refl
  leads-hear f (some (some (err (transport m)))) = refl
  leads-hear f (some (some (err closed))) = refl
  leads-hear f (some (some (err busy))) = refl

  leads-wait_round :
      (f : ℕ) (checked : Option Text) (result : Option (Option (Answer V)))
      → leads (wait_round f checked result) ≡ none
  leads-wait_round f (some m) result = refl
  leads-wait_round f none result = leads-hear f result

  -- A caller that does not begin to lead.
  quiet-Keeps :
      (w : World V) (i : ℕ) (key : Text) (phase : Phase V)
      → Keeps w
      → leads phase ≡ none
      → Keeps (set_phase i key phase w)
  quiet-Keeps w i key phase k e =
      keep-Keeps w i key phase w.cache w.results k refl (λ f led. absurd (cc))

  claim_found-Keeps :
      (w : World V) (i : ℕ) (key : Text) (o : Option ℕ)
      → Keeps w
      → BTreeMap.get key w.flights ≡ o
      → Keeps (claim i key o w)
  claim_found-Keeps w i key (some f) k e = quiet-Keeps w i key (waiting f) k refl
  claim_found-Keeps w i key none k e =
      if_cases Keeps (leb 64 (length w.flights)) (set_phase i key (returned (err busy)) w) _
        (λ _. quiet-Keeps w i key (returned (err busy)) k refl)
        (λ room. claim-Keeps w i key k (ground arith) e)

  lead-Keeps :
      (w : World V) (i : ℕ) (key : Text) (f : ℕ) (p : Answer V × Cache.Cache V)
      → Keeps w
      → Leads w i key f
      → Keeps (lead i key f w p)
  lead-Keeps w i key f (answer, c) k mine =
      keep-Keeps w i key (fetched f answer) c w.results k refl
        (λ g e. subst (λ x. Leads w i key x) (some_inj.0 e) mine)

  act-Keeps :
      (phase : Phase V) (i : ℕ) (c : Caller V) (t : Turn V) (w : World V)
      → Keeps w
      → get_elem? w.callers i ≡ some c
      → c.phase ≡ phase
      → Keeps (act phase i c.key t w)
  unfolding act
  act-Keeps calling i c t w k at p = quiet-Keeps w i c.key _ k (leads-look t.checked _)
  act-Keeps missed i c t w k at p =
      claim_found-Keeps w i c.key (BTreeMap.get c.key w.flights) k refl
  act-Keeps (waiting f) i c t w k at p = quiet-Keeps w i c.key _ k (leads-wait_round f t.checked _)
  act-Keeps (leading f) i c t w k at p =
      lead-Keeps w i c.key f
        (store c.key t w (value_of (Cache.get searches c.key t.now w.cache) t.fetch)) k
        (c, at, refl, ap leads p)
  act-Keeps (fetched f answer) i c t w k at p =
      release-Keeps w i c.key f answer k (c, at, refl, ap leads p)
  act-Keeps (removed f answer) i c t w k at p =
      keep-Keeps w i c.key (returned answer) w.cache (set w.results f (some answer)) k
        (length-set w.results f (some answer)) (λ g e. absurd (cc))
  act-Keeps (returned answer) i c t w k at p = k

  turn_at-Keeps :
      (o : Option (Caller V)) (i : ℕ) (t : Turn V) (w : World V)
      → Keeps w
      → get_elem? w.callers i ≡ o
      → Keeps (turn_at o i t w)
  turn_at-Keeps none i t w k e = k
  turn_at-Keeps (some c) i t w k e = act-Keeps c.phase i c t w k e refl

  Leads-enter :
      (w : World V) (name : Text) (j : ℕ) (k : Text) (f : ℕ)
      → Leads (enter name w) j k f
      → Leads w j k f
  unfolding enter
  Leads-enter w name j k f (c, there, named, led) =
      elim (append_cases w.callers j (record { key = name; phase = calling }) c there) [
        | inl before ↦ (c, before, named, led)
        | inr (_, same) ↦ let none_led = ap (λ x. leads x.phase) (sym same) ∙ led in absurd (cc)
      ]

  enter-Keeps : (w : World V) (name : Text) → Keeps w → Keeps (enter name w)
  unfolding enter
  enter-Keeps w name (sorted, size, bounded, held, unique) = (
    sorted,
    size,
    bounded,
    (λ j k f l. held j k f (Leads-enter w name j k f l)),
    λ j l k o f a b. unique j l k o f (Leads-enter w name j k f a) (Leads-enter w name l o f b),
  )

  pub Reach-Keeps : {w : World V} → Reach w → Keeps w
  unfolding turn BTreeMap.get
  Reach-Keeps (begin c) = (
    tt,
    omega arith,
    (λ k f g. absurd (cc)),
    (λ j k f l. absurd (ground (arith, l.1))),
    λ j l k o f a b. absurd (ground (arith, a.1)),
  )
  Reach-Keeps (call {w} name r) = enter-Keeps w name (Reach-Keeps r)
  Reach-Keeps (go {w} i t r) = turn_at-Keeps (get_elem? w.callers i) i t w (Reach-Keeps r) refl

  -- Whatever the callers find at their turns, in any order: two callers that lead a fetch of the same
  -- key are one caller, its flight is in the map, and at most 64 flights are.
  pub Leads-unique :
      {w : World V} (i j : ℕ) (key : Text) (f g : ℕ)
      → Reach w
      → Leads w i key f
      → Leads w j key g
      → (i ≡ j) × (BTreeMap.get key w.flights ≡ some f) × (length w.flights ≤ 64)
  Leads-unique {w} i j key f g r a b =
      let (_, size, _, held, unique) = Reach-Keeps r in
      let g≡f : g ≡ f = some_inj.0 (sym (held j key g b) ∙ held i key f a) in
      (unique i j key key f a (subst (λ x. Leads w j key x) g≡f b), held i key f a, size)
