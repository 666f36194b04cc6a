-- ===== src/Deezer/Flights/Answered.antt =====
-- rust_backend/crates/providers/src/deezer/cache.rs: who answers the callers that wait.
use spoti_flac_mobile.Prelude.{
  ap, [], ◌∷◌, some, none, inl, inr, ◌∙◌, Option, List, ℕ, ◌++◌, sym, get_elem?, ◌≡◌, refl,
}
use spoti_flac_mobile.BTreeMap
use spoti_flac_mobile.BTreeMap.{BTreeMap}
use spoti_flac_mobile.Deezer.Flights.{
  calling, begin, call, go, enter, turn, Caller, World, Answer, Text, Reach, Turn, turn_at,
}
use spoti_flac_mobile.Deezer.Flights.Leaders.{append_cases}
use spoti_flac_mobile.Deezer.Flights.Served.{
  carries, waits, Someone, Carries, LeadsFor, Served, Serves, get_elem?-append,
}
use spoti_flac_mobile.Deezer.Flights.Waiters.{act-Serves}

module _ {V : Type 0} where
  turn_at-Serves :
      (o : Option (Caller V)) (i : ℕ) (t : Turn V) (w : World V)
      → Serves w
      → get_elem? w.callers i ≡ o
      → Serves (turn_at o i t w)
  turn_at-Serves none i t w s e = s
  turn_at-Serves (some c) i t w s e = act-Serves c.phase i c t w s e refl

  Someone-append :
      (P : Caller V → Type 0) (cs ds : List (Caller V)) → Someone P cs → Someone P (cs ++ ds)
  Someone-append P cs ds (i, c, there, holds) = (i, c, get_elem?-append cs ds i c there, holds)

  Served-append :
      (cs ds : List (Caller V)) (rs : List (Option (Answer V))) (f : ℕ)
      → Served cs rs f
      → Served (cs ++ ds) rs f
  Served-append cs ds rs f (inl told) = inl told
  Served-append cs ds rs f (inr someone) = inr (Someone-append (Carries f) cs ds someone)

  enter-Serves : (w : World V) (name : Text) → Serves w → Serves (enter name w)
  unfolding enter
  enter-Serves w name (led, placed, served) =
      let v : Caller V = record { key = name; phase = calling } in
      (
        (λ key f g. Someone-append (LeadsFor key f) w.callers (v ∷ []) (led key f g)),
        (λ j c f there carried. elim (append_cases w.callers j v c there) [
          | inl before ↦ placed j c f before carried
          | inr (_, c≡v) ↦ let e = ap (λ x. carries x.phase) (sym c≡v) ∙ carried in absurd (cc)
        ]),
        λ j c f there waits'. elim (append_cases w.callers j v c there) [
          | inl before ↦ Served-append w.callers (v ∷ []) w.results f (served j c f before waits')
          | inr (_, c≡v) ↦ let e = ap (λ x. waits x.phase) (sym c≡v) ∙ waits' in absurd (cc)
        ],
      )

  Reach-Serves : {w : World V} → Reach w → Serves w
  unfolding turn BTreeMap.get
  Reach-Serves (begin c) =
      ((λ key f g. absurd (cc)), (λ j c f there e. absurd (cc)), λ j c f there e. absurd (cc))
  Reach-Serves (call {w} name r) = enter-Serves w name (Reach-Serves r)
  Reach-Serves (go {w} i t r) = turn_at-Serves (get_elem? w.callers i) i t w (Reach-Serves r) refl

  -- Whatever the callers find at their turns, in any order, panics and cancellations included: a
  -- flight that a caller waits for has its answer, or some caller is still to give it.
  pub waits-Served :
      {w : World V} (j : ℕ) (c : Caller V) (f : ℕ)
      → Reach w
      → get_elem? w.callers j ≡ some c
      → waits c.phase ≡ some f
      → Served w.callers w.results f
  waits-Served j c f r there waiting_for = (Reach-Serves r).2 j c f there waiting_for
