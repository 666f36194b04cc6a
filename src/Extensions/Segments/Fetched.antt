-- ===== src/Extensions/Segments/Fetched.antt =====
-- rust_backend/crates/extensions/src/download/segments.rs: what `fetch` gives, and what it adds to the
-- bytes received.
use spoti_flac_mobile.Prelude.{
  ℕ, zero, suc, ◌+◌, ◌≤◌, ◌<◌, ◌≡◌, refl, subst, Option, some, List, arith, length, ◌==◌, inl, inr,
  ◌≢◌, Bool-cases,
}
use spoti_flac_mobile.Prelude.Int.{ℤ}
use spoti_flac_mobile.Prelude.Result.{Result, ok, err}
use spoti_flac_mobile.Extensions.Segments.Writing.{Completed}
use spoti_flac_mobile.Extensions.Segments.Fetch.{
  Attempt, fetch_from, fetch_segment, Failure, Outcome, fetched, given_up, to_retry,
}
use spoti_flac_mobile.Extensions.Segments.Attempts.{
  Promised, IsLast, Tried, whole, failed, again, try_once-Tried, try_once-again, IsGood, whole_of,
  IsGood-try_once,
}

module _ (refresh : List ℤ) (attempts : ℕ) (meets : ℕ → Attempt) where
  -- What a worker gets, and what it has added to the bytes received.
  pub data Fetched (received first : ℕ) : Result Completed Failure × ℕ → Type 0 where
    got :
        (attempt : ℕ) (c : Completed)
        → attempt ≤ attempts
        → 0 < c.size
        → c.size ≡ length c.content
        → Promised refresh attempts meets attempt c
        → Fetched received first (ok c, received + c.size)
    lost :
        (e : Failure) (last : ℕ)
        → first ≤ last
        → last ≤ attempts
        → IsLast refresh attempts meets last
        → ((i : ℕ) → first ≤ i → i ≤ last → ¬ IsGood refresh attempts meets i)
        → Fetched received first (err e, received)

  Fetched-earlier :
      (received first : ℕ) {y : Result Completed Failure × ℕ}
      → ¬ IsGood refresh attempts meets first
      → Fetched received (first + 1) y
      → Fetched received first y
  Fetched-earlier received first bad (got attempt c le some_bytes counted promised) =
      got attempt c le some_bytes counted promised
  Fetched-earlier received first bad (lost e last lo hi why none_good) =
      lost e last (omega (arith, lo)) hi why (λ i le le'. elim (Bool-cases (i == first)) [
        | inl here ↦ subst (λ i. ¬ IsGood refresh attempts meets i) (ground (arith, here)) bad
        | inr other ↦ none_good i (ground (arith, other, le)) le'
      ])

  -- The loop ends with a result.
  abbrev Settles : ℕ → ℕ → Option (Result Completed Failure × ℕ) → Type 0
  Settles received first o =
      (r : Result Completed Failure × ℕ) × (o ≡ some r) × Fetched received first r

  abbrev continued : ℕ → ℕ → Outcome × ℕ → Option (Result Completed Failure × ℕ)
  continued left attempt (o, received') = elim o [
    | fetched c ↦ some (ok c, received')
    | given_up e ↦ some (err e, received')
    | to_retry e ↦ fetch_from refresh attempts left (attempt + 1) meets received'
  ]

  continued-Settles :
      (left attempt received : ℕ) {y : Outcome × ℕ}
      → attempt ≤ attempts
      → Tried refresh attempts meets attempt received y
      → (IsGood refresh attempts meets attempt → (c : Completed) × (y.0 ≡ fetched c))
      → ((e : Failure)
          → y.0 ≡ to_retry e
          → Settles received
              (attempt + 1)
              (fetch_from refresh attempts left (attempt + 1) meets received))
      → Settles received attempt (continued left attempt y)
  continued-Settles left attempt received le (whole c some_bytes counted promised) good more =
      ((ok c, received + c.size), refl, got attempt c le some_bytes counted promised)
  continued-Settles left attempt received le (failed e last) good more =
      let bad : ¬ IsGood refresh attempts meets attempt =
        λ g. (let (c, is) = good g in absurd (cc)) in
      (
        (err e, received),
        refl,
        lost e attempt (omega arith) le last
            (λ i lo hi. subst (λ i. ¬ IsGood refresh attempts meets i) (omega (arith, lo, hi)) bad),
      )
  continued-Settles left attempt received le (again e) good more =
      let bad : ¬ IsGood refresh attempts meets attempt =
        λ g. (let (c, is) = good g in absurd (cc)) in
      let (r, is, h) = more e refl in (r, is, Fetched-earlier received attempt bad h)

  fetch_from-Settles :
      (left attempt received : ℕ)
      → 0 < left
      → attempt + left ≡ attempts + 1
      → Settles received attempt (fetch_from refresh attempts left attempt meets received)
  unfolding fetch_from
  fetch_from-Settles zero attempt received some_left all = absurd (omega arith)
  fetch_from-Settles (suc left) attempt received some_left all =
      continued-Settles left attempt received (omega (arith, all))
        (try_once-Tried refresh attempts meets attempt received)
        (λ g. (
          whole_of refresh attempts meets g.body,
          IsGood-try_once refresh attempts meets attempt received g,
        ))
        (λ e h.
          fetch_from-Settles left (attempt + 1) received
            (not_last left attempt received all
              (try_once-again refresh attempts meets attempt received e h))
            (omega (arith, all)))
    where
      not_last :
          (left attempt received : ℕ)
          → attempt + suc left ≡ attempts + 1
          → attempt ≢ attempts
          → 0 < left
      not_last left attempt received all other = ground (arith, all, other)

  -- With one attempt or more `fetch` ends with a segment or a failure. A segment has a byte or more,
  -- and is all the bytes that the reads of some attempt brought, none of which failed and no write of
  -- them, up to the end of the body of a success whose positive Content-Length, if any, is its size; its
  -- size is what it adds to the bytes received. A failure adds nothing, and comes only if some attempt
  -- was the number allowed, or was stopped, or had no file, or met a status that is not retried, and
  -- neither that attempt nor one before it was let in, had a file, and met such a body.
  pub fetch_segment-Fetched :
      (received : ℕ)
      → 0 < attempts
      → (r : Result Completed Failure × ℕ) × (fetch_segment refresh attempts meets received
          ≡ some r)
        × Fetched received 1 r
  unfolding fetch_segment
  fetch_segment-Fetched received some_attempts =
      fetch_from-Settles attempts 1 received some_attempts (omega arith)
