-- ===== src/Extensions/Segments/Attempts.antt =====
-- rust_backend/crates/extensions/src/download/segments.rs: what one attempt of `fetch` gives.
use spoti_flac_mobile.Extensions.Segments.Bodies.{
  IsBody, Counted, read_body-Counted, Appends, read_body-Appends, IsBody-read_body,
}
use spoti_flac_mobile.Prelude.{
  ℕ, ◌+◌, ◌-◌, ◌≤◌, ◌<◌, ◌≡◌, refl, subst, true, some, List, [], arith, length, leb, ltb, ◌==◌,
  ◌&&◌, ◌||◌, not, if◌then◌else◌, if_cases, Option-cases, inl, inr, Bool, ◌≢◌, sym, false,
  Bool-cases,
}
use spoti_flac_mobile.Prelude.Int.{ℤ}
use spoti_flac_mobile.Extensions.Segments.Writing.{Completed}
use spoti_flac_mobile.Extensions.Segments.Fetch.{
  Attempt, Response, read_body, take_body, try_stream, try_once, after_failure, Failure, Outcome,
  fetched, given_up, to_retry, is_expected, new_failure, cancelled, storage_error,
  transient_network, retryable, status_failure,
}

module _ (refresh : List ℤ) (attempts : ℕ) (meets : ℕ → Attempt) where
  abbrev pub Promised : ℕ → Completed → Type 0
  Promised attempt c =
      (r : Response) × ((meets attempt).response ≡ some r)
      × (200 ≤ r.status)
      × (r.status < 300)
      × (is_expected r.expected c.size ≡ true)
      × IsBody (meets attempt).reads c.content

  -- Why a failed attempt is the last.
  pub data IsLast (attempt : ℕ) : Type 0 where
    no_other : attempt ≡ attempts → IsLast attempt
    barred : (meets attempt).stopped_before ≡ true → IsLast attempt
    fileless : (meets attempt).no_file ≡ true → IsLast attempt
    stopped : (meets attempt).stopped_after ≡ true → IsLast attempt
    stopped_in_wait : (meets attempt).stopped_waiting ≡ true → IsLast attempt
    refused :
        (r : Response)
        → (meets attempt).response ≡ some r
        → retryable r.status ≡ false
        → IsLast attempt

  status_failure-IsLast :
      (attempt : ℕ) (r : Response)
      → (meets attempt).response ≡ some r
      → (not (retryable r.status) || attempt == attempts) ≡ true
      → IsLast attempt
  status_failure-IsLast attempt r e h = elim (Bool-cases (retryable r.status)) [
    | inl retried ↦ no_other (ground (arith, retried, h))
    | inr other ↦ refused r e other
  ]

  -- An attempt gives a whole body with at least one byte, and counts it; or it counts nothing, and is the last
  -- for a reason or not the last.
  pub data Tried (attempt received : ℕ) : Outcome × ℕ → Type 0 where
    whole :
        (c : Completed)
        → 0 < c.size
        → c.size ≡ length c.content
        → Promised attempt c
        → Tried attempt received (fetched c, received + c.size)
    failed : (e : Failure) → IsLast attempt → Tried attempt received (given_up e, received)
    again : (e : Failure) → Tried attempt received (to_retry e, received)

  take_body-Tried :
      (attempt received : ℕ) (r : Response) (y : Bool × List ℕ × ℕ)
      → (meets attempt).response ≡ some r
      → 200 ≤ r.status
      → r.status < 300
      → Counted [] received y
      → Appends (meets attempt).reads [] y
      → Tried attempt received (take_body attempt r y)
  take_body-Tried attempt received r (well, content, received') e lo hi k whole_body =
      let size = length content in
      let all : received' ≡ received + size = omega (arith, k.counted) in
      let none_left : received' - size ≡ received = omega (arith, k.counted) in
      let body_of : well ≡ true → IsBody (meets attempt).reads content = λ ended_well.
        let (body, is_body, is) = whole_body ended_well in
        subst (IsBody (meets attempt).reads) (sym is) is_body in
      if_cases (Tried attempt received) (well && is_expected r.expected size && ltb 0 size)
        (fetched (record { content = content; size = size }), received')
        (to_retry (new_failure transient_network attempt), received' - size)
        (λ h. rw all (
          whole (record { content = content; size = size }) (ground (arith, h)) refl
            (r, e, lo, hi, ground (arith, h), body_of (ground (arith, h)))))
        (λ h. rw none_left (again (new_failure transient_network attempt)))

  try_stream-Tried :
      (attempt received : ℕ)
      → Tried attempt received (try_stream refresh attempts attempt (meets attempt) received)
  unfolding try_stream
  try_stream-Tried attempt received = elim (Option-cases (meets attempt).response) [
    | inl unreachable ↦
        subst (Tried attempt received) (ground (arith, unreachable))
          (again (new_failure transient_network attempt))
    | inr (r, e) ↦ subst (Tried attempt received) (ground (arith, e)) (
        if_cases (Tried attempt received) (leb 200 r.status && ltb r.status 300)
          (take_body attempt r (read_body (meets attempt).reads [] received))
          (if not (retryable r.status) || attempt == attempts
            then (given_up (status_failure refresh r attempt), received)
            else (to_retry (status_failure refresh r attempt), received))
          (λ h.
            take_body-Tried attempt received r _ e (ground (arith, h)) (ground (arith, h))
              (read_body-Counted (meets attempt).reads [] received)
              (read_body-Appends (meets attempt).reads [] received))
          (λ h.
            if_cases (Tried attempt received) (not (retryable r.status) || attempt == attempts) _ _
              (λ g. failed (status_failure refresh r attempt) (status_failure-IsLast attempt r e g))
              (λ g. again (status_failure refresh r attempt))))
  ]

  abbrev followed : ℕ → Outcome × ℕ → Outcome × ℕ
  followed attempt (o, received') = (after_failure attempts attempt (meets attempt) o, received')

  followed-Tried :
      (attempt received : ℕ) {y : Outcome × ℕ}
      → Tried attempt received y
      → Tried attempt received (followed attempt y)
  followed-Tried attempt received (whole c some_bytes counted promised) =
      whole c some_bytes counted promised
  followed-Tried attempt received (failed e last) = failed e last
  followed-Tried attempt received (again e) =
      if_cases (λ o. Tried attempt received (o, received)) (meets attempt).stopped_after _ _
        (λ h. failed (new_failure cancelled attempt) (stopped h))
        (λ h.
          if_cases (λ o. Tried attempt received (o, received)) (attempt == attempts) _ _
            (λ g. failed e (no_other (ground (arith, g))))
            (λ g.
              if_cases (λ o. Tried attempt received (o, received)) (meets attempt).stopped_waiting _
                _ (λ w. failed (new_failure cancelled attempt) (stopped_in_wait w)) (λ w. again e)))

  pub try_once-Tried :
      (attempt received : ℕ)
      → Tried attempt received (try_once refresh attempts attempt (meets attempt) received)
  unfolding try_once
  try_once-Tried attempt received =
      if_cases (Tried attempt received) (meets attempt).stopped_before _ _
        (λ e. failed (new_failure cancelled attempt) (barred e))
        (λ e.
          if_cases (Tried attempt received) (meets attempt).no_file _ _
            (λ e. failed (new_failure storage_error attempt) (fileless e))
            (λ e. followed-Tried attempt received (try_stream-Tried attempt received)))

  -- After the last attempt there is no other.
  followed-again :
      (attempt : ℕ) (o : Outcome) (e : Failure)
      → after_failure attempts attempt (meets attempt) o ≡ to_retry e
      → attempt ≢ attempts
  followed-again attempt (fetched c) e h = absurd (cc)
  followed-again attempt (given_up e') e h = absurd (cc)
  followed-again attempt (to_retry e') e h = λ last. absurd (ground (arith, h, last))

  pub try_once-again :
      (attempt received : ℕ) (e : Failure)
      → (try_once refresh attempts attempt (meets attempt) received).0 ≡ to_retry e
      → attempt ≢ attempts
  unfolding try_once
  try_once-again attempt received e h =
      followed-again attempt (try_stream refresh attempts attempt (meets attempt) received).0 e
        (ground (arith, h))

  -- An attempt that meets a whole body of a byte or more, and nothing in its way.
  pub record IsGood (attempt : ℕ) : Type 0 where
    pub let_in : (meets attempt).stopped_before ≡ false
    pub with_file : (meets attempt).no_file ≡ false
    pub body : List ℕ
    pub some_bytes : 0 < length body
    pub promised : Promised attempt (record { content = body; size = length body })

  abbrev pub whole_of : List ℕ → Completed
  whole_of body = record { content = body; size = length body }

  IsGood-try_stream :
      (attempt received : ℕ) (g : IsGood attempt)
      → (try_stream refresh attempts attempt (meets attempt) received).0 ≡ fetched (whole_of g.body)
  unfolding try_stream
  IsGood-try_stream attempt received g =
      let (r, e, lo, hi, expected, is_body) = g.promised in
      let (n, reads) = IsBody-read_body (meets attempt).reads g.body [] received is_body in
      let success : (leb 200 r.status && ltb r.status 300) ≡ true = ground (arith, lo, hi) in
      let accepted : (is_expected r.expected (length g.body) && ltb 0 (length g.body)) ≡ true =
        ground (arith, expected, g.some_bytes) in
      rw e (rw success (rw reads (rw accepted refl)))

  pub IsGood-try_once :
      (attempt received : ℕ) (g : IsGood attempt)
      → (try_once refresh attempts attempt (meets attempt) received).0 ≡ fetched (whole_of g.body)
  unfolding try_once
  IsGood-try_once attempt received g =
      rw (g.let_in) (rw (g.with_file) (rw (IsGood-try_stream attempt received g) refl))
