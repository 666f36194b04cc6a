-- ===== src/Extensions/Segments/Fetch.antt =====
-- rust_backend/crates/extensions/src/download/segments.rs: `fetch`, a worker's attempts at a segment,
-- with the failures of download/mod.rs. What an attempt meets is given; how long it waits for the
-- next one is left out, and so is what the other workers add to `received` meanwhile.
use spoti_flac_mobile.Prelude.{
  ℕ, zero, suc, ◌+◌, ◌-◌, ◌/◌, min, max, Bool, true, false, not, ◌&&◌, ◌||◌, Option, none, some,
  List, [], ◌∷◌, ◌++◌, length, ltb, leb, ◌==◌, if◌then◌else◌,
}
use spoti_flac_mobile.Prelude.Int.{ℤ, pos, negsuc, eq_ℤ}
use spoti_flac_mobile.Prelude.Result.{Result, ok, err}
use spoti_flac_mobile.Extensions.Segments.Writing.{Completed}

pub data ErrorType : Type 0 where
  cancelled storage_error transient_network rate_limited expired_stream http_error : ErrorType

pub record Failure : Type 0 where
  pub error_type : ErrorType
  pub attempts : ℕ
  pub http_status : ℕ
  pub retry_after_seconds : ℕ

abbrev pub new_failure : ErrorType → ℕ → Failure
new_failure e attempts = record {
  error_type = e;
  attempts = attempts;
  http_status = 0;
  retry_after_seconds = 0;
}

-- The headers as they are read: the length or -1, and the nanoseconds until a retry.
pub record Response : Type 0 where
  pub status : ℕ
  pub expected : ℤ
  pub retry_nanos : ℤ

unfoldable pub retryable : ℕ → Bool
retryable status = status == 408 || status == 425 || status == 429 || leb 500 status

unfoldable pub contains : ℤ → List ℤ → Bool
contains a [] = false
contains a (b ∷ bs) = eq_ℤ a b || contains a bs

abbrev pub retry_seconds : ℤ → ℕ
retry_seconds (negsuc n) = 0
retry_seconds (pos zero) = 0
retry_seconds (pos (suc n)) = max ((min (suc n) 120000000000 + 500000000) / 1000000000) 1

unfoldable pub status_failure : List ℤ → Response → ℕ → Failure
unfolding retryable contains
status_failure refresh r attempt = record {
  error_type =
      if r.status == 429
      then rate_limited
      else if contains (pos r.status) refresh
      then expired_stream
      else if retryable r.status
      then transient_network
      else http_error;
  attempts = attempt;
  http_status = r.status;
  retry_after_seconds = retry_seconds r.retry_nanos;
}

-- A read with its bytes, or a failure of the read or of the write; the end of the body is the end of
-- the list.
pub data Read : Type 0 where
  chunk : List ℕ → Read
  unread unwritten : Read

-- The loop over the body: whether it ended well, the content of the file, and `received`.
unfoldable pub read_body : List Read → List ℕ → ℕ → Bool × List ℕ × ℕ
read_body [] content received = (true, content, received)
read_body (unread ∷ reads) content received = (false, content, received)
read_body (unwritten ∷ reads) content received = (false, content, received)
read_body (chunk bytes ∷ reads) content received =
    let more = read_body reads (content ++ bytes) (received + length bytes) in
    if length bytes == 0 then (true, content, received) else more

-- What an attempt meets: the answers of `check` before it, after it and in the wait that follows.
pub record Attempt : Type 0 where
  pub stopped_before : Bool
  pub no_file : Bool
  pub response : Option Response
  pub reads : List Read
  pub stopped_after : Bool
  pub stopped_waiting : Bool

pub data Outcome : Type 0 where
  fetched : Completed → Outcome
  given_up : Failure → Outcome
  to_retry : Failure → Outcome

abbrev pub is_expected : ℤ → ℕ → Bool
is_expected (negsuc n) size = true
is_expected (pos zero) size = true
is_expected (pos (suc n)) size = size == suc n

-- The body of a response that is a success. What it has received counts only if all of it came.
abbrev pub take_body : ℕ → Response → Bool × List ℕ × ℕ → Outcome × ℕ
take_body attempt r (well, content, received) =
    let size = length content in
    if well && is_expected r.expected size && ltb 0 size
    then (fetched (record { content = content; size = size }), received)
    else (to_retry (new_failure transient_network attempt), received - size)

unfoldable pub try_stream : List ℤ → ℕ → ℕ → Attempt → ℕ → Outcome × ℕ
unfolding read_body status_failure retryable
try_stream refresh attempts attempt a received = elim a.response [
  | none ↦ (to_retry (new_failure transient_network attempt), received)
  | some r ↦
      if leb 200 r.status && ltb r.status 300
      then take_body attempt r (read_body a.reads [] received)
      else if not (retryable r.status) || attempt == attempts
      then (given_up (status_failure refresh r attempt), received)
      else (to_retry (status_failure refresh r attempt), received)
]

-- What follows a failure: another attempt, unless this was the last or `check` fails.
abbrev pub after_failure : ℕ → ℕ → Attempt → Outcome → Outcome
after_failure attempts attempt a (fetched c) = fetched c
after_failure attempts attempt a (given_up e) = given_up e
after_failure attempts attempt a (to_retry e) =
    if a.stopped_after
    then given_up (new_failure cancelled attempt)
    else if attempt == attempts
    then given_up e
    else if a.stopped_waiting
    then given_up (new_failure cancelled attempt)
    else to_retry e

unfoldable pub try_once : List ℤ → ℕ → ℕ → Attempt → ℕ → Outcome × ℕ
unfolding try_stream
try_once refresh attempts attempt a received =
    if a.stopped_before
    then (given_up (new_failure cancelled attempt), received)
    else if a.no_file
    then (given_up (new_failure storage_error attempt), received)
    else (let (o, received') = try_stream refresh attempts attempt a received in
        (after_failure attempts attempt a o, received'))

-- The attempts that are left, counted down; the number of this one; what each meets. `none` is the
-- panic behind the loop.
unfoldable pub fetch_from :
    List ℤ → ℕ → ℕ → ℕ → (ℕ → Attempt) → ℕ → Option (Result Completed Failure × ℕ)
fetch_from refresh attempts zero attempt meets received = none
fetch_from refresh attempts (suc left) attempt meets received =
    let (o, received') = try_once refresh attempts attempt (meets attempt) received in
    elim o [
      | fetched c ↦ some (ok c, received')
      | given_up e ↦ some (err e, received')
      | to_retry e ↦ fetch_from refresh attempts left (attempt + 1) meets received'
    ]

unfoldable pub fetch_segment :
    List ℤ → ℕ → (ℕ → Attempt) → ℕ → Option (Result Completed Failure × ℕ)
unfolding fetch_from
fetch_segment refresh attempts meets received =
    fetch_from refresh attempts attempts 1 meets received
