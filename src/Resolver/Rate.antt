-- ===== src/Resolver/Rate.antt =====
-- rust_backend/crates/providers/src/resolver/rate.rs: the sliding-window rate limiter. Instants are
-- numbers of nanoseconds; the clock is read under the lock, so the readings do not go back.
pub mod Window
pub mod Waiting
use spoti_flac_mobile.Prelude.Text.{Text}
use spoti_flac_mobile.Prelude.{
  ℕ, ◌+◌, ◌-◌, Bool, true, false, List, [], ◌∷◌, ◌++◌, ltb, leb, if◌then◌else◌, length, min, Option,
  some, none,
}
use spoti_flac_mobile.Prelude.Result.{Result, ok, err}
use spoti_flac_mobile.Resolver.Errors.{ResolverError, failed, transport, cancelled, closed, busy}

pub record RateLimiter : Type 0 where
  pub timestamps : List ℕ
  pub maximum : ℕ
  pub window : ℕ

unfoldable pub new : ℕ → ℕ → RateLimiter
new maximum window = record { timestamps = []; maximum = maximum; window = window }

-- The `while` loop, which pops the stamps that have left the window.
unfoldable pub expire : ℕ → ℕ → List ℕ → List ℕ
expire window now [] = []
expire window now (stamp ∷ stamps) =
    let rest = expire window now stamps in if leb window (now - stamp) then rest else stamp ∷ stamps

pub data Attempt : Type 0 where
  granted : Attempt
  sleep : ℕ → Attempt
  panic : Attempt

-- 25 ms.
abbrev pub longest_sleep : ℕ
longest_sleep = 25000000

abbrev pub sleep_for : ℕ → ℕ → List ℕ → Attempt
sleep_for window now [] = panic
sleep_for window now (stamp ∷ stamps) = sleep (min (window - (now - stamp)) longest_sleep)

-- The body of the loop of `wait` under the lock.
unfoldable pub attempt : ℕ → RateLimiter → Attempt × RateLimiter
attempt now l =
    let ts = expire l.window now l.timestamps in
    if ltb (length ts) l.maximum
    then (granted, record l { timestamps = ts ++ (now ∷ []) })
    else (sleep_for l.window now ts, record l { timestamps = ts })

-- For each turn of the loop, what the check answers, the clock, and the limiter as the other threads
-- have left it.
pub record Turn : Type 0 where
  pub check : Result (Unit {0}) Text
  pub now : ℕ
  pub limiter : RateLimiter

unfoldable pub check_active : Result (Unit {0}) Text → Result (Unit {0}) ResolverError
check_active (ok u) = ok u
check_active (err text) = err (cancelled text)

pub data Outcome : Type 0 where
  returned : Result (Unit {0}) ResolverError → Outcome
  -- `unwrap` of the front of an empty queue.
  panicked : Outcome

abbrev pub outcome : Attempt → Option Outcome → Option Outcome
outcome granted rest = some (returned (ok tt))
outcome (sleep duration) rest = rest
outcome panic rest = some panicked

-- A turn, from what its check and its attempt give; `rest` is what the later turns make of it.
abbrev pub turn : Result (Unit {0}) ResolverError → Attempt → Option Outcome → Option Outcome
turn (err e) a rest = some (returned (err e))
turn (ok u) a rest = outcome a rest

-- `wait`; `none` is a wait that is still going on when the turns end.
unfoldable pub wait : List Turn → Option Outcome
wait [] = none
wait (t ∷ turns) =
    let rest = wait turns in turn (check_active t.check) ((attempt t.now t.limiter).0) rest
