-- ===== src/Resolver/Rate/Waiting.antt =====
-- rust_backend/crates/providers/src/resolver/rate.rs: the turns of `wait`.
use spoti_flac_mobile.Prelude.{
  ℕ, ◌-◌, ◌≤◌, ◌<◌, ◌≡◌, refl, Bool, true, false, Option, some, List, [], ◌∷◌, ◌++◌, length, arith,
}
use spoti_flac_mobile.Prelude.Result.{Result, ok, err}
use spoti_flac_mobile.Resolver.Errors.{ResolverError}
use spoti_flac_mobile.Resolver.Rate.{
  panic, RateLimiter, attempt, expire, Attempt, Turn, wait, Outcome, check_active, sleep_for,
  granted, sleep, returned, turn,
}

-- Every stamp has left the window by `now`.
abbrev pub HasExpired : ℕ → ℕ → List ℕ → Type 0
HasExpired window now [] = Unit
HasExpired window now (t ∷ ts) = (window ≤ now - t) × HasExpired window now ts

abbrev pub AllPositive : List Turn → Type 0
AllPositive [] = Unit
AllPositive (t ∷ turns) = (0 < t.limiter.maximum) × AllPositive turns

expire-HasExpired :
    (window now : ℕ) (ts : List ℕ) → HasExpired window now ts → expire window now ts ≡ []
unfolding expire
expire-HasExpired window now [] h = refl
expire-HasExpired window now (t ∷ ts) h = ground (arith, expire-HasExpired window now ts)

attempt-HasExpired :
    (now : ℕ) (l : RateLimiter)
    → HasExpired l.window now l.timestamps
    → 0 < l.maximum
    → (attempt now l).0 ≡ granted
unfolding attempt
attempt-HasExpired now l h p = ground (arith, expire-HasExpired l.window now l.timestamps h)

abbrev Returns : Option Outcome → Type 0
Returns o = (r : Result (Unit {0}) ResolverError) × (o ≡ some (returned r))

abbrev is_panic : Attempt → Bool
is_panic panic = true
is_panic a = false

is_panic-sleep_for :
    (window now : ℕ) (ts : List ℕ) → 0 < length ts → is_panic (sleep_for window now ts) ≡ false
is_panic-sleep_for window now [] h = absurd (omega arith)
is_panic-sleep_for window now (t ∷ ts) h = refl

-- A limiter for one grant or more never finds its queue empty when it must wait.
is_panic-attempt :
    (now : ℕ) (l : RateLimiter) → 0 < l.maximum → is_panic ((attempt now l).0) ≡ false
unfolding attempt
is_panic-attempt now l p =
    ground (arith, is_panic-sleep_for l.window now (expire l.window now l.timestamps))

turn-Returns :
    (c : Result (Unit {0}) ResolverError) (a : Attempt) (rest : Option Outcome)
    → is_panic a ≡ false
    → Returns rest
    → Returns (turn c a rest)
turn-Returns (err e) a rest h k = (err e, refl)
turn-Returns (ok u) granted rest h k = (ok tt, refl)
turn-Returns (ok u) (sleep d) rest h k = k
turn-Returns (ok u) panic rest h k = absurd (ground arith)

turn-granted :
    (c : Result (Unit {0}) ResolverError) (a : Attempt) (rest : Option Outcome)
    → a ≡ granted
    → Returns (turn c a rest)
turn-granted (err e) a rest h = (err e, refl)
turn-granted (ok u) granted rest h = (ok tt, refl)
turn-granted (ok u) (sleep d) rest h = absurd (ground arith)
turn-granted (ok u) panic rest h = absurd (ground arith)

-- If the limiters allow one grant or more, `wait` returns, without a panic, no later than at a turn
-- at which every stamp has left the window.
pub wait-returned :
    (turns : List Turn) (t : Turn) (rest : List Turn)
    → AllPositive turns
    → 0 < t.limiter.maximum
    → HasExpired t.limiter.window t.now t.limiter.timestamps
    → (r : Result (Unit {0}) ResolverError) × (wait (turns ++ (t ∷ rest)) ≡ some (returned r))
unfolding wait
wait-returned [] t rest p q h =
    turn-granted (check_active t.check) ((attempt t.now t.limiter).0) (wait rest)
      (attempt-HasExpired t.now t.limiter h q)
wait-returned (u ∷ turns) t rest p q h =
    turn-Returns (check_active u.check) ((attempt u.now u.limiter).0) (wait (turns ++ (t ∷ rest)))
      (is_panic-attempt u.now u.limiter (p.0)) (wait-returned turns t rest (p.1) q h)
