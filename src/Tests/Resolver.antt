-- ===== src/Tests/Resolver.antt =====
-- Tests and witnesses for the rate limiter.
use spoti_flac_mobile.Prelude.{ℕ, [], ◌∷◌, ◌++◌, ◌≡◌, refl, some, arith}
use spoti_flac_mobile.Prelude.Result.{Result, ok}
use spoti_flac_mobile.Resolver.Errors.{ResolverError}
use spoti_flac_mobile.Resolver.Rate.{
  RateLimiter, attempt, new, Turn, wait, expire, check_active, returned,
}
use spoti_flac_mobile.Resolver.Rate.Window.{Reach, Reach-IsSpaced, IsSpaced, grant, refuse, start}
use spoti_flac_mobile.Resolver.Rate.Waiting.{wait-returned}

-- One grant in 30, at 5 and, after a refusal at 20, at 35.
abbrev first : RateLimiter
first = (attempt 5 (new 1 30)).1

abbrev second : RateLimiter
second = (attempt 20 first).1

abbrev third : RateLimiter
third = (attempt 35 second).1

three_attempts : Reach third (35 ∷ 5 ∷ []) 35
unfolding attempt expire new
three_attempts =
    grant 35
      (refuse {duration = 15} 20 (grant 5 (start 1 30) (omega arith) refl) (omega arith) refl)
      (omega arith) refl

Reach-IsSpaced_example : IsSpaced third.maximum third.window (35 ∷ 5 ∷ [])
Reach-IsSpaced_example = Reach-IsSpaced third (35 ∷ 5 ∷ []) 35 three_attempts

abbrev turn_at : ℕ → Turn
turn_at now = record {
  check = ok tt;
  now = now;
  limiter = record { timestamps = 5 ∷ []; maximum = 1; window = 30 };
}

wait_test : wait (turn_at 20 ∷ turn_at 35 ∷ []) ≡ some (returned (ok tt))
unfolding wait attempt expire check_active
wait_test = refl

wait-returned_example :
    (r : Result (Unit {0}) ResolverError) × (wait ((turn_at 20 ∷ []) ++ (turn_at 35 ∷ []))
      ≡ some (returned r))
wait-returned_example =
    wait-returned (turn_at 20 ∷ []) (turn_at 35) [] (omega arith, tt) (omega arith)
      (omega arith, tt)
