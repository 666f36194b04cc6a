-- ===== src/Progress/Subscription.antt =====
-- rust_backend/crates/core/src/progress/subscription.rs: a consumer that waits for a change.
use spoti_flac_mobile.Prelude.{
  ℕ, ◌-◌, Bool, true, Option, none, some, List, [], ◌∷◌, ◌==◌, min, if◌then◌else◌, false, ◌+◌,
}
use spoti_flac_mobile.Prelude.Int.{ℤ, pos, negsuc, ltb_ℤ}
use spoti_flac_mobile.Prelude.Result.{Result, ok, err}
use spoti_flac_mobile.Progress.Item.{Arch, Floats}
use spoti_flac_mobile.Progress.Registry.{
  ProgressError, subscription_closed, Json, empty_text, State, Shared, check,
}
use spoti_flac_mobile.Progress.Reads.{delta}

pub record ProgressSubscription : Type 0 where
  pub closed : Bool

-- `None` where the registry is closed: `subscribe` fails.
unfoldable pub subscribe : {F : Type 0} → Shared F → Result ProgressSubscription ProgressError
unfolding check
subscribe s = elim (check s.state) [ err e ↦ err e | ok _ ↦ ok (record { closed = false }) ]

unfoldable pub close :
    {F : Type 0} → ProgressSubscription → Shared F → ProgressSubscription × Shared F
close c s = (record { closed = true }, record s { changed = s.changed + 1 })

-- The bounded wait, in milliseconds. The argument is an `i64`.
unfoldable pub wait_bound : ℤ → ℕ
wait_bound (negsuc n) = 15000
wait_bound (pos n) = if n == 0 then 15000 else min n 60000

-- What a waiter finds each time that it holds the lock, and the milliseconds since it started.
pub record Observation (F : Type 0) : Type 0 where
  pub subscription : ProgressSubscription
  pub state : State F
  pub elapsed : ℕ

module _ (fl : Floats) (arch : Arch) where
  open fl use {F}

  -- One round of the loop; `none` is another wait on the condition variable.
  unfoldable pub wait_round : ℤ → ℕ → Observation F → Option (Result (Json F) ProgressError)
  unfolding check delta
  wait_round since timeout o = elim (check o.state) [
    | err e ↦ some (err e)
    | ok _ ↦
        if o.subscription.closed
        then some (err subscription_closed)
        else if ltb_ℤ since o.state.seq
        then some (ok (delta fl arch since o.state))
        else if timeout - o.elapsed == 0
        then some (ok empty_text)
        else none
  ]

  unfoldable pub wait_rounds : ℤ → ℕ → List (Observation F) → Option (Result (Json F) ProgressError)
  wait_rounds since timeout [] = none
  wait_rounds since timeout (o ∷ os) = elim (wait_round since timeout o) [
    | some r ↦ some r
    | none ↦ wait_rounds since timeout os
  ]

  unfoldable pub wait_delta : ℤ → ℤ → List (Observation F) → Option (Result (Json F) ProgressError)
  unfolding wait_bound wait_rounds
  wait_delta since timeout_ms os = wait_rounds since (wait_bound timeout_ms) os
