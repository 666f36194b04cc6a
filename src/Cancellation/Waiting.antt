-- ===== src/Cancellation/Waiting.antt =====
-- rust_backend/crates/core/src/cancellation.rs: `wait_cancelled` ends in time with the right
-- answer, and no change of the answer goes without a wake-up.
use spoti_flac_mobile.Cancellation.World.Keeps.{Reach-IsConsistent}
use spoti_flac_mobile.Prelude.{
  ℕ, suc, ◌≤◌, ◌<◌, ◌≡◌, refl, false, none, some, List, [], ◌∷◌, ◌++◌, ◌⊎◌, inl, inr, get_elem?,
  arith, Bool, Option-cases, ap, Bool-cases, set_self,
}
use spoti_flac_mobile.Prelude.Int.{ℤ, pos, negsuc}
use spoti_flac_mobile.Prelude.Result.{Result, ok}
use spoti_flac_mobile.Cancellation.{
  CancellationDomain, CancellationError, Shared, notify_all, RequestLease, observers, acquire,
  cancel, cancel_active, reset_if_idle, shutdown,
}
use spoti_flac_mobile.Cancellation.Lease
use spoti_flac_mobile.Cancellation.Lease.{
  Observation, wait_timeout, wait_round, wait_rounds, wait_cancelled, lease_is_cancelled,
}
use spoti_flac_mobile.Cancellation.World.{World, Step, Reach, start}

-- The bound of a wait lies between a millisecond and a minute, whatever the caller asks for.
wait_timeout_bounds :
    (timeout_ms : ℤ) → (0 < wait_timeout timeout_ms) × (wait_timeout timeout_ms ≤ 60000)
unfolding wait_timeout
wait_timeout_bounds (pos n) = ground arith
wait_timeout_bounds (negsuc n) = ground arith

-- A round that ends gives the answer of `is_cancelled` at that moment, and gives up only in time.
round_ends :
    (timeout : ℕ) (o : Observation)
    → timeout ≤ o.elapsed
    → wait_round timeout o ≡ some (lease_is_cancelled o.lease o.shared)
unfolding wait_round lease_is_cancelled
round_ends timeout o late = ground arith

abbrev IsUndecided : ℕ → Observation → Type 0
IsUndecided timeout o = (lease_is_cancelled o.lease o.shared ≡ ok false) × (o.elapsed < timeout)

round_goes_on :
    (timeout : ℕ) (o : Observation) → wait_round timeout o ≡ none → IsUndecided timeout o
unfolding wait_round lease_is_cancelled
round_goes_on timeout o h = (ground arith, ground arith)

round_answers :
    (timeout : ℕ) (o : Observation) (r : Result Bool CancellationError)
    → wait_round timeout o ≡ some r
    → (r ≡ lease_is_cancelled o.lease o.shared) × (r ≡ ok false → timeout ≤ o.elapsed)
unfolding wait_round lease_is_cancelled
round_answers timeout o r h = (ground arith, λ e. ground arith)

abbrev AllUndecided : ℕ → List Observation → Type 0
AllUndecided timeout [] = Unit
AllUndecided timeout (o ∷ os) = IsUndecided timeout o × AllUndecided timeout os

-- Where a wait ends: the observations before, the one that ends it, and the rest.
pub record WaitEnd (timeout : ℕ) (os : List Observation) (r : Result Bool CancellationError)
    : Type 0 where
  pub before : List Observation
  pub last : Observation
  pub after : List Observation
  pub split : os ≡ before ++ (last ∷ after)
  pub undecided : AllUndecided timeout before
  pub answer : r ≡ lease_is_cancelled last.lease last.shared
  pub in_time : r ≡ ok false → timeout ≤ last.elapsed

rounds_end :
    (timeout : ℕ) (os : List Observation) (o : Observation)
    → timeout ≤ o.elapsed
    → (r : Result Bool CancellationError) × (wait_rounds timeout (os ++ (o ∷ [])) ≡ some r)
      × WaitEnd timeout (os ++ (o ∷ [])) r
unfolding wait_rounds
rounds_end timeout [] o late = (
  lease_is_cancelled o.lease o.shared,
  ground (arith, round_ends timeout o late),
  record {
    before = [];
    last = o;
    after = [];
    split = refl;
    undecided = tt;
    answer = refl;
    in_time = λ _. late;
  },
)
rounds_end timeout (p ∷ os) o late = elim (Option-cases (wait_round timeout p)) [
  | inl goes_on ↦
      let (r, e, x) = rounds_end timeout os o late in
      (
        r,
        ground arith,
        record {
          before = p ∷ x.before;
          last = x.last;
          after = x.after;
          split = ap (◌∷◌ p) x.split;
          undecided = (round_goes_on timeout p goes_on, x.undecided);
          answer = x.answer;
          in_time = x.in_time;
        },
      )
  | inr (r, e) ↦ (
    r,
    ground arith,
    record {
      before = [];
      last = p;
      after = os ++ (o ∷ []);
      split = refl;
      undecided = tt;
      answer = (round_answers timeout p r e).0;
      in_time = (round_answers timeout p r e).1;
    },
  )
]

-- Once a wait is woken after its bound, it has returned: with the answer that `is_cancelled` gave
-- when it held the lock for the last time. Before that it was neither cancelled nor late, and it
-- gives up with `false` only when the bound has passed. The bound is at most a minute.
pub wait_cancelled-ends :
    (timeout_ms : ℤ) (os : List Observation) (o : Observation)
    → 60000 ≤ o.elapsed
    → (r : Result Bool CancellationError) × (wait_cancelled timeout_ms (os ++ (o ∷ [])) ≡ some r)
      × WaitEnd (wait_timeout timeout_ms) (os ++ (o ∷ [])) r
unfolding wait_cancelled
wait_cancelled-ends timeout_ms os o late =
    rounds_end (wait_timeout timeout_ms) os o (omega (arith, wait_timeout_bounds timeout_ms))

-- All that sleeps on the state was woken: the condition variable, and then the observers.
abbrev pub WasNotified : Shared → Shared → Type 0
WasNotified s s' = s'.changed ≡ s.changed ++ (notify_all ∷ observers s)

-- The number that a lease has after a step.
abbrev pub follow : {w u : World} → Step w u → ℕ → ℕ
follow (Step.acquire w id l s h room) i = suc i
follow (Step.cancel w id) i = i
follow (Step.cancel_active w) i = i
follow (Step.reset_if_idle w id) i = i
follow (Step.shutdown w) i = i
follow (Step.release w j l at) i = i
follow (Step.observe_thread w t) i = i
follow (Step.drop_threads w strong) i = i

-- No lost wake-up: a step of a reachable registry that changes what some lease answers to
-- `is_cancelled`, its release included, notifies the waiters and the observers.
pub Step-notifies :
    (d : CancellationDomain) (strong : ℕ → Bool) (has_waker : Bool) {w u : World}
    → Reach (start d strong has_waker) w
    → (st : Step w u) (i : ℕ) (l m : RequestLease) → get_elem? w.leases i ≡ some l
    → get_elem? u.leases (follow st i) ≡ some m
    → (lease_is_cancelled m u.shared ≡ lease_is_cancelled l w.shared)
      ⊎ WasNotified w.shared u.shared
unfolding lease_is_cancelled acquire cancel cancel_active reset_if_idle shutdown Lease.release
    Lease.observe_thread
Step-notifies d strong has_waker r (Step.acquire w id l' s h room) i l m at at' =
    inl (ground (arith, (Reach-IsConsistent d strong has_waker r).allocated i l at))
Step-notifies d strong has_waker r (Step.cancel w id) i l m at at' = ground arith
Step-notifies d strong has_waker r (Step.cancel_active w) i l m at at' = ground arith
Step-notifies d strong has_waker r (Step.reset_if_idle w id) i l m at at' = inl (ground arith)
Step-notifies d strong has_waker r (Step.shutdown w) i l m at at' = inr (ground arith)
Step-notifies d strong has_waker r (Step.release w j l' atj) i l m at at' =
    elim (Bool-cases l'.released) [
      | inl old ↦ inl (ground (arith, set_self w.leases j l' atj))
      | inr live ↦ inr (ground arith)
    ]
Step-notifies d strong has_waker r (Step.observe_thread w t) i l m at at' = inl (ground arith)
Step-notifies d strong has_waker r (Step.drop_threads w strong') i l m at at' = inl (ground arith)
