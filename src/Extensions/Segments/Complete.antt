-- ===== src/Extensions/Segments/Complete.antt =====
-- rust_backend/crates/extensions/src/download/segments.rs: a transfer that has not failed ends with
-- all segments, and holds no more of them at a time than it has workers.
use spoti_flac_mobile.Prelude.{
  ℕ, ◌≤◌, ◌≡◌, refl, false, none, some, List, [], ◌∷◌, arith, Bool-cases, Option-cases, inl, inr,
  ◌<◌,
}
use spoti_flac_mobile.Prelude.Result.{ok, err}
use spoti_flac_mobile.Extensions.Segments.Store.{SegmentOutput, Directory}
use spoti_flac_mobile.Extensions.Segments.Writing.{append}
use spoti_flac_mobile.Extensions.Segments.Assembled.{Source}
use spoti_flac_mobile.Extensions.Segments.Jobs.{
  Transfer, begin, fail, worker_count, assemble_one, assemble, Round, find,
}
use spoti_flac_mobile.Extensions.Segments.Counts.{total, places, find-none-count}
use spoti_flac_mobile.Extensions.Segments.Steps.{
  Step, take_job, fetch, fetch_failed, thread_failed, receive, Reach, here, next,
}
use spoti_flac_mobile.Extensions.Segments.Places.{IsCounted}
use spoti_flac_mobile.Extensions.Segments.Handed.{Reach-IsCounted, begin-IsCounted}

-- Nothing that could be put together waits, unless something has failed.
abbrev IsDrained : Transfer → Type 0
IsDrained t = t.stop ≡ false → find t.output.state.next_index t.pending ≡ none

-- The inner loop ends when the next segment is missing, or by a failure.
assemble_one-ends :
    (round : Round) (t t' : Transfer) → assemble_one round t ≡ some (false, t') → IsDrained t'
unfolding assemble_one fail
assemble_one-ends round t t' h going =
    elim (Option-cases (find t.output.state.next_index t.pending)) [
      | inl missing ↦ ground (arith, h, missing)
      | inr (c, found) ↦ elim (Option-cases (append round.faults round.turns c t.output)) [
        | inl unfinished ↦ absurd (ground (arith, h, found, unfinished))
        | inr ((err e, o), appended) ↦ absurd (ground (arith, h, found, appended, going))
        | inr ((ok x, o), appended) ↦ absurd (ground (arith, h, found, appended))
      ]
    ]

assemble-IsDrained :
    (rounds : List Round) (t t' : Transfer) → assemble rounds t ≡ some t' → IsDrained t'
unfolding assemble
assemble-IsDrained [] t t' h going = ground (arith, h)
assemble-IsDrained (round ∷ rounds) t t' h going = elim (Option-cases (assemble_one round t)) [
  | inl unfinished ↦ absurd (ground (arith, h, unfinished))
  | inr ((again, u), one) ↦ elim (Bool-cases again) [
    | inl more ↦ assemble-IsDrained rounds u t' (ground (arith, h, one, more)) going
    | inr last ↦ assemble_one-ends round t t' (ground (arith, h, one, last)) going
  ]
]

Step-IsDrained : (source : Source) {t u : Transfer} → Step source t u → IsDrained t → IsDrained u
unfolding fail
Step-IsDrained source (take_job t i queue h) d going = d going
Step-IsDrained source (fetch t before after i content h whole some_bytes) d going = d going
Step-IsDrained source (fetch_failed t before after i j e h) d going = d going
Step-IsDrained source (thread_failed t e) d going = absurd (cc)
Step-IsDrained source (receive t t' i r results rounds h done) d going =
    assemble-IsDrained rounds _ t' done going

Reach-IsDrained : {source : Source} {t u : Transfer} → Reach source t u → IsDrained t → IsDrained u
Reach-IsDrained here d = d
Reach-IsDrained {source} (next r s) d = Step-IsDrained source s (Reach-IsDrained r d)

module _ (source : Source) (max_parallel : ℕ) (o : SegmentOutput) (d : Directory)
    (within : o.state.next_index ≤ o.segments) {t : Transfer}
    (reached : Reach source (begin (worker_count max_parallel o) o d) t) where
  counted : IsCounted (worker_count max_parallel o) t
  unfolding worker_count
  counted =
      Reach-IsCounted (worker_count max_parallel o) source reached
        (begin-IsCounted (worker_count max_parallel o) o d (omega arith))

  -- The jobs and the results that wait, the segments that are fetched and those that are fetched too
  -- early to be put together are together no more than the workers, so no channel is ever full; and
  -- each segment is among them at most once.
  pub Reach-places : (places t ≤ worker_count max_parallel o) × ((i : ℕ) → total i t ≤ 1)
  Reach-places = (omega (arith, counted.room, counted.window), counted.once)

  -- When no segment is on its way between the thread and its workers and nothing has failed, all
  -- segments are put together.
  pub Reach-complete :
      0 < max_parallel
      → o.state.next_index < o.segments
      → t.queue ≡ []
      → t.active ≡ []
      → t.results ≡ []
      → t.first_failure ≡ none
      → t.output.state.next_index ≡ t.output.segments
  unfolding worker_count begin find
  Reach-complete some_workers more no_queue no_active no_results no_failure =
      let going : t.stop ≡ false = counted.no_failure no_failure in
      let drained = Reach-IsDrained reached (λ g. refl) going in
      let gone = find-none-count t.output.state.next_index t.pending drained in
      let all = counted.all t.output.state.next_index going (ground (arith, no_results)) in
      let caught_up : t.output.state.next_index ≡ t.next_job =
        ground (arith, all, gone, no_queue, no_active, no_results, counted.room) in
      let workers : 0 < worker_count max_parallel o = omega arith in
      ground (arith, caught_up, counted.in_range, counted.fed going, workers)
