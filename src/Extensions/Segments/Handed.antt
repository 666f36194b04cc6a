-- ===== src/Extensions/Segments/Handed.antt =====
-- rust_backend/crates/extensions/src/download/segments.rs: no step of a transfer hands a segment out
-- twice, or takes more places than there are workers.
use spoti_flac_mobile.Prelude.{ℕ, ◌+◌, ◌≤◌, ◌≡◌, refl, List, [], ◌∷◌, ◌++◌, arith, length-append}
use spoti_flac_mobile.Prelude.Result.{Result, ok, err}
use spoti_flac_mobile.Extensions.Segments.Store.{SegmentOutput, Directory, Failed}
use spoti_flac_mobile.Extensions.Segments.Writing.{Completed}
use spoti_flac_mobile.Extensions.Segments.Jobs.{Transfer, begin, take_result, without, Pending}
use spoti_flac_mobile.Extensions.Segments.Counts.{
  count-append, fetched-append, count-without, length-without_le, count-count_from,
  length-count_from, total, places, errors, errors-append,
}
use spoti_flac_mobile.Extensions.Segments.Assembled.{Source}
use spoti_flac_mobile.Extensions.Segments.Steps.{
  Step, take_job, fetch, fetch_failed, thread_failed, receive, Reach, here, next, fetched_one,
}
use spoti_flac_mobile.Extensions.Segments.Places.{IsCounted, fail-IsCounted, assemble-IsCounted}

module _ (workers : ℕ) where
  -- Segments that only change their place.
  module _ (t : Transfer) (k : IsCounted workers t) (queue active : List ℕ)
      (results : List (ℕ × Result Completed Failed)) (pending : Pending) where
    abbrev moved : Transfer
    moved = record t { queue = queue; active = active; results = results; pending = pending }

    moved-IsCounted :
        ((i : ℕ) → total i moved ≤ total i t)
        → (errors results ≡ 0 → errors t.results ≡ 0)
        → ((i : ℕ) → errors results ≡ 0 → total i moved ≡ total i t)
        → places moved ≤ places t
        → IsCounted workers moved
    moved-IsCounted less kept same le = record {
      once = λ i. ground (arith, k.once i, less i);
      within = λ i h. ground (arith, k.within i, less i);
      all = λ i s none_yet p q. ground (arith, k.all i, same i, kept);
      room = omega (arith, k.room, le);
      window = k.window;
      in_range = k.in_range;
      fed = k.fed;
      sending = k.sending;
      ended = k.ended;
      failure = k.failure;
      no_failure = k.no_failure;
    }

  pub take_result-IsCounted :
      (t : Transfer) (i : ℕ) (r : Result Completed Failed)
      (results : List (ℕ × Result Completed Failed))
      → t.results ≡ (i, r) ∷ results
      → IsCounted workers t
      → IsCounted workers (take_result i r (record t { results = results }))
  unfolding take_result
  take_result-IsCounted t i (err e) results h k =
      fail-IsCounted workers e t results k (λ j. ground (arith, h)) (ground (arith, h))
  take_result-IsCounted t i (ok c) results h k =
      moved-IsCounted t k t.queue t.active results ((i, c) ∷ without i t.pending)
        (λ j. ground (arith, h, count-without j i t.pending, k.once i)) (λ z. ground (arith, h))
        (λ j z. ground (arith, h, count-without j i t.pending, k.once i))
        (ground (arith, h, length-without_le i t.pending))

  module _ (source : Source) where
    pub Step-IsCounted :
        {t u : Transfer} → Step source t u → IsCounted workers t → IsCounted workers u
    Step-IsCounted (take_job t i queue h) k =
        moved-IsCounted t k queue (i ∷ t.active) t.results t.pending (λ j. ground (arith, h))
          (λ z. z) (λ j z. ground (arith, h)) (ground (arith, h))
    Step-IsCounted (fetch t before after i content h whole some_bytes) k =
        moved-IsCounted t k t.queue (before ++ after) (t.results ++ (fetched_one i content ∷ []))
          t.pending
          (λ j. ground (
            arith,
            h,
            count-append j before after,
            count-append j before (i ∷ after),
            fetched-append j t.results (fetched_one i content ∷ []),
          ))
          (λ z. ground (arith, z, errors-append t.results (fetched_one i content ∷ [])))
          (λ j z. ground (
            arith,
            h,
            count-append j before after,
            count-append j before (i ∷ after),
            fetched-append j t.results (fetched_one i content ∷ []),
          ))
          (ground (
            arith,
            h,
            length-append before after,
            length-append before (i ∷ after),
            length-append t.results (fetched_one i content ∷ []),
          ))
    Step-IsCounted (fetch_failed t before after i j e h) k =
        moved-IsCounted t k t.queue (before ++ after) (t.results ++ ((j, err e) ∷ [])) t.pending
          (λ j'. ground (
            arith,
            h,
            count-append j' before after,
            count-append j' before (i ∷ after),
            fetched-append j' t.results ((j, err e) ∷ []),
          ))
          (λ z. absurd (ground (arith, z, errors-append t.results ((j, err e) ∷ []))))
          (λ j' z. absurd (ground (arith, z, errors-append t.results ((j, err e) ∷ []))))
          (ground (
            arith,
            h,
            length-append before after,
            length-append before (i ∷ after),
            length-append t.results ((j, err e) ∷ []),
          ))
    Step-IsCounted (thread_failed t e) k =
        fail-IsCounted workers e t t.results k (λ i. omega arith) (omega arith)
    Step-IsCounted (receive t t' i r results rounds h done) k =
        assemble-IsCounted workers rounds _ t' (take_result-IsCounted t i r results h k) done

    pub Reach-IsCounted :
        {t u : Transfer} → Reach source t u → IsCounted workers t → IsCounted workers u
    Reach-IsCounted here k = k
    Reach-IsCounted (next r s) k = Step-IsCounted s (Reach-IsCounted r k)

  pub begin-IsCounted :
      (o : SegmentOutput) (d : Directory)
      → o.state.next_index + workers ≤ o.segments
      → IsCounted workers (begin workers o d)
  unfolding begin
  begin-IsCounted o d h = record {
    once = λ i. ground (arith, count-count_from i o.state.next_index workers);
    within = λ i p. ground (arith, count-count_from i o.state.next_index workers);
    all = λ i s z p q. ground (arith, count-count_from i o.state.next_index workers);
    room = ground (arith, length-count_from o.state.next_index workers);
    window = omega arith;
    in_range = h;
    fed = λ s p. refl;
    sending = λ s. refl;
    ended = λ s. absurd (cc);
    failure = λ s. refl;
    no_failure = λ s. refl;
  }
