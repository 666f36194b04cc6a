-- ===== src/Extensions/Segments/Stepping.antt =====
-- rust_backend/crates/extensions/src/download/segments.rs: no step of a transfer makes it unsound.
use spoti_flac_mobile.Extensions.Segments.Sound.{IsSound, IsSegment, AllFetched, AllFetched-append}
use spoti_flac_mobile.Prelude.{
  ℕ, ◌≤◌, ◌≡◌, refl, sym, subst, some, List, [], ◌∷◌, ◌++◌, arith, Bool-cases, inl, inr, ◌==◌,
}
use spoti_flac_mobile.Prelude.Result.{Result, ok, err}
use spoti_flac_mobile.Extensions.Segments.Store.{Failed}
use spoti_flac_mobile.Extensions.Segments.Writing.{Completed}
use spoti_flac_mobile.Extensions.Segments.Assembled.{Source}
use spoti_flac_mobile.Extensions.Segments.Jobs.{Transfer, take_result, find, without, Pending}
use spoti_flac_mobile.Extensions.Segments.Counts.{
  total, find-without, count-without, count-append, fetched-append,
}
use spoti_flac_mobile.Extensions.Segments.Steps.{
  Step, take_job, fetch, fetch_failed, thread_failed, receive, Reach, here, next, fetched_one,
  Reach, next,
}
use spoti_flac_mobile.Extensions.Segments.Places.{IsCounted}
use spoti_flac_mobile.Extensions.Segments.Handed.{take_result-IsCounted, Reach-IsCounted}
use spoti_flac_mobile.Extensions.Segments.Running.{fail-IsSound, assemble-IsSound}

module _ (source : Source) (workers : ℕ) where
  -- Segments that only change their place.
  module _ (t : Transfer) (s : IsSound source t) (queue active : List ℕ)
      (results : List (ℕ × Result Completed Failed)) (pending : Pending) where
    abbrev moved : Transfer
    moved = record t { queue = queue; active = active; results = results; pending = pending }

    moved-IsSound :
        (total t.output.state.next_index moved ≤ total t.output.state.next_index t)
        → AllFetched source t.output.state.fingerprint results
        → ((i : ℕ) (c : Completed)
            → find i pending ≡ some c
            → IsSegment source t.output.state.fingerprint i c)
        → IsSound source moved
    moved-IsSound less coming received = record {
      valid = s.valid;
      recorded = s.recorded;
      received = received;
      coming = coming;
      ready = elim s.ready [ inl r ↦ inl r | inr z ↦ inr (omega (arith, z, less)) ];
      going = s.going;
      unpromoted = s.unpromoted;
    }

  received_more :
      (t : Transfer)
      → IsSound source t
      → (i : ℕ) (c : Completed) → IsSegment source t.output.state.fingerprint i c
      → (j : ℕ) (d : Completed) → find j ((i, c) ∷ without i t.pending) ≡ some d
      → IsSegment source t.output.state.fingerprint j d
  unfolding find
  received_more t s i c segment j d h = elim (Bool-cases (j == i)) [
    | inl same ↦
        let index : j ≡ i = ground (arith, same) in
        let value : d ≡ c = ground (arith, h, same) in
        subst (λ x. IsSegment source t.output.state.fingerprint x d) (sym index)
          (subst (IsSegment source t.output.state.fingerprint i) (sym value) segment)
    | inr other ↦ s.received j d (ground (arith, h, other, find-without j i t.pending))
  ]

  take_result-IsSound :
      (t : Transfer) (i : ℕ) (r : Result Completed Failed)
      (results : List (ℕ × Result Completed Failed))
      → t.results ≡ (i, r) ∷ results
      → IsCounted workers t
      → IsSound source t
      → IsSound source (take_result i r (record t { results = results }))
  unfolding take_result
  take_result-IsSound t i (err e) results h k s = fail-IsSound source workers e _ (
      moved-IsSound t s t.queue t.active results t.pending (ground (arith, h))
        (subst (AllFetched source t.output.state.fingerprint) h s.coming) s.received)
  take_result-IsSound t i (ok c) results h k s =
      let coming = subst (AllFetched source t.output.state.fingerprint) h s.coming in
      moved-IsSound t s t.queue t.active results ((i, c) ∷ without i t.pending)
        (ground (arith, h, count-without t.output.state.next_index i t.pending)) coming.1
        (received_more t s i c coming.0)

  pub Step-IsSound :
      {t u : Transfer} → Step source t u → IsCounted workers t → IsSound source t → IsSound source u
  Step-IsSound (take_job t i queue h) k s =
      moved-IsSound t s queue (i ∷ t.active) t.results t.pending (ground (arith, h)) s.coming
        s.received
  Step-IsSound (fetch t before after i content h whole some_bytes) k s =
      moved-IsSound t s t.queue (before ++ after) (t.results ++ (fetched_one i content ∷ []))
        t.pending
        (ground (
          arith,
          h,
          count-append t.output.state.next_index before after,
          count-append t.output.state.next_index before (i ∷ after),
          fetched-append t.output.state.next_index t.results (fetched_one i content ∷ []),
        ))
        (AllFetched-append source t.output.state.fingerprint t.results (fetched_one i content ∷ [])
          s.coming (record { whole = whole; counted = refl; some_bytes = some_bytes }, tt))
        s.received
  Step-IsSound (fetch_failed t before after i j e h) k s =
      moved-IsSound t s t.queue (before ++ after) (t.results ++ ((j, err e) ∷ [])) t.pending
        (ground (
          arith,
          h,
          count-append t.output.state.next_index before after,
          count-append t.output.state.next_index before (i ∷ after),
          fetched-append t.output.state.next_index t.results ((j, err e) ∷ []),
        ))
        (AllFetched-append source t.output.state.fingerprint t.results ((j, err e) ∷ []) s.coming
          tt)
        s.received
  Step-IsSound (thread_failed t e) k s = fail-IsSound source workers e t s
  Step-IsSound (receive t t' i r results rounds h done) k s =
      assemble-IsSound source workers rounds _ t' (take_result-IsCounted workers t i r results h k)
        (take_result-IsSound t i r results h k s) done

  pub Reach-IsSound :
      {t u : Transfer}
      → Reach source t u
      → IsCounted workers t
      → IsSound source t
      → IsSound source u
  Reach-IsSound here k s = s
  Reach-IsSound (next r step) k s =
      Step-IsSound step (Reach-IsCounted workers source r k) (Reach-IsSound r k s)
