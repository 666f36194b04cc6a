-- ===== src/Extensions/Segments/Steps.antt =====
-- rust_backend/crates/extensions/src/download/segments.rs: what the thread and its workers do, in
-- any order, while a transfer runs.
use spoti_flac_mobile.Prelude.{ℕ, ◌<◌, ◌≡◌, some, List, [], ◌∷◌, ◌++◌, length, get_elem?}
use spoti_flac_mobile.Prelude.Result.{Result, ok, err}
use spoti_flac_mobile.Extensions.Segments.Store.{Failed}
use spoti_flac_mobile.Extensions.Segments.Writing.{Completed}
use spoti_flac_mobile.Extensions.Segments.Jobs.{Transfer, fail, take_result, assemble, Round}
use spoti_flac_mobile.Extensions.Segments.Assembled.{Source}

abbrev pub fetched_one : ℕ → List ℕ → ℕ × Result Completed Failed
fetched_one i content = (i, ok (record { content = content; size = length content }))

-- A worker takes a job, and fetches its segment or fails; the thread fails (a worker does not start,
-- or `check` says so), or receives a result and puts together what it can. What a worker fetches is
-- what the resource has at its index: the answers of the network come from outside.
pub data Step (source : Source) : Transfer → Transfer → Type 0 where
  take_job :
      (t : Transfer) (i : ℕ) (queue : List ℕ)
      → t.queue ≡ i ∷ queue
      → Step source t (record t { queue = queue; active = i ∷ t.active })
  fetch :
      (t : Transfer) (before after : List ℕ) (i : ℕ) (content : List ℕ)
      → t.active ≡ before ++ (i ∷ after)
      → get_elem? (source t.output.state.fingerprint) i ≡ some content
      → 0 < length content
      → Step source t (record t {
        active = before ++ after;
        results = t.results ++ (fetched_one i content ∷ []);
      })
  fetch_failed :
      (t : Transfer) (before after : List ℕ) (i j : ℕ) (e : Failed)
      → t.active ≡ before ++ (i ∷ after)
      → Step source t
          (record t { active = before ++ after; results = t.results ++ ((j, err e) ∷ []) })
  thread_failed : (t : Transfer) (e : Failed) → Step source t (fail e t)
  receive :
      (t t' : Transfer) (i : ℕ) (r : Result Completed Failed)
      (results : List (ℕ × Result Completed Failed)) (rounds : List Round)
      → t.results ≡ (i, r) ∷ results
      → assemble rounds (take_result i r (record t { results = results })) ≡ some t'
      → Step source t t'

pub data Reach (source : Source) (s : Transfer) : Transfer → Type 0 where
  here : Reach source s s
  next : {t u : Transfer} → Reach source s t → Step source t u → Reach source s u
