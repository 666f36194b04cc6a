-- ===== src/Tests/Segments.antt =====
-- Tests of Extensions/Segments, and its theorems at concrete transfers.
use spoti_flac_mobile.Prelude.{
  ℕ, ◌≤◌, ◌≡◌, refl, ◌⊎◌, true, false, Option, none, some, List, [], ◌∷◌, length, arith, ◌==◌,
  if◌then◌else◌,
}
use spoti_flac_mobile.Prelude.Int.{pos}
use spoti_flac_mobile.Prelude.Text.{Text, codes}
use spoti_flac_mobile.Prelude.Result.{ok, Result}
use spoti_flac_mobile.Extensions.Segments.Stage.{set_len}
use spoti_flac_mobile.Extensions.Segments.Store.{
  SegmentOutput, Directory, OpenFaults, open_output, file,
}
use spoti_flac_mobile.Extensions.Segments.Writing.{moved, append, saved, checkpoint, Completed}
use spoti_flac_mobile.Extensions.Segments.Assembled.{Source, joined}
use spoti_flac_mobile.Extensions.Segments.Resume.{IsRecoverable}
use spoti_flac_mobile.Extensions.Segments.Jobs.{
  Transfer, Round, begin, worker_count, assemble, assemble_one, send_next, take_result, find,
  without,
}
use spoti_flac_mobile.Extensions.Segments.Counts.{places, total}
use spoti_flac_mobile.Extensions.Segments.Steps.{
  take_job, fetch, receive, fetched_one, Reach, here, next,
}
use spoti_flac_mobile.Extensions.Segments.Fetch.{Attempt, chunk, fetch_segment, try_once, Failure}
use spoti_flac_mobile.Extensions.Segments.Fetched.{Fetched, fetch_segment-Fetched}
use spoti_flac_mobile.Extensions.Segments.Complete.{Reach-places}
use spoti_flac_mobile.Extensions.Segments.Life.{
  Ending, finish, Life, idle, running, Lives, born, later, start, run, end,
}
use spoti_flac_mobile.Extensions.Segments.Lasting.{Lives-whole}
use spoti_flac_mobile.Extensions.Segments.Delivered.{finish-publishes}

-- Every fingerprint is that of a resource of two segments.
abbrev resource : Source
resource f = (7 ∷ 8 ∷ []) ∷ (9 ∷ []) ∷ []

abbrev no_faults : OpenFaults
no_faults = record {
  inspect = false;
  read = false;
  remove_staged = false;
  remove_checkpoint = false;
  create = false;
  measure = false;
  remove_stale = false;
  resize = false;
  rewind = false;
}

abbrev empty : Directory
empty = record { staged = none; checkpoint = none; target = none }

abbrev opened : Directory
opened = record { staged = some (file []); checkpoint = none; target = none }

abbrev output : SegmentOutput
output = record {
  file = record { content = []; position = 0 };
  state = record {
    version = pos 0;
    fingerprint = codes "f";
    next_index = 0;
    bytes = 0;
    updated_at = 0;
  };
  keep = true;
  promoted = false;
  saved_bytes = 0;
  saved_at = 5;
  segments = 2;
}

open_empty : open_output no_faults (codes "f") 2 true 5 empty ≡ (ok output, opened)
unfolding open_output set_len
open_empty = refl

abbrev round : Round
round = record {
  faults = record { rewind_segment = false; resize = false; rewind = false };
  turns = moved 10 ∷ moved 10 ∷ [];
  outcome = saved;
  now = 6;
  elapsed = 9;
  instant = 6;
}

abbrev or_else : Option Transfer → Transfer → Transfer
or_else none t = t
or_else (some u) t = u

-- One worker: it fetches a segment, the thread puts it together, and so again.
unfoldable begun : Transfer
begun = begin (worker_count 1 output) output opened

abbrev fetched_by : Transfer → ℕ → List ℕ → Transfer
fetched_by t i content = record t { queue = []; active = []; results = fetched_one i content ∷ [] }

abbrev put : Transfer → ℕ → List ℕ → Transfer
put t i content =
    or_else
      (assemble (round ∷ []) (
        take_result i (ok (record { content = content; size = length content }))
          (record t { queue = []; active = []; results = [] })))
      t

first : Transfer
unfolding begun begin worker_count assemble assemble_one find take_result append without checkpoint
    send_next
first = put begun 0 (7 ∷ 8 ∷ [])

second : Transfer
unfolding first assemble assemble_one find take_result append without checkpoint send_next
second = put first 1 (9 ∷ [])

first_queue : first.queue ≡ 1 ∷ []
unfolding first
first_queue = refl

reached_first : Reach resource begun first
unfolding begun first begin worker_count assemble assemble_one find take_result append without
    checkpoint send_next
reached_first =
    next
      (next (next here (take_job begun 0 [] refl)) (
        fetch (record begun { queue = []; active = 0 ∷ [] }) [] [] 0 (7 ∷ 8 ∷ []) refl refl
          (omega arith)))
      (receive (fetched_by begun 0 (7 ∷ 8 ∷ [])) first 0 (fetched_one 0 (7 ∷ 8 ∷ [])).1 []
        (round ∷ []) refl refl)

reached_second : Reach resource begun second
unfolding begun first second begin worker_count assemble assemble_one find take_result append
    without checkpoint send_next
reached_second =
    next
      (next (next reached_first (take_job first 1 [] refl)) (
        fetch (record first { queue = []; active = 1 ∷ [] }) [] [] 1 (9 ∷ []) refl refl
          (omega arith)))
      (receive (fetched_by first 1 (9 ∷ [])) second 1 (fetched_one 1 (9 ∷ [])).1 [] (round ∷ [])
        refl refl)

abbrev ending : Ending
ending = record {
  outcome = saved;
  now = 7;
  elapsed = 9;
  instant = 7;
  faults = record { sync = false; check = false; rename = false; remove_checkpoint = false };
  checkpoint_stays = false;
  staged_stays = false;
}

Reach-places_example : (places first ≤ worker_count 1 output) × ((i : ℕ) → total i first ≤ 1)
unfolding begin begun first
Reach-places_example = Reach-places resource 1 output opened (omega arith) reached_first

nothing_before : IsRecoverable resource empty
nothing_before = record { truth = λ c h some_bytes fits. absurd (cc) }

finish-publishes_example :
    ((finish ending second).0 ≡ ok tt) × ((finish ending second).1.target ≡ some (7 ∷ 8 ∷ 9 ∷ []))
unfolding second first begun begin worker_count assemble assemble_one find take_result append
    without checkpoint send_next
finish-publishes_example =
    finish-publishes resource 1 no_faults (codes "f") 2 true 5 empty opened output refl
      nothing_before open_empty (omega arith) (omega arith) (omega arith) reached_second refl refl
      refl refl ending refl refl refl

-- The steps of a transfer are steps of the lives.
lived_through :
    {source : Source} {max_parallel : ℕ} {a : Life} {t u : Transfer}
    → Lives source max_parallel a (running t)
    → Reach source t u
    → Lives source max_parallel a (running u)
lived_through l here = l
lived_through l (next r step) = later (lived_through l r) (run _ _ step)

lived : Lives resource 1 (idle empty) (idle (finish ending second).1)
unfolding begun
lived =
    later
      (lived_through
        (later born (start empty opened no_faults (codes "f") 2 true 5 output refl open_empty))
        reached_second)
      (end second ending)

Lives-whole_example :
    ((finish ending second).1.target ≡ none)
    ⊎ ((f : Text) × ((finish ending second).1.target ≡ some (joined (resource f))))
Lives-whole_example = Lives-whole resource 1 (idle (finish ending second).1) lived

-- The first answer is a failure that may pass, and the second is whole.
abbrev meets : ℕ → Attempt
meets attempt = record {
  stopped_before = false;
  no_file = false;
  response = some (record {
    status = if attempt == 1 then 503 else 200;
    expected = pos 3;
    retry_nanos = pos 0;
  });
  reads = chunk (7 ∷ 8 ∷ []) ∷ chunk (9 ∷ []) ∷ [];
  stopped_after = false;
  stopped_waiting = false;
}

fetch_second :
    fetch_segment [] 3 meets 40 ≡ some (ok (record { content = 7 ∷ 8 ∷ 9 ∷ []; size = 3 }), 43)
unfolding fetch_segment try_once
fetch_second = refl

fetch_segment-Fetched_example :
    (r : Result Completed Failure × ℕ) × (fetch_segment [] 3 meets 40 ≡ some r)
    × Fetched [] 3 meets 40 1 r
fetch_segment-Fetched_example = fetch_segment-Fetched [] 3 meets 40 (omega arith)
