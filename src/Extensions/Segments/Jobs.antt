-- ===== src/Extensions/Segments/Jobs.antt =====
-- rust_backend/crates/extensions/src/download/segments.rs: `download`, the thread that hands out the
-- segments and puts them together, and its workers.
use spoti_flac_mobile.Prelude.{
  ℕ, zero, suc, ◌+◌, ◌-◌, min, Bool, true, false, not, Option, none, some, List, [], ◌∷◌, ◌++◌, ltb,
  ◌==◌, if◌then◌else◌,
}
use spoti_flac_mobile.Prelude.Result.{Result, ok, err}
use spoti_flac_mobile.Extensions.Segments.Store.{SegmentOutput, Directory, Failed}
use spoti_flac_mobile.Extensions.Segments.Writing.{
  Turn, Completed, AppendFaults, append, checkpoint, SaveOutcome,
}

-- A `BTreeMap` from indices; only its contents matter.
abbrev pub Pending : Type 0
Pending = List (ℕ × Completed)

unfoldable pub find : ℕ → Pending → Option Completed
find i [] = none
find i ((j, c) ∷ p) = if i == j then some c else find i p

unfoldable pub without : ℕ → Pending → Pending
without i [] = []
without i ((j, c) ∷ p) = let rest = without i p in if i == j then rest else (j, c) ∷ rest

-- The state of the scope: the channels of jobs and of results in their order, the jobs that workers
-- have taken, and the variables of the thread. `jobs_open` says that `jobs` is `Some`.
pub record Transfer : Type 0 where
  pub output : SegmentOutput
  pub directory : Directory
  pub next_job : ℕ
  pub jobs_open : Bool
  pub queue : List ℕ
  pub active : List ℕ
  pub results : List (ℕ × Result Completed Failed)
  pub pending : Pending
  pub stop : Bool
  pub first_failure : Option Failed

unfoldable pub worker_count : ℕ → SegmentOutput → ℕ
worker_count max_parallel o = min max_parallel (o.segments - o.state.next_index)

abbrev pub count_from : ℕ → ℕ → List ℕ
count_from start zero = []
count_from start (suc n) = start ∷ count_from (start + 1) n

-- The first jobs are sent before the workers start.
unfoldable pub begin : ℕ → SegmentOutput → Directory → Transfer
begin workers o d = record {
  output = o;
  directory = d;
  next_job = o.state.next_index + workers;
  jobs_open = ltb (o.state.next_index + workers) o.segments;
  queue = count_from o.state.next_index workers;
  active = [];
  results = [];
  pending = [];
  stop = false;
  first_failure = none;
}

-- `get_or_insert`, the store to `stop`, and the end of the jobs.
unfoldable pub fail : Failed → Transfer → Transfer
fail e t = record t {
  first_failure = elim t.first_failure [ none ↦ some e | some e' ↦ some e' ];
  stop = true;
  jobs_open = false;
}

abbrev pub sent : Transfer → Transfer
sent t = record t {
  queue = t.queue ++ (t.next_job ∷ []);
  next_job = t.next_job + 1;
  jobs_open = not (t.next_job + 1 == t.output.segments);
}

-- After a segment was put together, the next job is sent. The receiver of the jobs outlives the
-- loop, so the send has no error.
unfoldable pub send_next : Transfer → Transfer
send_next t = if t.jobs_open then sent t else t

-- What the calls of one round of the inner loop meet.
pub record Round : Type 0 where
  pub faults : AppendFaults
  pub turns : List Turn
  pub outcome : SaveOutcome
  pub now : ℕ
  pub elapsed : ℕ
  pub instant : ℕ

abbrev pub put_together :
    Round → Transfer → Result (Unit {0}) Failed × SegmentOutput → Bool × Transfer
put_together round t (err e, o) = (false, fail e (record t { output = o }))
put_together round t (ok _, o) =
    let (o', d') =
      checkpoint false round.outcome round.now round.elapsed round.instant o t.directory in
    (true, send_next (record t { output = o'; directory = d' }))

-- One round of the inner loop, and whether another follows. `none` means that the turns of `append`
-- are not its whole loop.
unfoldable pub assemble_one : Round → Transfer → Option (Bool × Transfer)
unfolding fail send_next
assemble_one round t = elim (find t.output.state.next_index t.pending) [
  | none ↦ some (false, t)
  | some c ↦ elim (append round.faults round.turns c t.output) [
    | none ↦ none
    | some r ↦
        some (
          put_together round (record t { pending = without t.output.state.next_index t.pending }) r)
  ]
]

-- The inner loop: what is pending is put together in order, until a segment is missing or fails.
-- `none` means that the rounds are not the whole loop.
unfoldable pub assemble : List Round → Transfer → Option Transfer
assemble [] t = elim (find t.output.state.next_index t.pending) [ none ↦ some t | some c ↦ none ]
assemble (round ∷ rounds) t = elim (assemble_one round t) [
  | none ↦ none
  | some (again, t') ↦ let rest = assemble rounds t' in if again then rest else some t'
]

unfoldable pub take_result : ℕ → Result Completed Failed → Transfer → Transfer
unfolding fail
take_result i (err e) t = fail e t
take_result i (ok c) t = record t { pending = (i, c) ∷ without i t.pending }
