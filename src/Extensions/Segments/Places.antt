-- ===== src/Extensions/Segments/Places.antt =====
-- rust_backend/crates/extensions/src/download/segments.rs: each segment is handed out once, and no
-- more of them are on their way than there are workers.
use spoti_flac_mobile.Prelude.{
  ℕ, ◌+◌, ◌-◌, ◌≤◌, ◌<◌, ◌≡◌, refl, subst, Bool, true, false, none, some, List, [], ◌∷◌, arith,
  length, length-append, ltb, ◌==◌, if◌then◌else◌, Bool-cases, Option-cases, inl, inr,
}
use spoti_flac_mobile.Prelude.Result.{Result, ok, err}
use spoti_flac_mobile.Extensions.Segments.Store.{SegmentOutput, Directory, Failed}
use spoti_flac_mobile.Extensions.Segments.Writing.{Completed, append}
use spoti_flac_mobile.Extensions.Segments.Jobs.{
  Transfer, fail, sent, send_next, put_together, assemble_one, assemble, Round, find, without,
}
use spoti_flac_mobile.Extensions.Segments.Counts.{
  count, count-append, fetched, count-without, find-count, length-without_le, length-without_lt,
  total, places, errors,
}
use spoti_flac_mobile.Extensions.Segments.Effects.{
  checkpoint-SameOutput, append-next, append-failed,
}

module _ (workers : ℕ) where
  -- Each segment from the next one to be put together up to the next job is on its way, once, unless
  -- something has failed, and no other.
  pub record IsCounted (t : Transfer) : Type 0 where
    pub once : (i : ℕ) → total i t ≤ 1
    pub within : (i : ℕ) → 0 < total i t → (t.output.state.next_index ≤ i) × (i < t.next_job)
    pub all :
        (i : ℕ)
        → t.stop ≡ false
        → errors t.results ≡ 0
        → t.output.state.next_index ≤ i
        → i < t.next_job
        → total i t ≡ 1
    pub room : places t + t.output.state.next_index ≤ t.next_job
    pub window : t.next_job ≤ t.output.state.next_index + workers
    pub in_range : t.next_job ≤ t.output.segments
    pub fed :
        t.stop ≡ false
        → t.next_job < t.output.segments
        → t.next_job ≡ t.output.state.next_index + workers
    pub sending : t.stop ≡ false → t.jobs_open ≡ ltb t.next_job t.output.segments
    pub ended : t.stop ≡ true → t.jobs_open ≡ false
    pub failure : t.stop ≡ false → t.first_failure ≡ none
    pub no_failure : t.first_failure ≡ none → t.stop ≡ false

  -- Nothing is promised of what is on its way once the transfer has failed.
  pub fail-IsCounted :
      (e : Failed) (t : Transfer) (results : List (ℕ × Result Completed Failed))
      → IsCounted t
      → ((i : ℕ) → count i (fetched results) ≤ count i (fetched t.results))
      → length results ≤ length t.results
      → IsCounted (fail e (record t { results = results }))
  unfolding fail
  fail-IsCounted e t results k less le = record {
    once = λ i. ground (arith, k.once i, less i);
    within = λ i h. ground (arith, k.within i, less i);
    all = λ i s none_yet p q. absurd (cc);
    room = omega (arith, k.room, le);
    window = k.window;
    in_range = k.in_range;
    fed = λ s p. absurd (cc);
    sending = λ s. absurd (cc);
    ended = λ s. refl;
    failure = λ s. absurd (cc);
    no_failure = λ s. absurd (ground (arith, s));
  }

  -- A segment was put together, and its place is free.
  module _ (t : Transfer) (k : IsCounted t) (c : Completed)
      (found : find t.output.state.next_index t.pending ≡ some c) (o : SegmentOutput)
      (d : Directory) where
    abbrev pub n : ℕ
    n = t.output.state.next_index

    abbrev pub rest : Transfer
    rest = record t { pending = without n t.pending; output = o; directory = d }

    pub rest-total : (i : ℕ) → total i rest ≡ (if i == n then total i t - 1 else total i t)
    rest-total i =
        ground (arith, count-without i n t.pending, find-count n t.pending c, k.once n, k.once i)

    -- No segment was put together, and the transfer has failed.
    lost-IsCounted :
        (e : Failed)
        → o.state.next_index ≡ n
        → o.segments ≡ t.output.segments
        → IsCounted (fail e rest)
    unfolding fail
    lost-IsCounted e p q = record {
      once = λ i. ground (arith, rest-total i, k.once i);
      within = λ i h. ground (arith, rest-total i, k.within i, k.once i);
      all = λ i s none_yet p q. absurd (cc);
      room = ground (arith, k.room, length-without_le n t.pending);
      window = ground (arith, k.window);
      in_range = ground (arith, k.in_range);
      fed = λ s p. absurd (cc);
      sending = λ s. absurd (cc);
      ended = λ s. refl;
      failure = λ s. absurd (cc);
      no_failure = λ s. absurd (ground (arith, s));
    }

    module _ (p : o.state.next_index ≡ n + 1) (q : o.segments ≡ t.output.segments) where
      unsent-IsCounted : t.jobs_open ≡ false → IsCounted rest
      unsent-IsCounted shut = record {
        once = λ i. ground (arith, rest-total i, k.once i);
        within = λ i h. ground (arith, rest-total i, k.within i, k.once i, p);
        all = λ i s none_yet le lt. ground (arith, rest-total i, k.all i, p);
        room = ground (arith, k.room, length-without_lt n t.pending c, found, p);
        window = ground (arith, k.window, p);
        in_range = ground (arith, k.in_range, q);
        fed = λ s lt. absurd (ground (arith, k.sending, shut, s, lt, q));
        sending = λ s. ground (arith, k.sending, q, s);
        ended = λ s. shut;
        failure = k.failure;
        no_failure = k.no_failure;
      }

      sent-total : (i : ℕ) → total i (sent rest) ≡ total i rest + (if i == t.next_job then 1 else 0)
      sent-total i = ground (arith, count-append i t.queue (t.next_job ∷ []))

      sent-IsCounted : t.jobs_open ≡ true → IsCounted (sent rest)
      sent-IsCounted open_ =
          let going : t.stop ≡ false = elim (Bool-cases t.stop) [
            | inl stopped ↦ absurd (ground (arith, k.ended stopped, open_))
            | inr going ↦ going
          ] in
          let more : t.next_job < t.output.segments = ground (arith, k.sending going, open_) in
          let ahead : t.next_job ≡ n + workers = k.fed going more in
          let new : total t.next_job t ≡ 0 = ground (arith, k.within t.next_job) in
          record {
            once = λ i. ground (arith, sent-total i, rest-total i, k.once i, new);
            within = λ i h. ground (
              arith,
              sent-total i,
              rest-total i,
              k.within i,
              k.once i,
              p,
              k.room,
              length-without_lt n t.pending c,
              found,
            );
            all = λ i s none_yet le lt. ground (arith, sent-total i, rest-total i, k.all i, p, new);
            room = ground (
              arith,
              k.room,
              length-without_lt n t.pending c,
              found,
              p,
              length-append t.queue (t.next_job ∷ []),
            );
            window = ground (arith, ahead, p);
            in_range = ground (arith, more, q);
            fed = λ s lt. ground (arith, ahead, p);
            sending = λ s. ground (arith, more, q);
            ended = λ s. absurd (ground (arith, s, going));
            failure = k.failure;
            no_failure = k.no_failure;
          }

      advanced-IsCounted : IsCounted (send_next rest)
      unfolding send_next
      advanced-IsCounted = elim (Bool-cases t.jobs_open) [
        | inl open_ ↦ subst IsCounted (ground arith) (sent-IsCounted open_)
        | inr shut ↦ subst IsCounted (ground arith) (unsent-IsCounted shut)
      ]

  pub put_together-IsCounted :
      (round : Round) (t : Transfer) (k : IsCounted t) (c : Completed)
      (found : find t.output.state.next_index t.pending ≡ some c)
      (r : Result (Unit {0}) Failed × SegmentOutput)
      → append round.faults round.turns c t.output ≡ some r
      → IsCounted
          (put_together round
            (record t { pending = without t.output.state.next_index t.pending })
            r).1
  put_together-IsCounted round t k c found (err e, o) h =
      let (same, size) = append-failed round.faults round.turns c t.output o e h in
      lost-IsCounted t k c found o t.directory e same size
  put_together-IsCounted round t k c found (ok _, o) h =
      let (more, size) = append-next round.faults round.turns c t.output o h in
      let s =
        checkpoint-SameOutput false round.outcome round.now round.elapsed round.instant o
          t.directory in
      advanced-IsCounted t k c found _ _ (ground (arith, s.next_index, more))
        (ground (arith, s.segments, size))

  pub assemble_one-IsCounted :
      (round : Round) (t t' : Transfer) (again : Bool)
      → IsCounted t
      → assemble_one round t ≡ some (again, t')
      → IsCounted t'
  unfolding assemble_one
  assemble_one-IsCounted round t t' again k h =
      elim (Option-cases (find t.output.state.next_index t.pending)) [
        | inl missing ↦ subst IsCounted (ground (arith, h, missing)) k
        | inr (c, found) ↦ elim (Option-cases (append round.faults round.turns c t.output)) [
          | inl unfinished ↦ absurd (ground (arith, h, found, unfinished))
          | inr (r, appended) ↦
              subst IsCounted (ground (arith, h, found, appended))
                (put_together-IsCounted round t k c found r appended)
        ]
      ]

  pub assemble-IsCounted :
      (rounds : List Round) (t t' : Transfer)
      → IsCounted t
      → assemble rounds t ≡ some t'
      → IsCounted t'
  unfolding assemble
  assemble-IsCounted [] t t' k h = subst IsCounted (ground (arith, h)) k
  assemble-IsCounted (round ∷ rounds) t t' k h = elim (Option-cases (assemble_one round t)) [
    | inl unfinished ↦ absurd (ground (arith, h, unfinished))
    | inr ((again, u), one) ↦
        let l = assemble_one-IsCounted round t u again k one in
        elim (Bool-cases again) [
          | inl more ↦ assemble-IsCounted rounds u t' l (ground (arith, h, one, more))
          | inr last ↦ subst IsCounted (ground (arith, h, one, last)) l
        ]
  ]
