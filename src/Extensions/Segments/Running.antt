-- ===== src/Extensions/Segments/Running.antt =====
-- rust_backend/crates/extensions/src/download/segments.rs: the inner loop of a transfer keeps it sound.
use spoti_flac_mobile.Extensions.Segments.Sound.{
  IsSound, IsSegment, SameOutput-IsValid, checkpoint-saved_bytes, checkpoint-IsRecorded,
  Kept-IsRecorded,
}
use spoti_flac_mobile.Prelude.{
  ℕ, ◌≡◌, sym, ap, subst, ◌∙◌, Bool, false, some, List, [], ◌∷◌, arith, length, Bool-cases,
  Option-cases, inl, inr, if_cases,
}
use spoti_flac_mobile.Prelude.Text.{Text}
use spoti_flac_mobile.Prelude.Result.{Result}
use spoti_flac_mobile.Extensions.Segments.Store.{SegmentOutput, Directory, Failed}
use spoti_flac_mobile.Extensions.Segments.Writing.{Completed, append}
use spoti_flac_mobile.Extensions.Segments.Assembled.{Source, IsValid, IsReady}
use spoti_flac_mobile.Extensions.Segments.Append.{Appended, one_more, none_more, append-Appended}
use spoti_flac_mobile.Extensions.Segments.Resume.{IsRecorded}
use spoti_flac_mobile.Extensions.Segments.Jobs.{
  Transfer, fail, send_next, put_together, assemble_one, assemble, Round, find, without, sent,
}
use spoti_flac_mobile.Extensions.Segments.Counts.{total, find-count, find-without}
use spoti_flac_mobile.Extensions.Segments.Places.{IsCounted, assemble_one-IsCounted, rest-total}
use spoti_flac_mobile.Extensions.Segments.Effects.{checkpoint-SameOutput}

module _ (source : Source) (workers : ℕ) where
  -- `fail` touches neither the output nor what is on its way.
  pub fail-IsSound : (e : Failed) (t : Transfer) → IsSound source t → IsSound source (fail e t)
  unfolding fail
  fail-IsSound e t s = record {
    valid = s.valid;
    recorded = s.recorded;
    received = s.received;
    coming = s.coming;
    ready = s.ready;
    going = λ g. absurd (cc);
    unpromoted = s.unpromoted;
  }

  module _ (t : Transfer) (k : IsCounted workers t) (s : IsSound source t) (c : Completed)
      (found : find t.output.state.next_index t.pending ≡ some c) where
    is_ready : IsReady t.output
    is_ready = elim s.ready [
      | inl r ↦ r
      | inr z ↦ absurd (omega (arith, z, find-count t.output.state.next_index t.pending c found))
    ]

    still_received :
        (fingerprint : Text)
        → fingerprint ≡ t.output.state.fingerprint
        → (i : ℕ) (d : Completed) → find i (without t.output.state.next_index t.pending) ≡ some d
        → IsSegment source fingerprint i d
    still_received fingerprint same i d h =
        rw same
          (s.received i d (ground (arith, h, find-without i t.output.state.next_index t.pending)))

    module _ (o : SegmentOutput) (d : Directory) (v : IsValid source o) (r : IsRecorded source o d)
        (same : o.state.fingerprint ≡ t.output.state.fingerprint)
        (unpromoted : o.promoted ≡ false) where
      abbrev rest : Transfer
      rest = record t {
        pending = without t.output.state.next_index t.pending;
        output = o;
        directory = d;
      }

      rest-IsSound : IsReady o → IsSound source rest
      rest-IsSound ready = record {
        valid = v;
        recorded = r;
        received = still_received o.state.fingerprint same;
        coming = rw same s.coming;
        ready = inl ready;
        going = λ g. ready;
        unpromoted = unpromoted;
      }

      failed-IsSound :
          (e : Failed) → total o.state.next_index rest ≡ 0 → IsSound source (fail e rest)
      unfolding fail
      failed-IsSound e gone = record {
        valid = v;
        recorded = r;
        received = still_received o.state.fingerprint same;
        coming = rw same s.coming;
        ready = inr gone;
        going = λ g. absurd (cc);
        unpromoted = unpromoted;
      }

      advanced-IsSound : IsReady o → IsSound source (send_next rest)
      unfolding send_next
      advanced-IsSound ready =
          if_cases (IsSound source) t.jobs_open (sent rest) rest
            (λ e. record {
              valid = v;
              recorded = r;
              received = still_received o.state.fingerprint same;
              coming = rw same s.coming;
              ready = inl ready;
              going = λ g. ready;
              unpromoted = unpromoted;
            })
            (λ e. rest-IsSound ready)

    put_together-IsSound :
        (round : Round) {r : Result (Unit {0}) Failed × SegmentOutput}
        → Appended source round.faults c t.output s.valid is_ready r
        → IsSound source
            (put_together round
              (record t { pending = without t.output.state.next_index t.pending })
              r).1
    put_together-IsSound round (one_more o v ready more bytes kept) =
        let same =
          checkpoint-SameOutput false round.outcome round.now round.elapsed round.instant o
            t.directory in
        advanced-IsSound _ _
          (SameOutput-IsValid source same
            (checkpoint-saved_bytes source false round.outcome round.now round.elapsed round.instant
              o t.directory v.saved_le)
            v)
          (checkpoint-IsRecorded source false round.outcome round.now round.elapsed round.instant o
            t.directory v (Kept-IsRecorded source s.valid kept s.recorded))
          (same.fingerprint ∙ kept.fingerprint) (same.promoted ∙ kept.promoted ∙ s.unpromoted)
          (record {
            cursor = ap (λ f. f.position) same.file ∙ ready.cursor ∙ sym same.bytes;
            ends = ap (λ f. length f.content) same.file ∙ ready.ends ∙ sym same.bytes;
          })
    put_together-IsSound round (none_more o e v same kept) =
        let there : o.state.next_index ≡ t.output.state.next_index = ap (λ x. x.next_index) same in
        let gone : total o.state.next_index (
              rest o t.directory v (Kept-IsRecorded source s.valid kept s.recorded) kept.fingerprint
                (kept.promoted ∙ s.unpromoted))
            ≡ 0 =
          ground (
            arith,
            there,
            rest-total workers t k c found o t.directory o.state.next_index,
            k.once t.output.state.next_index,
          ) in
        failed-IsSound o t.directory v (Kept-IsRecorded source s.valid kept s.recorded)
          kept.fingerprint (kept.promoted ∙ s.unpromoted) e gone

  assemble_one-IsSound :
      (round : Round) (t t' : Transfer) (again : Bool)
      → IsCounted workers t
      → IsSound source t
      → assemble_one round t ≡ some (again, t')
      → IsSound source t'
  unfolding assemble_one
  assemble_one-IsSound round t t' again k s h =
      elim (Option-cases (find t.output.state.next_index t.pending)) [
        | inl missing ↦ subst (IsSound source) (ground (arith, h, missing)) s
        | inr (c, found) ↦ elim (Option-cases (append round.faults round.turns c t.output)) [
          | inl unfinished ↦ absurd (ground (arith, h, found, unfinished))
          | inr (r, appended) ↦
              let segment = s.received t.output.state.next_index c found in
              subst (IsSound source) (ground (arith, h, found, appended)) (
                put_together-IsSound t k s c found round (
                  append-Appended source round.faults c t.output s.valid (is_ready t k s c found)
                    segment.whole segment.counted round.turns r appended))
        ]
      ]

  pub assemble-IsSound :
      (rounds : List Round) (t t' : Transfer)
      → IsCounted workers t
      → IsSound source t
      → assemble rounds t ≡ some t'
      → IsSound source t'
  unfolding assemble
  assemble-IsSound [] t t' k s h = subst (IsSound source) (ground (arith, h)) s
  assemble-IsSound (round ∷ rounds) t t' k s h = elim (Option-cases (assemble_one round t)) [
    | inl unfinished ↦ absurd (ground (arith, h, unfinished))
    | inr ((again, u), one) ↦
        let l = assemble_one-IsCounted workers round t u again k one in
        let v = assemble_one-IsSound round t u again k s one in
        elim (Bool-cases again) [
          | inl more ↦ assemble-IsSound rounds u t' l v (ground (arith, h, one, more))
          | inr last ↦ subst (IsSound source) (ground (arith, h, one, last)) v
        ]
  ]
