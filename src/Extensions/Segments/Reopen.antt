-- ===== src/Extensions/Segments/Reopen.antt =====
-- rust_backend/crates/extensions/src/download/segment_store.rs: `open` resumes at whole segments.
use spoti_flac_mobile.Prelude.{
  ℕ, ◌≤◌, ◌≡◌, refl, sym, ap, subst, ◌∙◌, List, [], Option, none, some, arith, length, ◌||◌, take,
  Bool, true, ◌==◌, leb, Bool-cases, Option-cases, inl, inr, if◌then◌else◌, if_cases,
}
use spoti_flac_mobile.Prelude.Text.{Text, =ₜ_iff}
use spoti_flac_mobile.Prelude.Result.{err}
use spoti_flac_mobile.Extensions.Segments.Store.{
  Checkpoint, Directory, Entry, file, other, OpenFaults, is_usable, usable, restored, content_of,
  fresh, opened, long_enough, open_output, failed, is_other,
}
use spoti_flac_mobile.Extensions.Segments.Assembled.{Source, joined, Prefix}
use spoti_flac_mobile.Extensions.Segments.Resume.{
  checkpoint_of, IsRecoverable, Opening, refused, opened-Opening,
}

module _ (source : Source) (faults : OpenFaults) (fingerprint : Text) (segments : ℕ) (keep : Bool)
    (now : ℕ) (all_segments : length (source fingerprint) ≡ segments) where
  usable_lem :
      (e : Option (Entry (Option Checkpoint))) (c : Checkpoint)
      → usable fingerprint segments e ≡ some c
      → (checkpoint_of e ≡ some c) × (is_usable fingerprint segments c ≡ true)
  usable_lem none c h = absurd (cc)
  usable_lem (some other) c h = absurd (cc)
  usable_lem (some (file none)) c h = absurd (cc)
  usable_lem (some (file (some c'))) c h = (ground (arith, h), ground (arith, h))

  nothing_left : (d : Directory) → d.checkpoint ≡ none → IsRecoverable source d
  nothing_left d e = record { truth = λ c' h some_bytes fits. absurd (ground (arith, h, e)) }

  started_over :
      (content : List ℕ) (d : Directory)
      → content_of d.staged ≡ content
      → IsRecoverable source d
      → Opening source fingerprint segments
          (opened faults (fresh fingerprint) keep segments now content d)
  started_over content d e r =
      opened-Opening source faults fingerprint segments keep now all_segments (fresh fingerprint)
        content d refl (omega arith) (record { same = refl; size = omega arith }) e r
        (λ c' h. inl refl)

  module _ (d : Directory) (r : IsRecoverable source d) where
    usable-Prefix :
        (c : Checkpoint)
        → checkpoint_of d.checkpoint ≡ some c
        → is_usable fingerprint segments c ≡ true
        → c.bytes ≤ length (content_of d.staged)
        → Prefix (source c.fingerprint) c.next_index c.bytes (content_of d.staged)
    unfolding is_usable
    usable-Prefix c found use_it long = elim (Bool-cases (c.bytes == 0)) [
      | inl z ↦
          let no_bytes : c.bytes ≡ 0 = ground (arith, z) in
          let no_segments : c.next_index ≡ 0 = ground (arith, use_it, z) in
          record {
            same =
                ap (λ b. take b (content_of d.staged)) no_bytes
                ∙ ap (λ i. joined (take i (source c.fingerprint))) (sym no_segments);
            size = long;
          }
      | inr some_bytes ↦ r.truth c found (ground (arith, some_bytes)) long
    ]

    resume-Opening :
        (c : Checkpoint)
        → checkpoint_of d.checkpoint ≡ some c
        → is_usable fingerprint segments c ≡ true
        → Opening source fingerprint segments (
            opened faults
              (long_enough fingerprint (content_of d.staged) c)
              keep
              segments
              now
              (content_of d.staged)
              d)
    unfolding long_enough is_usable
    resume-Opening c found use_it = elim (Bool-cases (leb c.bytes (length (content_of d.staged)))) [
      | inr short ↦ rw short (started_over (content_of d.staged) d refl r)
      | inl long ↦
          let same_fp : c.fingerprint ≡ fingerprint =
            ground (arith, use_it, =ₜ_iff c.fingerprint fingerprint) in
          rw long (
            opened-Opening source faults fingerprint segments keep now all_segments c
              (content_of d.staged) d same_fp (ground (arith, use_it))
              (subst (λ x. Prefix (source x) c.next_index c.bytes (content_of d.staged)) same_fp
                (usable-Prefix c found use_it (ground (arith, long))))
              refl r (λ c' h. inr (ground (arith, found, h))))
    ]

    anew : Opening source fingerprint segments (
        if faults.remove_staged
        then (err failed, d)
        else if faults.remove_checkpoint
        then (err failed, record d { staged = none })
        else if faults.create
        then (err failed, record d { staged = none; checkpoint = none })
        else opened faults
            (fresh fingerprint)
            keep
            segments
            now
            []
            (record d { staged = none; checkpoint = none }))
    anew =
        if_cases (Opening source fingerprint segments) faults.remove_staged _ _
          (λ e. refused failed d r)
          (λ e.
            if_cases (Opening source fingerprint segments) faults.remove_checkpoint _ _
              (λ e'.
                refused failed (record d { staged = none })
                  (record {
                    truth = λ c h some_bytes fits. absurd (omega (arith, some_bytes, fits));
                  }))
              (λ e'.
                if_cases (Opening source fingerprint segments) faults.create _ _
                  (λ e''.
                    refused failed (record d { staged = none; checkpoint = none })
                      (nothing_left (record d { staged = none; checkpoint = none }) refl))
                  (λ e''.
                    started_over [] (record d { staged = none; checkpoint = none }) refl
                      (nothing_left (record d { staged = none; checkpoint = none }) refl))))

    pub open_output-Opening :
        Opening source fingerprint segments (open_output faults fingerprint segments keep now d)
    unfolding open_output restored
    open_output-Opening =
        elim (Bool-cases (faults.inspect || is_other d.staged || is_other d.checkpoint)) [
          | inl refusal ↦ rw refusal (refused failed d r)
          | inr regular ↦
              rw regular (elim (Option-cases (restored faults fingerprint segments keep d)) [
                | inl nothing ↦ rw nothing anew
                | inr (c, found) ↦ rw found (
                    if_cases (Opening source fingerprint segments) faults.create _ _
                      (λ missing. refused failed d r)
                      (λ created.
                        let (own, use_it) = usable_lem d.checkpoint c (ground (arith, found)) in
                        resume-Opening c own use_it))
              ])
        ]
