-- ===== src/Extensions/Segments/Resume.antt =====
-- rust_backend/crates/extensions/src/download/segment_store.rs: what is left under the names of a
-- transfer can be resumed, wherever it stopped.
use spoti_flac_mobile.Prelude.{
  ℕ, ◌≤◌, ◌<◌, ◌≡◌, refl, sym, ap, subst, List, Option, none, some, ◌⊎◌, arith, length, ◌&&◌, ◌||◌,
  Bool, false, ◌==◌, Bool-cases, inl, inr, if◌then◌else◌,
}
use spoti_flac_mobile.Prelude.Text.{Text}
use spoti_flac_mobile.Prelude.Result.{Result, ok, err}
use spoti_flac_mobile.Extensions.Segments.Stage.{Stage, set_len, take-set_len, length-set_len}
use spoti_flac_mobile.Extensions.Segments.Store.{
  SegmentOutput, Checkpoint, Directory, Entry, file, OpenFaults, content_of, opened, Failed, failed,
}
use spoti_flac_mobile.Extensions.Segments.Assembled.{
  Source, Prefix, Prefix_of_take, IsValid, IsReady,
}

abbrev pub checkpoint_of : Option (Entry (Option Checkpoint)) → Option Checkpoint
checkpoint_of (some (file c)) = c
checkpoint_of _ = none

-- A checkpoint that no open output stands behind says the truth of the staged file, unless the file
-- is too short.
pub record IsRecoverable (source : Source) (d : Directory) : Type 0 where
  pub truth :
      (c : Checkpoint)
      → checkpoint_of d.checkpoint ≡ some c
      → 0 < c.bytes
      → c.bytes ≤ length (content_of d.staged)
      → Prefix (source c.fingerprint) c.next_index c.bytes (content_of d.staged)

-- The checkpoint of an open output says what was saved.
pub record IsRecorded (source : Source) (o : SegmentOutput) (d : Directory) : Type 0 where
  pub saved : (c : Checkpoint) → checkpoint_of d.checkpoint ≡ some c → c.bytes ≡ o.saved_bytes
  pub truth :
      (c : Checkpoint)
      → checkpoint_of d.checkpoint ≡ some c
      → Prefix (source c.fingerprint) c.next_index c.bytes o.file.content

-- What `open` may give: an output that resumes at whole segments, or an error that loses nothing.
pub data Opening (source : Source) (fingerprint : Text) (segments : ℕ)
    : Result SegmentOutput Failed × Directory → Type 0 where
  resumed :
      (o : SegmentOutput) (d : Directory)
      → IsValid source o
      → IsReady o
      → IsRecorded source o d
      → o.state.fingerprint ≡ fingerprint
      → o.segments ≡ segments
      → o.promoted ≡ false
      → Opening source fingerprint segments (ok o, d)
  refused :
      (e : Failed) (d : Directory)
      → IsRecoverable source d
      → Opening source fingerprint segments (err e, d)

module _ (source : Source) (faults : OpenFaults) (fingerprint : Text) (segments : ℕ) (keep : Bool)
    (now : ℕ) (all_segments : length (source fingerprint) ≡ segments) where
  module _ (c : Checkpoint) (content : List ℕ) (d : Directory) (f : c.fingerprint ≡ fingerprint)
      (n : c.next_index ≤ segments) (p : Prefix (source fingerprint) c.next_index c.bytes content)
      (e : content_of d.staged ≡ content) (r : IsRecoverable source d)
      (own : (c' : Checkpoint)
        → checkpoint_of d.checkpoint ≡ some c'
        → (c.next_index ≡ 0) ⊎ (c' ≡ c)) where
    abbrev cut : Stage
    cut = set_len c.bytes (record { content = content; position = 0 })

    abbrev left : Option (Entry (Option Checkpoint))
    left = if c.next_index == 0 then none else d.checkpoint

    cut-Prefix : Prefix (source fingerprint) c.next_index c.bytes cut.content
    cut-Prefix =
        Prefix_of_take cut.content p
          (take-set_len c.bytes c.bytes (record { content = content; position = 0 }) (omega arith)
            p.size)
          (omega (arith, length-set_len c.bytes (record { content = content; position = 0 })))

    left-own : (c' : Checkpoint) → checkpoint_of left ≡ some c' → c' ≡ c
    left-own c' h = elim (Bool-cases (c.next_index == 0)) [
      | inl none_yet ↦ absurd (ground (arith, h))
      | inr some_yet ↦ elim (own c' (ground (arith, h))) [
        | inl z ↦ absurd (ground (arith, z))
        | inr same ↦ same
      ]
    ]

    own_Prefix :
        (c' : Checkpoint)
        → checkpoint_of left ≡ some c'
        → Prefix (source c'.fingerprint) c'.next_index c'.bytes cut.content
    own_Prefix c' h =
        subst (λ x. Prefix (source x.fingerprint) x.next_index x.bytes cut.content)
          (sym (left-own c' h)) (rw f cut-Prefix)

    untouched : IsRecoverable source (record d { staged = some (file content) })
    untouched = record {
      truth = λ c' h some_bytes fits.
          subst (Prefix (source c'.fingerprint) c'.next_index c'.bytes) e
            (r.truth c' h some_bytes (ground (arith, e, fits)));
    }

    cleared :
        (content' : List ℕ)
        → Prefix (source fingerprint) c.next_index c.bytes content'
        → IsRecoverable source (record d { staged = some (file content'); checkpoint = left })
    cleared content' q = record { truth = λ c' h some_bytes fits. rw (left-own c' h, f) q }

    -- `open` once the state is known: it tells a prefix of the file, and the checkpoint is its own.
    pub opened-Opening :
        Opening source fingerprint segments (opened faults c keep segments now content d)
    unfolding opened
    opened-Opening =
        elim (Bool-cases (faults.measure || c.next_index == 0 && faults.remove_stale)) [
          | inl early ↦ rw early (refused failed _ untouched)
          | inr removed ↦ rw removed (elim (Bool-cases faults.resize) [
            | inl stays ↦ rw stays (refused failed _ (cleared content p))
            | inr resized ↦ rw resized (elim (Bool-cases faults.rewind) [
              | inl unplaced ↦ rw unplaced (refused failed _ (cleared cut.content cut-Prefix))
              | inr placed ↦ rw placed (
                  resumed _ _
                    (record {
                      prefix = rw f cut-Prefix;
                      next_le = n;
                      all_segments = rw f all_segments;
                      saved_le = omega arith;
                    })
                    (record {
                      cursor = refl;
                      ends = length-set_len c.bytes (record { content = content; position = 0 });
                    })
                    (record {
                      saved = λ c' h. ap (λ x. x.bytes) (left-own c' h);
                      truth = λ c' h. own_Prefix c' h;
                    })
                    f refl refl)
            ])
          ])
        ]
