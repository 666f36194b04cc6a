-- ===== src/Extensions/Segments/Sound.antt =====
-- rust_backend/crates/extensions/src/download/segments.rs: at every moment of a transfer, what is
-- assembled is a prefix of the resource, and the checkpoint tells no lie about it.
use spoti_flac_mobile.Prelude.{
  ℕ, ◌≤◌, ◌<◌, ◌≡◌, sym, ap, subst, ◌∙◌, Bool, false, Option, some, List, [], ◌∷◌, ◌++◌, arith,
  length, take, get_elem?, ◌⊎◌, if_cases,
}
use spoti_flac_mobile.Prelude.Text.{Text}
use spoti_flac_mobile.Prelude.Result.{Result, ok, err}
use spoti_flac_mobile.Extensions.Segments.Stage.{take-take}
use spoti_flac_mobile.Extensions.Segments.Store.{SegmentOutput, Directory, Failed}
use spoti_flac_mobile.Extensions.Segments.Writing.{
  Completed, checkpoint, SaveOutcome, not_synced, not_written, saved,
}
use spoti_flac_mobile.Extensions.Segments.Assembled.{
  Source, Prefix, Prefix_of_take, IsValid, IsReady,
}
use spoti_flac_mobile.Extensions.Segments.Append.{Kept}
use spoti_flac_mobile.Extensions.Segments.Resume.{IsRecorded}
use spoti_flac_mobile.Extensions.Segments.Jobs.{Transfer, find}
use spoti_flac_mobile.Extensions.Segments.Counts.{total}
use spoti_flac_mobile.Extensions.Segments.Effects.{SameOutput}

some_injective : {A : Type 0} {x y : A} → ◌≡◌ {A = Option A} (some x) (some y) → x ≡ y
some_injective h = cc

module _ (source : Source) where
  -- What `append` and `checkpoint` leave of the record.
  pub Kept-IsRecorded :
      {o o' : SegmentOutput} {d : Directory}
      → IsValid source o
      → Kept o o'
      → IsRecorded source o d
      → IsRecorded source o' d
  Kept-IsRecorded {o} {o'} v kept r = record {
    saved = λ c h. r.saved c h ∙ sym kept.saved_bytes;
    truth = λ c h.
        let le : c.bytes ≤ o.state.bytes = omega (arith, r.saved c h, v.saved_le) in
        Prefix_of_take o'.file.content (r.truth c h)
          (sym (take-take c.bytes o.state.bytes o'.file.content le)
            ∙ ap (take c.bytes) kept.same
            ∙ take-take c.bytes o.state.bytes o.file.content le)
          (omega (arith, le, kept.size));
  }

  pub SameOutput-IsValid :
      {o o' : SegmentOutput}
      → SameOutput o o'
      → o'.saved_bytes ≤ o.state.bytes
      → IsValid source o
      → IsValid source o'
  SameOutput-IsValid s le v = record {
    prefix = rw (s.fingerprint, s.next_index, s.bytes, s.file) v.prefix;
    next_le = omega (arith, s.next_index, s.segments, v.next_le);
    all_segments = rw (s.fingerprint, s.segments) v.all_segments;
    saved_le = omega (arith, s.bytes, le);
  }

  pub checkpoint-saved_bytes :
      (force : Bool) (outcome : SaveOutcome) (now elapsed instant : ℕ) (o : SegmentOutput)
      (d : Directory)
      → o.saved_bytes ≤ o.state.bytes
      → (checkpoint force outcome now elapsed instant o d).0.saved_bytes ≤ o.state.bytes
  unfolding checkpoint
  checkpoint-saved_bytes force not_synced now elapsed instant o d h = ground arith
  checkpoint-saved_bytes force not_written now elapsed instant o d h = ground arith
  checkpoint-saved_bytes force saved now elapsed instant o d h = ground arith

  abbrev pub Both : SegmentOutput × Directory → Type 0
  Both x = IsRecorded source x.0 x.1

  pub checkpoint-IsRecorded :
      (force : Bool) (outcome : SaveOutcome) (now elapsed instant : ℕ) (o : SegmentOutput)
      (d : Directory)
      → IsValid source o
      → IsRecorded source o d
      → Both (checkpoint force outcome now elapsed instant o d)
  unfolding checkpoint
  checkpoint-IsRecorded force not_synced now elapsed instant o d v r =
      if_cases Both _ _ _ (λ e. r) (λ e. r)
  checkpoint-IsRecorded force not_written now elapsed instant o d v r =
      if_cases Both _ _ _ (λ e. r) (λ e. record { saved = r.saved; truth = r.truth })
  checkpoint-IsRecorded force saved now elapsed instant o d v r =
      if_cases Both _ _ _ (λ e. r)
        (λ e. record {
          saved = λ c h. ground (arith, h);
          truth = λ c h.
              subst (λ x. Prefix (source x.fingerprint) x.next_index x.bytes o.file.content)
                (some_injective h) v.prefix;
        })

  -- A segment as it was fetched.
  pub record IsSegment (fingerprint : Text) (i : ℕ) (c : Completed) : Type 0 where
    pub whole : get_elem? (source fingerprint) i ≡ some c.content
    pub counted : c.size ≡ length c.content
    pub some_bytes : 0 < c.size

  abbrev pub AllFetched : Text → List (ℕ × Result Completed Failed) → Type 0
  AllFetched fingerprint [] = Unit {0}
  AllFetched fingerprint ((i, ok c) ∷ rs) = IsSegment fingerprint i c × AllFetched fingerprint rs
  AllFetched fingerprint ((i, err e) ∷ rs) = AllFetched fingerprint rs

  pub AllFetched-append :
      (fingerprint : Text) (xs ys : List (ℕ × Result Completed Failed))
      → AllFetched fingerprint xs
      → AllFetched fingerprint ys
      → AllFetched fingerprint (xs ++ ys)
  AllFetched-append fingerprint [] ys h k = k
  AllFetched-append fingerprint ((i, ok c) ∷ xs) ys h k =
      (h.0, AllFetched-append fingerprint xs ys h.1 k)
  AllFetched-append fingerprint ((i, err e) ∷ xs) ys h k = AllFetched-append fingerprint xs ys h k

  pub record IsSound (t : Transfer) : Type 0 where
    pub valid : IsValid source t.output
    pub recorded : IsRecorded source t.output t.directory
    pub received :
        (i : ℕ) (c : Completed)
        → find i t.pending ≡ some c
        → IsSegment t.output.state.fingerprint i c
    pub coming : AllFetched t.output.state.fingerprint t.results
    -- After an append that failed, its segment does not come again.
    pub ready : IsReady t.output ⊎ (total t.output.state.next_index t ≡ 0)
    pub going : t.stop ≡ false → IsReady t.output
    pub unpromoted : t.output.promoted ≡ false
