-- ===== src/Extensions/Segments/Append.antt =====
-- rust_backend/crates/extensions/src/download/segment_store.rs: what `append` leaves.
use spoti_flac_mobile.Prelude.{
  ℕ, suc, ◌+◌, ◌≤◌, ◌≡◌, refl, sym, ap, subst, ◌∙◌, List, ◌++◌, some, arith, length, take,
  get_elem?, ◌==◌, Bool-cases, Option-cases, inl, inr, length-append, length-take,
}
use spoti_flac_mobile.Prelude.Result.{Result, ok, err}
use spoti_flac_mobile.Extensions.Segments.Stage.{
  Stage, extended, take-append_le, take-set_len, length-set_len, take_all, lt_of_get_elem?,
}
use spoti_flac_mobile.Extensions.Segments.Store.{SegmentOutput, Failed, failed}
use spoti_flac_mobile.Extensions.Segments.Writing.{
  Turn, copy, Completed, AppendFaults, rolled_back, appended, append,
}
use spoti_flac_mobile.Extensions.Segments.Assembled.{
  Source, joined, joined-take-suc, Prefix, Prefix_of_take, Grown, whole, part, copy-Grown, IsValid,
  IsReady,
}

-- What `append` leaves alone.
pub record Kept (o o' : SegmentOutput) : Type 0 where
  pub same : take o.state.bytes o'.file.content ≡ take o.state.bytes o.file.content
  pub size : o.state.bytes ≤ length o'.file.content
  pub fingerprint : o'.state.fingerprint ≡ o.state.fingerprint
  pub saved_bytes : o'.saved_bytes ≡ o.saved_bytes
  pub promoted : o'.promoted ≡ o.promoted
  pub segments : o'.segments ≡ o.segments

module _ (source : Source) (faults : AppendFaults) (segment : Completed) (o : SegmentOutput)
    (v : IsValid source o) (ready : IsReady o) where
  -- What `append` may leave: one more segment, or the same segments.
  pub data Appended : Result (Unit {0}) Failed × SegmentOutput → Type 0 where
    one_more :
        (o' : SegmentOutput)
        → IsValid source o'
        → IsReady o'
        → o'.state.next_index ≡ o.state.next_index + 1
        → o'.state.bytes ≡ o.state.bytes + segment.size
        → Kept o o'
        → Appended (ok tt, o')
    none_more :
        (o' : SegmentOutput) (e : Failed)
        → IsValid source o'
        → o'.state ≡ o.state
        → Kept o o'
        → Appended (err e, o')

  take-extended :
      (bytes : List ℕ)
      → take o.state.bytes (o.file.content ++ bytes) ≡ take o.state.bytes o.file.content
  take-extended bytes = take-append_le o.state.bytes o.file.content bytes v.prefix.size

  take-rolled_back :
      (bytes : List ℕ)
      → take o.state.bytes (rolled_back faults o.state.bytes (extended o.file bytes)).content
        ≡ take o.state.bytes o.file.content
  unfolding rolled_back
  take-rolled_back bytes = elim (Bool-cases faults.resize) [
    | inl stays ↦ ground (arith, take-extended bytes)
    | inr cut ↦ ground (
      arith,
      take-extended bytes,
      length-append o.file.content bytes,
      v.prefix.size,
      take-set_len o.state.bytes o.state.bytes (extended o.file bytes),
    )
  ]

  length-rolled_back :
      (bytes : List ℕ)
      → o.state.bytes ≤ length (rolled_back faults o.state.bytes (extended o.file bytes)).content
  unfolding rolled_back
  length-rolled_back bytes = ground (
    arith,
    length-append o.file.content bytes,
    v.prefix.size,
    length-set_len o.state.bytes (extended o.file bytes),
  )

  abbrev back : List ℕ → SegmentOutput
  back bytes = record o { file = rolled_back faults o.state.bytes (extended o.file bytes) }

  back-IsValid : (bytes : List ℕ) → IsValid source (back bytes)
  back-IsValid bytes = record {
    prefix =
        Prefix_of_take (back bytes).file.content v.prefix (take-rolled_back bytes)
          (length-rolled_back bytes);
    next_le = v.next_le;
    all_segments = v.all_segments;
    saved_le = v.saved_le;
  }

  unchanged : Kept o o
  unchanged = record {
    same = refl;
    size = v.prefix.size;
    fingerprint = refl;
    saved_bytes = refl;
    promoted = refl;
    segments = refl;
  }

  back-Kept : (bytes : List ℕ) → Kept o (back bytes)
  back-Kept bytes = record {
    same = take-rolled_back bytes;
    size = length-rolled_back bytes;
    fingerprint = refl;
    saved_bytes = refl;
    promoted = refl;
    segments = refl;
  }

  module _
      (whole_segment : get_elem? (source o.state.fingerprint) o.state.next_index
        ≡ some segment.content)
      (counted : segment.size ≡ length segment.content) where
    abbrev longer : SegmentOutput
    longer = record o {
      file = extended o.file segment.content;
      state = record (o.state) {
        bytes = o.state.bytes + segment.size;
        next_index = o.state.next_index + 1;
      };
    }

    length-longer : length longer.file.content ≡ o.state.bytes + segment.size
    length-longer = omega (arith, length-append o.file.content segment.content, ready.ends, counted)

    longer-Prefix :
        Prefix
          (source o.state.fingerprint)
          (o.state.next_index + 1)
          (o.state.bytes + segment.size)
          longer.file.content
    longer-Prefix = record {
      same =
          take_all (o.state.bytes + segment.size) longer.file.content (omega (arith, length-longer))
          ∙ ap (λ c. c ++ segment.content)
              (sym (take_all o.state.bytes o.file.content (omega (arith, ready.ends)))
                ∙ v.prefix.same)
          ∙ sym (
              joined-take-suc o.state.next_index (source o.state.fingerprint) segment.content
                whole_segment)
          ∙ ap (λ i. joined (take i (source o.state.fingerprint)))
              (let one : suc o.state.next_index ≡ o.state.next_index + 1 = omega arith in one);
      size = omega (arith, length-longer);
    }

    longer-one_more : Appended (ok tt, longer)
    longer-one_more =
        one_more longer
          (record {
            prefix = longer-Prefix;
            next_le = omega (
              arith,
              v.all_segments,
              lt_of_get_elem? (source o.state.fingerprint) o.state.next_index whole_segment,
            );
            all_segments = v.all_segments;
            saved_le = omega (arith, v.saved_le);
          })
          (record { cursor = length-longer; ends = length-longer }) refl refl
          (record {
            same = take-extended segment.content;
            size = omega (arith, length-longer);
            fingerprint = refl;
            saved_bytes = refl;
            promoted = refl;
            segments = refl;
          })

    Grown-Appended :
        {r : Result ℕ Failed × Stage}
        → Grown o.file 0 segment.content r
        → Appended (appended faults segment o r)
    Grown-Appended (part bytes e) =
        none_more (back bytes) e (back-IsValid bytes) refl (back-Kept bytes)
    Grown-Appended (whole k) =
        elim (Bool-cases (0 + length (take k segment.content) == segment.size)) [
          | inl all ↦
              let full : take k segment.content ≡ segment.content =
                take_all k segment.content
                  (ground (arith, length-take k segment.content, counted)) in
              rw all (
                rw full (
                  subst
                    (λ n. Appended (
                      ok tt,
                      record longer { state = record (longer.state) { bytes = o.state.bytes + n } },
                    ))
                    (omega (arith, counted)) longer-one_more))
          | inr short ↦ rw short (
              none_more (back (take k segment.content)) failed
                (back-IsValid (take k segment.content)) refl (back-Kept (take k segment.content)))
        ]

    -- Whatever fails, the file of a ready output begins with whole segments after `append` too, and
    -- after a success it is ready and has one segment more.
    pub append-Appended :
        (turns : List Turn) (r : Result (Unit {0}) Failed × SegmentOutput)
        → append faults turns segment o ≡ some r
        → Appended r
    unfolding append
    append-Appended turns r e = elim (Bool-cases faults.rewind_segment) [
      | inl early ↦ subst Appended (ground (arith, e)) (none_more o failed v refl unchanged)
      | inr rewound ↦ elim (Option-cases (copy turns segment.content o.file 0)) [
        | inl unfinished ↦ absurd (ground (arith, e))
        | inr (r', finished) ↦ subst Appended (ground (arith, e)) (
            Grown-Appended (
              copy-Grown turns segment.content o.file 0 r'
                (record { at_end = ground (arith, ready.cursor, ready.ends) }) finished))
      ]
    ]
