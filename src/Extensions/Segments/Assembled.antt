-- ===== src/Extensions/Segments/Assembled.antt =====
-- rust_backend/crates/extensions/src/download/segment_store.rs: what is assembled is a prefix of the
-- resource, whichever calls of the file system fail.
use spoti_flac_mobile.Prelude.{
  ℕ, zero, suc, ◌+◌, ◌≤◌, ◌≡◌, refl, sym, ap, subst, ◌∙◌, List, [], ◌∷◌, ◌++◌, some, arith, length,
  take, drop, get_elem?, ◌==◌, Bool-cases, inl, inr, length-append,
}
use mathlib.Core.List.{append-nil, append_assoc}
use spoti_flac_mobile.Prelude.Text.{Text}
use spoti_flac_mobile.Prelude.Result.{Result, ok, err}
use spoti_flac_mobile.Extensions.Segments.Stage.{
  Stage, AtEnd, extended, extended_nil, write_all_end,
}
use spoti_flac_mobile.Extensions.Segments.Store.{SegmentOutput, failed, Failed}
use spoti_flac_mobile.Extensions.Segments.Writing.{Turn, copy, unread, moved, torn, moved, torn}

-- The segments of the resource with a fingerprint.
abbrev pub Source : Type 0
Source = Text → List (List ℕ)

abbrev pub joined : List (List ℕ) → List ℕ
joined [] = []
joined (xs ∷ xss) = xs ++ joined xss

pub joined-take-suc :
    (i : ℕ) (xss : List (List ℕ)) (xs : List ℕ)
    → get_elem? xss i ≡ some xs
    → joined (take (suc i) xss) ≡ joined (take i xss) ++ xs
joined-take-suc i [] xs h = absurd (cc)
joined-take-suc zero (ys ∷ xss) xs h = rw append-nil (ground arith)
joined-take-suc (suc i) (ys ∷ xss) xs h =
    rw (append_assoc ys (joined (take i xss)) xs) (ap (◌++◌ ys) (joined-take-suc i xss xs h))

-- The first `bytes` of a file are the first `next` segments.
pub record Prefix (segments : List (List ℕ)) (next bytes : ℕ) (content : List ℕ) : Type 0 where
  pub same : take bytes content ≡ joined (take next segments)
  pub size : bytes ≤ length content

pub Prefix_of_take :
    {segments : List (List ℕ)} {next bytes : ℕ} {content : List ℕ} (content' : List ℕ)
    → Prefix segments next bytes content
    → take bytes content' ≡ take bytes content
    → bytes ≤ length content'
    → Prefix segments next bytes content'
Prefix_of_take content' p e h = record { same = e ∙ p.same; size = h }

-- What a loop of `append` has done to the file: it has written more at the end.
pub data Grown (s : Stage) (copied : ℕ) (rest : List ℕ) : Result ℕ Failed × Stage → Type 0 where
  whole :
      (k : ℕ) → Grown s copied rest (ok (copied + length (take k rest)), extended s (take k rest))
  part : (bytes : List ℕ) (e : Failed) → Grown s copied rest (err e, extended s bytes)

take_nil : {A : Type 0} (n : ℕ) → ◌≡◌ {A = List A} (take n []) []
take_nil zero = refl
take_nil (suc n) = refl

take_add : {A : Type 0} (n m : ℕ) (xs : List A) → take (n + m) xs ≡ take n xs ++ take m (drop n xs)
take_add zero m xs = ap (λ k. take k xs) (omega arith)
take_add (suc n) m [] = take_nil (suc n + m) ∙ sym (take_nil m)
take_add (suc n) m (x ∷ xs) =
    let one : suc n + m ≡ suc (n + m) = omega arith in
    ap (λ k. take k (x ∷ xs)) one ∙ ap (◌∷◌ x) (take_add n m xs)

Grown-extended :
    (s : Stage) (copied count : ℕ) (rest : List ℕ) {r : Result ℕ Failed × Stage}
    → Grown (extended s (take count rest)) (copied + length (take count rest)) (drop count rest) r
    → Grown s copied rest r
Grown-extended s copied count rest (whole k) =
    subst (Grown s copied rest)
      (rw (take_add count k rest) (
        ground (
          arith,
          length-append (take count rest) (take k (drop count rest)),
          append_assoc s.content (take count rest) (take k (drop count rest)),
        )))
      (whole (count + k))
Grown-extended s copied count rest (part bytes e) =
    subst (Grown s copied rest)
      (ground (
        arith,
        length-append (take count rest) bytes,
        append_assoc s.content (take count rest) bytes,
      ))
      (part (take count rest ++ bytes) e)

pub copy-Grown :
    (turns : List Turn) (rest : List ℕ) (s : Stage) (copied : ℕ) (r : Result ℕ Failed × Stage)
    → AtEnd s
    → copy turns rest s copied ≡ some r
    → Grown s copied rest r
unfolding copy
copy-Grown [] rest s copied r h e = absurd (cc)
copy-Grown (Turn.cancelled ∷ turns) rest s copied r h e =
    subst (Grown s copied rest) (ground (arith, extended_nil s h)) (part [] failed)
copy-Grown (unread ∷ turns) rest s copied r h e =
    subst (Grown s copied rest) (ground (arith, extended_nil s h)) (part [] failed)
copy-Grown (moved count ∷ turns) rest s copied r h e =
    elim (Bool-cases (length (take count rest) == 0)) [
      | inl done ↦ subst (Grown s copied rest) (ground (arith, extended_nil s h)) (whole zero)
      | inr more ↦ Grown-extended s copied count rest (
          copy-Grown turns (drop count rest) (extended s (take count rest))
            (copied + length (take count rest)) r (record { at_end = refl })
            (rw (← write_all_end (take count rest) s h) (ground (arith, e))))
    ]
copy-Grown (torn count written ∷ turns) rest s copied r h e =
    elim (Bool-cases (length (take count rest) == 0)) [
      | inl done ↦ subst (Grown s copied rest) (ground (arith, extended_nil s h)) (whole zero)
      | inr more ↦
          subst (Grown s copied rest)
            (ground (arith, write_all_end (take written (take count rest)) s h))
            (part (take written (take count rest)) failed)
    ]

-- The output is open and its file begins with the segments that it counts.
pub record IsValid (source : Source) (o : SegmentOutput) : Type 0 where
  pub prefix : Prefix (source o.state.fingerprint) o.state.next_index o.state.bytes o.file.content
  pub next_le : o.state.next_index ≤ o.segments
  pub all_segments : length (source o.state.fingerprint) ≡ o.segments
  pub saved_le : o.saved_bytes ≤ o.state.bytes

-- Its cursor stands where the next segment belongs, and nothing follows.
pub record IsReady (o : SegmentOutput) : Type 0 where
  pub cursor : o.file.position ≡ o.state.bytes
  pub ends : length o.file.content ≡ o.state.bytes
