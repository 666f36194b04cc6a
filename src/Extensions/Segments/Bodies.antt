-- ===== src/Extensions/Segments/Bodies.antt =====
-- rust_backend/crates/extensions/src/download/segments.rs: the bodies that a worker reads.
use mathlib.Core.List.{append-nil, append_assoc}
use spoti_flac_mobile.Prelude.{
  ℕ, ◌+◌, ◌≤◌, ◌<◌, ◌≡◌, refl, true, List, [], ◌∷◌, ◌++◌, arith, length, length-append, ◌==◌,
  if_cases, Bool, sym, ◌∙◌, ap, false,
}
use spoti_flac_mobile.Extensions.Segments.Fetch.{Read, chunk, unread, unwritten, read_body}

-- The body's bytes are in the file, and are counted.
pub record Counted (content : List ℕ) (received : ℕ) (y : Bool × List ℕ × ℕ) : Type 0 where
  pub counted : y.2 + length content ≡ received + length y.1
  pub longer : length content ≤ length y.1

pub read_body-Counted :
    (reads : List Read) (content : List ℕ) (received : ℕ)
    → Counted content received (read_body reads content received)
unfolding read_body
read_body-Counted [] content received = record { counted = refl; longer = omega arith }
read_body-Counted (unread ∷ reads) content received = record {
  counted = refl;
  longer = omega arith;
}
read_body-Counted (unwritten ∷ reads) content received = record {
  counted = refl;
  longer = omega arith;
}
read_body-Counted (chunk bytes ∷ reads) content received =
    let r = read_body-Counted reads (content ++ bytes) (received + length bytes) in
    if_cases (Counted content received) (length bytes == 0) _ _
      (λ e. record { counted = refl; longer = omega arith })
      (λ e. record {
        counted = omega (arith, r.counted, length-append content bytes);
        longer = omega (arith, r.longer, length-append content bytes);
      })

-- The reads of a body that ended well, and all its bytes: each read up to the first empty one, or to
-- the end, brought some.
pub data IsBody : List Read → List ℕ → Type 0 where
  ended : IsBody [] []
  empty_read : (reads : List Read) → IsBody (chunk [] ∷ reads) []
  more_bytes :
      (bytes content : List ℕ) (reads : List Read)
      → 0 < length bytes
      → IsBody reads content
      → IsBody (chunk bytes ∷ reads) (bytes ++ content)

-- What is appended to the content of the file is the body.
abbrev pub Appends : List Read → List ℕ → Bool × List ℕ × ℕ → Type 0
Appends reads content y = y.0 ≡ true → (body : List ℕ) × IsBody reads body × (y.1 ≡ content ++ body)

empty-Appends :
    (bytes content : List ℕ) (reads : List Read) (received : ℕ)
    → (length bytes == 0) ≡ true
    → Appends (chunk bytes ∷ reads) content (true, content, received)
empty-Appends [] content reads received e = λ _. ([], empty_read reads, sym (append-nil content))
empty-Appends (b ∷ bytes) content reads received e = absurd (ground arith)

pub read_body-Appends :
    (reads : List Read) (content : List ℕ) (received : ℕ)
    → Appends reads content (read_body reads content received)
unfolding read_body
read_body-Appends [] content received = λ _. ([], ended, sym (append-nil content))
read_body-Appends (unread ∷ reads) content received = λ bad. absurd (ground arith)
read_body-Appends (unwritten ∷ reads) content received = λ bad. absurd (ground arith)
read_body-Appends (chunk bytes ∷ reads) content received =
    if_cases (Appends (chunk bytes ∷ reads) content) (length bytes == 0) (true, content, received) _
      (λ e. empty-Appends bytes content reads received e)
      (λ e well.
        let (body, whole, is) =
          read_body-Appends reads (content ++ bytes) (received + length bytes) well in
        (
          bytes ++ body,
          more_bytes bytes body reads (ground (arith, e)) whole,
          is ∙ append_assoc content bytes body,
        ))

-- What `read_body` makes of a whole body.
pub IsBody-read_body :
    (reads : List Read) (body content : List ℕ) (received : ℕ)
    → IsBody reads body
    → (n : ℕ) × (read_body reads content received ≡ (true, content ++ body, n))
unfolding read_body
IsBody-read_body reads body content received ended =
    (received, ap (λ s. (true, s, received)) (sym (append-nil content)))
IsBody-read_body reads body content received (empty_read rest) =
    (received, ap (λ s. (true, s, received)) (sym (append-nil content)))
IsBody-read_body reads body content received (more_bytes bytes more rest some_bytes h) =
    let (n, e) = IsBody-read_body rest more (content ++ bytes) (received + length bytes) h in
    let other : (length bytes == 0) ≡ false = ground (arith, some_bytes) in
    (n, rw other (e ∙ ap (λ s. (true, s, n)) (append_assoc content bytes more)))
