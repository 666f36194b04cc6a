-- ===== src/Extensions/Segments/Stage.antt =====
-- An open file, as download/segment_store.rs uses one: its bytes and the place of its cursor.
use spoti_flac_mobile.Prelude.{
  ℕ, zero, suc, ◌+◌, ◌-◌, ◌≤◌, ◌≡◌, refl, ap, List, [], ◌∷◌, ◌++◌, arith, length, take, drop,
  replicate, length-append, length-take, length-replicate, ◌∙◌, get_elem?, some, ◌<◌,
}
use mathlib.Core.List.{append-nil}

pub record Stage : Type 0 where
  pub content : List ℕ
  pub position : ℕ

-- What lies between the end of a file and a place behind it reads as zeros.
abbrev pub pad : ℕ → List ℕ → List ℕ
pad n bytes = bytes ++ replicate (n - length bytes) 0

unfoldable pub set_len : ℕ → Stage → Stage
set_len n s = record s { content = take n (pad n s.content) }

abbrev pub seek : ℕ → Stage → Stage
seek n s = record s { position = n }

-- `write_all` at the cursor.
unfoldable pub write_all : List ℕ → Stage → Stage
write_all bytes s = record {
  content =
      take s.position (pad s.position s.content)
      ++ (bytes ++ drop (s.position + length bytes) s.content);
  position = s.position + length bytes;
}

module _ {ℓ} {A : Type ℓ} where
  pub take-append_le : (n : ℕ) (xs ys : List A) → n ≤ length xs → take n (xs ++ ys) ≡ take n xs
  take-append_le zero xs ys h = refl
  take-append_le (suc n) [] ys h = absurd (omega arith)
  take-append_le (suc n) (x ∷ xs) ys h = ap (◌∷◌ x) (take-append_le n xs ys (omega arith))

  pub take-take : (n m : ℕ) (xs : List A) → n ≤ m → take n (take m xs) ≡ take n xs
  take-take zero m xs h = refl
  take-take (suc n) zero xs h = absurd (omega arith)
  take-take (suc n) (suc m) [] h = refl
  take-take (suc n) (suc m) (x ∷ xs) h = ap (◌∷◌ x) (take-take n m xs (omega arith))

  pub take_all : (n : ℕ) (xs : List A) → length xs ≤ n → take n xs ≡ xs
  take_all zero [] h = refl
  take_all zero (x ∷ xs) h = absurd (omega arith)
  take_all (suc n) [] h = refl
  take_all (suc n) (x ∷ xs) h = ap (◌∷◌ x) (take_all n xs (omega arith))

  pub drop_all : (n : ℕ) (xs : List A) → length xs ≤ n → drop n xs ≡ []
  drop_all zero [] h = refl
  drop_all zero (x ∷ xs) h = absurd (omega arith)
  drop_all (suc n) [] h = refl
  drop_all (suc n) (x ∷ xs) h = drop_all n xs (omega arith)

  pub lt_of_get_elem? : (xs : List A) (n : ℕ) {x : A} → get_elem? xs n ≡ some x → n < length xs
  lt_of_get_elem? [] n h = absurd (cc)
  lt_of_get_elem? (x ∷ xs) zero h = omega arith
  lt_of_get_elem? (x ∷ xs) (suc n) h = omega (arith, lt_of_get_elem? xs n h)

  pub take-append_all : (xs ys : List A) → take (length xs) (xs ++ ys) ≡ xs
  take-append_all [] ys = refl
  take-append_all (x ∷ xs) ys = ap (◌∷◌ x) (take-append_all xs ys)

-- A file whose cursor stands at its end.
pub record AtEnd (s : Stage) : Type 0 where
  pub at_end : s.position ≡ length s.content

abbrev pub extended : Stage → List ℕ → Stage
extended s bytes = record { content = s.content ++ bytes; position = length (s.content ++ bytes) }

pub write_all_end : (bytes : List ℕ) (s : Stage) → AtEnd s → write_all bytes s ≡ extended s bytes
unfolding write_all
write_all_end bytes s h = rw (
  h.at_end,
  take-append_all s.content (replicate (length s.content - length s.content) 0),
  drop_all (length s.content + length bytes) s.content (omega arith),
  append-nil,
  length-append s.content bytes,
)

pub extended_nil : (s : Stage) → AtEnd s → s ≡ extended s []
extended_nil s h = rw append-nil (ground (arith, h.at_end))

pub take-set_len :
    (n m : ℕ) (s : Stage)
    → n ≤ m
    → n ≤ length s.content
    → take n (set_len m s).content ≡ take n s.content
unfolding set_len
take-set_len n m s h k =
    take-take n m (pad m s.content) h
    ∙ take-append_le n s.content (replicate (m - length s.content) 0) k

pub length-set_len : (m : ℕ) (s : Stage) → length (set_len m s).content ≡ m
unfolding set_len
length-set_len m s = omega (
  arith,
  length-take m (pad m s.content),
  length-append s.content (replicate (m - length s.content) 0),
  length-replicate {A = ℕ} (m - length s.content) 0,
)
