-- ===== src/Network/Query/Normal.antt =====
-- rust_backend/crates/network/src/query.rs: the queries that `parse` gives.
use spoti_flac_mobile.BTreeMap.Order.{IsSorted}
use spoti_flac_mobile.Network.Query.RoundTrip.{IsQuery, IsTexts, push_value-IsSorted, parse-encode}
use spoti_flac_mobile.Network.Query.Escapes.{IsBytes}
use spoti_flac_mobile.Network.Query.{
  split_once, push_value, Query, parse_pair, parse_pairs, split, parse, push_byte, hex_byte,
  extend_first, extend_key, key_value, or_default, push_decoded, encode, is_empty, contains, decode,
  decode_escape, to_digit,
}
use spoti_flac_mobile.Prelude.Text.{Text}
use spoti_flac_mobile.Prelude.{
  ℕ, Option, ℕ, List, some, ◌<◌, ◌∷◌, length, ◌++◌, none, arith, if_cases, [], ◌≡◌, length-append,
  ◌==◌, ◌||◌,
}
use spoti_flac_mobile.BTreeMap.{get, insert}

-- A result that may be missing satisfies a predicate.
abbrev pub Holds {ℓ} : {A : Type ℓ} → (A → Type 0) → Option A → Type 0
Holds P none = Unit
Holds P (some a) = P a

pub push_byte-IsBytes :
    (b : Option ℕ) (rest : Option Text)
    → Holds (λ n. n < 256) b
    → Holds IsBytes rest
    → Holds IsBytes (push_byte b rest)
push_byte-IsBytes none rest h k = tt
push_byte-IsBytes (some b) none h k = tt
push_byte-IsBytes (some b) (some rest) h k = (h, k)

pub hex_byte-bound : (h l : Option ℕ) → Holds (λ n. n < 256) (hex_byte h l)
hex_byte-bound none l = tt
hex_byte-bound (some h) none = tt
hex_byte-bound (some h) (some l) = omega arith

mutual
  unfolding decode

  decode-IsBytes : (s : Text) → IsBytes s → Holds IsBytes (decode s)
  decode-IsBytes [] h = tt
  decode-IsBytes (c ∷ s) h =
      if_cases (Holds IsBytes) (c == 43) (push_byte (some 32) (decode s)) _
        (λ _. push_byte-IsBytes (some 32) (decode s) (omega arith) (decode-IsBytes s h.1))
        (λ _.
          if_cases (Holds IsBytes) (c == 37) (decode_escape s) _ (λ _. decode_escape-IsBytes s h.1)
            (λ _. push_byte-IsBytes (some c) (decode s) h.0 (decode-IsBytes s h.1)))

  decode_escape-IsBytes : (s : Text) → IsBytes s → Holds IsBytes (decode_escape s)
  decode_escape-IsBytes [] h = tt
  decode_escape-IsBytes (a ∷ []) h = tt
  decode_escape-IsBytes (a ∷ b ∷ s) h =
      push_byte-IsBytes (hex_byte (to_digit a) (to_digit b)) (decode s)
        (hex_byte-bound (to_digit a) (to_digit b)) (decode-IsBytes s h.1.1)

extend_first-IsTexts :
    (c : ℕ) (parts : List Text) → c < 256 → IsTexts parts → IsTexts (extend_first c parts)
extend_first-IsTexts c [] h k = ((h, tt), tt)
extend_first-IsTexts c (p ∷ ps) h k = ((h, k.0), k.1)

split-IsTexts : (at_byte : ℕ) (s : Text) → IsBytes s → IsTexts (split at_byte s)
unfolding split
split-IsTexts at_byte [] h = (tt, tt)
split-IsTexts at_byte (c ∷ s) h =
    let rest = split-IsTexts at_byte s h.1 in
    if_cases IsTexts (c == at_byte) ([] ∷ split at_byte s) _ (λ _. (tt, rest))
      (λ _. extend_first-IsTexts c (split at_byte s) h.0 rest)

abbrev ArePair : Text × Text → Type 0
ArePair p = IsBytes p.0 × IsBytes p.1

extend_key-ArePair :
    (c : ℕ) (found : Option (Text × Text))
    → c < 256
    → Holds ArePair found
    → Holds ArePair (extend_key c found)
extend_key-ArePair c none h k = tt
extend_key-ArePair c (some found) h k = ((h, k.0), k.1)

split_once-ArePair : (at_byte : ℕ) (s : Text) → IsBytes s → Holds ArePair (split_once at_byte s)
unfolding split_once
split_once-ArePair at_byte [] h = tt
split_once-ArePair at_byte (c ∷ s) h =
    if_cases (Holds ArePair) (c == at_byte) (some ([], s)) _ (λ _. (tt, h.1))
      (λ _. extend_key-ArePair c (split_once at_byte s) h.0 (split_once-ArePair at_byte s h.1))

key_value-ArePair :
    (s : Text) (found : Option (Text × Text))
    → IsBytes s
    → Holds ArePair found
    → ArePair (key_value s found)
key_value-ArePair s none h k = (h, tt)
key_value-ArePair s (some found) h k = k

-- What the entries are made of.
pub insert-IsQuery :
    (key : Text) (vs : List Text) (values : Query)
    → IsBytes key
    → 0 < length vs
    → IsTexts vs
    → IsQuery values
    → IsQuery (insert key vs values)
unfolding insert
insert-IsQuery key vs [] h k l q = (h, k, l, tt)
insert-IsQuery key vs ((j, ws) ∷ values) h k l q = ground (arith, insert-IsQuery key vs values)

get-IsTexts : (key : Text) (values : Query) → IsQuery values → IsTexts (or_default (get key values))
unfolding get
get-IsTexts key [] q = tt
get-IsTexts key ((j, ws) ∷ values) q = ground (arith, get-IsTexts key values)

snoc-IsTexts : (vs : List Text) (v : Text) → IsTexts vs → IsBytes v → IsTexts (vs ++ (v ∷ []))
snoc-IsTexts [] v h k = (k, tt)
snoc-IsTexts (w ∷ vs) v h k = (h.0, snoc-IsTexts vs v h.1 k)

push_value-IsQuery :
    (key value : Text) (values : Query)
    → IsBytes key
    → IsBytes value
    → IsQuery values
    → IsQuery (push_value key value values)
unfolding push_value
push_value-IsQuery key value values h k q =
    let held = or_default (get key values) in
    insert-IsQuery key (held ++ (value ∷ [])) values h
      (omega (arith, length-append held (value ∷ [])))
      (snoc-IsTexts held value (get-IsTexts key values q) k) q

abbrev pub IsNormal : Query → Type 0
IsNormal values = IsSorted values × IsQuery values

push_decoded-IsNormal :
    (key value : Option Text) (values : Query)
    → Holds IsBytes key
    → Holds IsBytes value
    → IsNormal values
    → IsNormal (push_decoded key value values)
push_decoded-IsNormal none value values h k n = n
push_decoded-IsNormal (some key) none values h k n = n
push_decoded-IsNormal (some key) (some value) values h k n =
    (push_value-IsSorted key value values n.0, push_value-IsQuery key value values h k n.1)

parse_pair-IsNormal :
    (pair : Text) (values : Query)
    → IsBytes pair
    → IsNormal values
    → IsNormal (parse_pair pair values)
unfolding parse_pair
parse_pair-IsNormal pair values h n =
    let found = key_value pair (split_once 61 pair) in
    let bytes = key_value-ArePair pair (split_once 61 pair) h (split_once-ArePair 61 pair h) in
    if_cases IsNormal (is_empty pair || contains 59 pair) values _ (λ _. n)
      (λ _.
        push_decoded-IsNormal (decode found.0) (decode found.1) values
          (decode-IsBytes found.0 bytes.0) (decode-IsBytes found.1 bytes.1) n)

parse_pairs-IsNormal :
    (pairs : List Text) (values : Query)
    → IsTexts pairs
    → IsNormal values
    → IsNormal (parse_pairs pairs values)
unfolding parse_pairs
parse_pairs-IsNormal [] values h n = n
parse_pairs-IsNormal (pair ∷ pairs) values h n =
    parse_pairs-IsNormal pairs (parse_pair pair values) h.1 (parse_pair-IsNormal pair values h.0 n)

pub parse-IsNormal : (query : Text) → IsBytes query → IsNormal (parse query)
unfolding parse
parse-IsNormal query h =
    parse_pairs-IsNormal (split 38 query) [] (split-IsTexts 38 query h) (tt, tt)

-- Whatever bytes a query is, what `parse` reads is what it reads again from the encoding of that:
-- an `encode` loses and adds nothing, and what is malformed was dropped the first time.
pub parse-encode-parse : (query : Text) → IsBytes query → parse (encode (parse query)) ≡ parse query
parse-encode-parse query h =
    let normal = parse-IsNormal query h in parse-encode (parse query) normal.0 normal.1
