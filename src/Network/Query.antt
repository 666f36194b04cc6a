-- ===== src/Network/Query.antt =====
-- rust_backend/crates/network/src/query.rs: queries of URLs, with Go's escapes. A `str` is its bytes
-- of UTF-8, on which the separators are single bytes.
pub mod Escapes
pub mod RoundTrip
pub mod Normal
use spoti_flac_mobile.Prelude.{
  ℕ, Bool, Option, none, some, List, [], ◌∷◌, ◌++◌, ◌&&◌, ◌||◌, ◌+◌, ◌-◌, ◌*◌, ◌/◌, ◌%◌,
  if◌then◌else◌, leb, ltb, ◌==◌, map, not, false,
}
use spoti_flac_mobile.Prelude.Text.{Text, is_empty}
use spoti_flac_mobile.BTreeMap.{BTreeMap, get, insert}

abbrev pub Query : Type 0
Query = BTreeMap (List Text)

-- `u8::is_ascii_alphanumeric` or one of "-_.~".
abbrev pub is_unreserved : ℕ → Bool
is_unreserved b =
    leb 48 b && leb b 57
    || leb 65 b && leb b 90
    || leb 97 b && leb b 122
    || b == 45
    || b == 95
    || b == 46
    || b == 126

-- A digit of `{:X}`.
abbrev pub hex_digit : ℕ → ℕ
hex_digit n = if ltb n 10 then 48 + n else 55 + n

abbrev pub escape_byte : ℕ → Text
escape_byte b =
    if is_unreserved b
    then b ∷ []
    else if b == 32
    then 43 ∷ []
    else 37 ∷ hex_digit (b / 16) ∷ hex_digit (b % 16) ∷ []

unfoldable pub escape : Text → Text
escape [] = []
escape (b ∷ bytes) = escape_byte b ++ escape bytes

-- `char::to_digit(16)`.
abbrev pub to_digit : ℕ → Option ℕ
to_digit c =
    if leb 48 c && leb c 57
    then some (c - 48)
    else if leb 65 c && leb c 70
    then some (c - 55)
    else if leb 97 c && leb c 102
    then some (c - 87)
    else none

abbrev pub hex_byte : Option ℕ → Option ℕ → Option ℕ
hex_byte (some h) (some l) = some ((h * 16 + l) % 256)
hex_byte (some h) none = none
hex_byte none l = none

abbrev pub push_byte : Option ℕ → Option Text → Option Text
push_byte (some b) (some bytes) = some (b ∷ bytes)
push_byte (some b) none = none
push_byte none bytes = none

unfoldable mutual
  pub decode : Text → Option Text
  decode [] = some []
  decode (c ∷ bytes) =
      let rest = decode bytes in
      let escaped = decode_escape bytes in
      if c == 43
      then push_byte (some 32) rest
      else if c == 37
      then escaped
      else push_byte (some c) rest

  -- After a `%`.
  pub decode_escape : Text → Option Text
  decode_escape [] = none
  decode_escape (h ∷ []) = none
  decode_escape (h ∷ l ∷ bytes) = push_byte (hex_byte (to_digit h) (to_digit l)) (decode bytes)

abbrev pub extend_first : ℕ → List Text → List Text
extend_first c [] = (c ∷ []) ∷ []
extend_first c (part ∷ parts) = (c ∷ part) ∷ parts

-- `str::split` at a byte.
unfoldable pub split : ℕ → Text → List Text
split at_byte [] = [] ∷ []
split at_byte (c ∷ s) =
    let rest = split at_byte s in if c == at_byte then [] ∷ rest else extend_first c rest

abbrev pub extend_key : ℕ → Option (Text × Text) → Option (Text × Text)
extend_key c none = none
extend_key c (some (key, value)) = some (c ∷ key, value)

-- `str::split_once` at a byte.
unfoldable pub split_once : ℕ → Text → Option (Text × Text)
split_once at_byte [] = none
split_once at_byte (c ∷ s) =
    let rest = split_once at_byte s in if c == at_byte then some ([], s) else extend_key c rest

unfoldable pub contains : ℕ → Text → Bool
contains b [] = false
contains b (c ∷ s) = c == b || contains b s

-- `unwrap_or((pair, ""))`.
abbrev pub key_value : Text → Option (Text × Text) → Text × Text
key_value pair none = (pair, [])
key_value pair (some found) = found

abbrev pub or_default : Option (List Text) → List Text
or_default none = []
or_default (some vs) = vs

-- `values.entry(key).or_default().push(value)`.
unfoldable pub push_value : Text → Text → Query → Query
push_value key value values = insert key (or_default (get key values) ++ (value ∷ [])) values

abbrev pub push_decoded : Option Text → Option Text → Query → Query
push_decoded (some key) (some value) values = push_value key value values
push_decoded (some key) none values = values
push_decoded none value values = values

-- The body of the loop of `parse`.
unfoldable pub parse_pair : Text → Query → Query
parse_pair pair values =
    let found = key_value pair (split_once 61 pair) in
    if is_empty pair || contains 59 pair
    then values
    else push_decoded (decode found.0) (decode found.1) values

unfoldable pub parse_pairs : List Text → Query → Query
parse_pairs [] values = values
parse_pairs (pair ∷ pairs) values = parse_pairs pairs (parse_pair pair values)

unfoldable pub parse : Text → Query
parse query = parse_pairs (split 38 query) []

unfoldable pub set : Text → Text → Query → Query
set key value values = insert key (value ∷ []) values

abbrev pub format_pair : Text → Text → Text
format_pair key value = escape key ++ (61 ∷ escape value)

unfoldable pub pairs_of : Query → List Text
pairs_of [] = []
pairs_of ((key, vs) ∷ values) = map (format_pair key) vs ++ pairs_of values

-- `join("&")`.
unfoldable pub join : List Text → Text
join [] = []
join (p ∷ []) = p
join (p ∷ q ∷ ps) = p ++ (38 ∷ join (q ∷ ps))

unfoldable pub encode : Query → Text
encode values = join (pairs_of values)
