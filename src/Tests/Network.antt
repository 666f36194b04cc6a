-- ===== src/Tests/Network.antt =====
-- A test and witnesses for the queries of URLs.
use spoti_flac_mobile.BTreeMap.Order.{IsSorted}
use spoti_flac_mobile.Network.Query.Escapes.{IsBytes}
use spoti_flac_mobile.Network.Query.Normal.{parse-encode-parse}
use spoti_flac_mobile.Network.Query.RoundTrip.{IsQuery, parse-encode}
use spoti_flac_mobile.Prelude.{◌≡◌, Bool, true, ◌∷◌, arith, refl, ltb, [], ◌&&◌}
use spoti_flac_mobile.Prelude.Text.{Text, text_cmp, codes}
use spoti_flac_mobile.Network.Query.{
  escape, decode, split, split_once, contains, push_value, parse_pair, parse_pairs, parse, pairs_of,
  join, encode, Query,
}
use spoti_flac_mobile.BTreeMap.{get, insert}

abbrev messy : Text
messy = codes "z=one+two&x=%FF&x=%2f&bad=%Q0&semi=a;b&empty&~!=*"

messy_test : encode (parse messy) ≡ codes "empty=&x=%FF&x=%2F&z=one+two&~%21=%2A"
unfolding escape decode split split_once contains push_value parse_pair parse_pairs parse pairs_of
    join encode get insert text_cmp
messy_test = refl

abbrev are_bytes : Text → Bool
are_bytes [] = true
are_bytes (b ∷ s) = ltb b 256 && are_bytes s

are_bytes-IsBytes : (s : Text) → are_bytes s ≡ true → IsBytes s
are_bytes-IsBytes [] h = tt
are_bytes-IsBytes (b ∷ s) h = ground (arith, are_bytes-IsBytes s)

parse-encode-parse_example : parse (encode (parse messy)) ≡ parse messy
parse-encode-parse_example = parse-encode-parse messy (are_bytes-IsBytes messy refl)

abbrev query : Query
query = (codes "a", codes "1 2" ∷ [] ∷ []) ∷ (codes "b;", codes "&=" ∷ []) ∷ []

query-IsSorted : IsSorted query
unfolding text_cmp
query-IsSorted = ((refl, tt), (tt, tt))

query-IsQuery : IsQuery query
query-IsQuery = ground arith

parse-encode_example : parse (encode query) ≡ query
parse-encode_example = parse-encode query query-IsSorted query-IsQuery
