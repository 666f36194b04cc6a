-- ===== src/Network/Query/RoundTrip.antt =====
-- rust_backend/crates/network/src/query.rs: `parse` and `encode` together.
use spoti_flac_mobile.Network.Query.Escapes.{
  IsBytes, is_written, contains-escape, contains-append, decode-escape,
}
use spoti_flac_mobile.BTreeMap.{get-insert, get}
use spoti_flac_mobile.Network.Query.{
  escape, contains, parse_pair, split, split_once, Query, format_pair, push_value, is_empty,
  parse_pairs, pairs_of, join, parse, or_default, encode,
}
use spoti_flac_mobile.Prelude.Text.{Text, ◌=ₜ◌, =ₜ_iff}
use spoti_flac_mobile.Prelude.{
  ℕ, ℕ, ◌∷◌, ◌<◌, ◌≡◌, ◌++◌, ap, some, [], refl, arith, false, ◌==◌, List, map, ◌∙◌, length, Option,
  if◌then◌else◌, none,
}
use spoti_flac_mobile.BTreeMap.Order.{IsSorted, get-After, insert-IsSorted, ext}

split-clean : (c : ℕ) (s : Text) → contains c s ≡ false → split c s ≡ s ∷ []
unfolding contains split
split-clean c [] h = refl
split-clean c (d ∷ s) h = ground (arith, split-clean c s)

split-append : (c : ℕ) (s t : Text) → contains c s ≡ false → split c (s ++ (c ∷ t)) ≡ s ∷ split c t
unfolding contains split
split-append c [] t h = ground arith
split-append c (d ∷ s) t h = ground (arith, split-append c s t)

pub split_once-append :
    (c : ℕ) (s t : Text) → contains c s ≡ false → split_once c (s ++ (c ∷ t)) ≡ some (s, t)
unfolding contains split_once
split_once-append c [] t h = ground arith
split_once-append c (d ∷ s) t h = ground (arith, split_once-append c s t)

contains-format_pair :
    (c : ℕ) (key value : Text)
    → IsBytes key
    → IsBytes value
    → is_written c ≡ false
    → (c == 61) ≡ false
    → contains c (format_pair key value) ≡ false
unfolding contains
contains-format_pair c key value h k n m = ground (
  arith,
  contains-append c (escape key) (61 ∷ escape value),
  contains-escape c key,
  contains-escape c value,
)

is_empty-append : (s t : Text) (c : ℕ) → is_empty (s ++ (c ∷ t)) ≡ false
is_empty-append [] t c = refl
is_empty-append (d ∷ s) t c = refl

parse_pair-format_pair :
    (key value : Text) (values : Query)
    → IsBytes key
    → IsBytes value
    → parse_pair (format_pair key value) values ≡ push_value key value values
unfolding parse_pair
parse_pair-format_pair key value values h k = ground (
  arith,
  is_empty-append (escape key) (escape value) 61,
  split_once-append 61 (escape key) (escape value),
  contains-escape 61 key,
  contains-format_pair 59 key value,
  decode-escape key,
  decode-escape value,
)

unfoldable push_all : Text → List Text → Query → Query
push_all key [] values = values
push_all key (v ∷ vs) values = push_all key vs (push_value key v values)

abbrev pub IsTexts : List Text → Type 0
IsTexts [] = Unit
IsTexts (v ∷ vs) = IsBytes v × IsTexts vs

parse_pairs-append :
    (key : Text) (vs ps : List Text) (values : Query)
    → IsBytes key
    → IsTexts vs
    → parse_pairs (map (format_pair key) vs ++ ps) values ≡ parse_pairs ps (push_all key vs values)
unfolding parse_pairs push_all
parse_pairs-append key [] ps values h k = refl
parse_pairs-append key (v ∷ vs) ps values h k =
    ap (parse_pairs (map (format_pair key) vs ++ ps)) (parse_pair-format_pair key v values h k.0)
    ∙ parse_pairs-append key vs ps (push_value key v values) h k.1

-- A query of the repository's use: every key has a value, and all are bytes.
abbrev pub IsQuery : Query → Type 0
IsQuery [] = Unit
IsQuery ((key, vs) ∷ values) = IsBytes key × (0 < length vs) × IsTexts vs × IsQuery values

unfoldable push_entries : Query → Query → Query
push_entries [] acc = acc
push_entries ((key, vs) ∷ values) acc = push_entries values (push_all key vs acc)

parse_pairs-pairs_of :
    (values acc : Query)
    → IsQuery values
    → parse_pairs (pairs_of values) acc ≡ push_entries values acc
unfolding parse_pairs pairs_of push_entries
parse_pairs-pairs_of [] acc h = refl
parse_pairs-pairs_of ((key, vs) ∷ values) acc h =
    parse_pairs-append key vs (pairs_of values) acc h.0 h.2
    ∙ parse_pairs-pairs_of values (push_all key vs acc) h.3

-- The encoded pairs are split where they were joined.
abbrev pub NoneHas : ℕ → List Text → Type 0
NoneHas c [] = Unit
NoneHas c (p ∷ ps) = (contains c p ≡ false) × NoneHas c ps

parse_pair_empty : (acc : Query) → parse_pairs (split 38 []) acc ≡ acc
unfolding parse_pairs parse_pair split
parse_pair_empty acc = refl

parse_pairs-split-join :
    (ps : List Text) (acc : Query)
    → NoneHas 38 ps
    → parse_pairs (split 38 (join ps)) acc ≡ parse_pairs ps acc
unfolding join parse_pairs
parse_pairs-split-join [] acc h = ground (arith, parse_pair_empty acc)
parse_pairs-split-join (p ∷ []) acc h = rw (split-clean 38 p h.0)
parse_pairs-split-join (p ∷ q ∷ ps) acc h =
    rw (split-append 38 p (join (q ∷ ps)) h.0)
      (parse_pairs-split-join (q ∷ ps) (parse_pair p acc) h.1)

NoneHas-append : (c : ℕ) (ps qs : List Text) → NoneHas c ps → NoneHas c qs → NoneHas c (ps ++ qs)
NoneHas-append c [] qs h k = k
NoneHas-append c (p ∷ ps) qs h k = (h.0, NoneHas-append c ps qs h.1 k)

NoneHas-map :
    (c : ℕ) (key : Text) (vs : List Text)
    → IsBytes key
    → IsTexts vs
    → is_written c ≡ false
    → (c == 61) ≡ false
    → NoneHas c (map (format_pair key) vs)
NoneHas-map c key [] h k n m = tt
NoneHas-map c key (v ∷ vs) h k n m =
    (contains-format_pair c key v h k.0 n m, NoneHas-map c key vs h k.1 n m)

pub NoneHas-pairs_of :
    (c : ℕ) (values : Query)
    → IsQuery values
    → is_written c ≡ false
    → (c == 61) ≡ false
    → NoneHas c (pairs_of values)
unfolding pairs_of
NoneHas-pairs_of c [] h n m = tt
NoneHas-pairs_of c ((key, vs) ∷ values) h n m =
    NoneHas-append c (map (format_pair key) vs) (pairs_of values) (NoneHas-map c key vs h.0 h.2 n m)
      (NoneHas-pairs_of c values h.3 n m)

texts_assoc : (us : List Text) (v : Text) (vs : List Text) → (us ++ (v ∷ [])) ++ vs ≡ us ++ (v ∷ vs)
texts_assoc [] v vs = refl
texts_assoc (u ∷ us) v vs = ap (◌∷◌ u) (texts_assoc us v vs)

get-push_all :
    (key j v : Text) (vs : List Text) (acc : Query)
    → get j (push_all key (v ∷ vs) acc)
      ≡ (if j =ₜ key then some (or_default (get key acc) ++ (v ∷ vs)) else get j acc)
unfolding push_all push_value
get-push_all key j v [] acc = get-insert key j _ acc
get-push_all key j v (w ∷ vs) acc = ground (
  arith,
  get-push_all key j w vs (push_value key v acc),
  get-insert key j (or_default (get key acc) ++ (v ∷ [])) acc,
  get-insert key key (or_default (get key acc) ++ (v ∷ [])) acc,
  =ₜ_iff key key,
  texts_assoc (or_default (get key acc)) v (w ∷ vs),
)

-- What a key holds after entries are pushed onto what it held.
abbrev pushed : Option (List Text) → Option (List Text) → Option (List Text)
pushed none held = held
pushed (some vs) held = some (or_default held ++ vs)

pushed-none : (o : Option (List Text)) → pushed o none ≡ o
pushed-none none = refl
pushed-none (some vs) = refl

get-push_entries :
    (values acc : Query) (j : Text)
    → IsQuery values
    → IsSorted values
    → get j (push_entries values acc) ≡ pushed (get j values) (get j acc)
unfolding push_entries get
get-push_entries [] acc j q s = refl
get-push_entries ((key, []) ∷ values) acc j q s = absurd (ground arith)
get-push_entries ((key, v ∷ vs) ∷ values) acc j q s = ground (
  arith,
  get-push_entries values (push_all key (v ∷ vs) acc) j,
  get-push_all key j v vs acc,
  =ₜ_iff j key,
  get-After key values,
)

pub push_value-IsSorted :
    (key v : Text) (acc : Query) → IsSorted acc → IsSorted (push_value key v acc)
unfolding push_value
push_value-IsSorted key v acc s = insert-IsSorted key _ acc s

push_all-IsSorted :
    (key : Text) (vs : List Text) (acc : Query) → IsSorted acc → IsSorted (push_all key vs acc)
unfolding push_all
push_all-IsSorted key [] acc s = s
push_all-IsSorted key (v ∷ vs) acc s = push_all-IsSorted key vs _ (push_value-IsSorted key v acc s)

push_entries-IsSorted : (values acc : Query) → IsSorted acc → IsSorted (push_entries values acc)
unfolding push_entries
push_entries-IsSorted [] acc s = s
push_entries-IsSorted ((key, vs) ∷ values) acc s =
    push_entries-IsSorted values _ (push_all-IsSorted key vs acc s)

-- A query is read back as it was written.
pub parse-encode :
    (values : Query) → IsSorted values → IsQuery values → parse (encode values) ≡ values
unfolding parse encode get
parse-encode values s q =
    let pushed_back = push_entries values [] in
    parse_pairs-split-join (pairs_of values) [] (NoneHas-pairs_of 38 values q refl refl)
    ∙ parse_pairs-pairs_of values [] q
    ∙ ext pushed_back values (push_entries-IsSorted values [] tt) s
        (λ j. get-push_entries values [] j q s ∙ pushed-none (get j values))
