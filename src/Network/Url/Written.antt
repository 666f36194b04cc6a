-- ===== src/Network/Url/Written.antt =====
-- rust_backend/crates/network/src/url.rs: where the query of a URL that is written stands.
use spoti_flac_mobile.Network.Query.RoundTrip.{split_once-append}
use spoti_flac_mobile.Network.Query.Normal.{Holds, push_byte-IsBytes, hex_byte-bound}
use spoti_flac_mobile.Network.Query.Escapes.{
  IsBytes, contains-append, is_written, append_assoc, written_ne, hex_digit-IsWritten,
}
use spoti_flac_mobile.Network.Url.{
  UrlParts, decode_path, all_raw, escaped_path, authority, display_base, display_url,
  unwrap_or_default, percent, with_port, decode_percent, is_empty, is_fragment_byte, is_path_byte,
  is_host_byte, percent_byte, codes,
}
use spoti_flac_mobile.Network.Query.{split_once, contains, to_digit, hex_byte, hex_digit}
use spoti_flac_mobile.Prelude.Text.{Text}
use spoti_flac_mobile.Prelude.{
  ℕ, Option, Bool, some, [], ◌++◌, ◌≡◌, arith, ◌∷◌, if_cases, none, false, ap, ◌==◌, if◌then◌else◌,
  refl, ◌||◌, not, true, ◌<◌, sym, Bool-cases, inl, ==_iff, ◌∙◌, inr, ◌/◌, ◌%◌,
}

-- What a reader of a URL takes for its query: after the first `?` of what is before the first `#`.
abbrev before : Text → Option (Text × Text) → Text
before s none = s
before s (some found) = found.0

abbrev after : Option (Text × Text) → Text
after none = []
after (some found) = found.1

unfoldable pub query_of : Text → Text
query_of url = after (split_once 63 (before url (split_once 35 url)))

-- The texts of a URL are bytes.
abbrev pub IsUrl : UrlParts → Type 0
IsUrl u = IsBytes u.hostname × IsBytes (unwrap_or_default u.port) × IsBytes u.raw_path

-- Neither is a mark between the parts of a URL.
abbrev pub NoMark : Text → Type 0
NoMark s = (contains 63 s ≡ false) × (contains 35 s ≡ false)

NoMark-append : (s t : Text) → NoMark s → NoMark t → NoMark (s ++ t)
NoMark-append s t h k = ground (arith, contains-append 63 s t, contains-append 35 s t)

contains-percent_byte :
    (c : ℕ) (allowed : ℕ → Bool) (b : ℕ)
    → b < 256
    → is_written c ≡ false
    → allowed c ≡ false
    → contains c (percent_byte (allowed b) b) ≡ false
unfolding contains
contains-percent_byte c allowed b h n a = elim (Bool-cases (allowed b)) [
  | inl e ↦ rw e (elim (Bool-cases (b == c)) [
    | inl is ↦ let a' = ap allowed (sym ((==_iff b c).0 is)) ∙ e in absurd (cc)
    | inr other ↦ rw other refl
  ])
  | inr e ↦
      rw
        (
          e,
          written_ne c 37 n refl,
          written_ne c (hex_digit (b / 16)) n (hex_digit-IsWritten (b / 16) (omega arith)),
          written_ne c (hex_digit (b % 16)) n (hex_digit-IsWritten (b % 16) (omega arith)),
        )
        refl
]

contains-percent :
    (c : ℕ) (allowed : ℕ → Bool) (s : Text)
    → IsBytes s
    → is_written c ≡ false
    → allowed c ≡ false
    → contains c (percent allowed s) ≡ false
unfolding contains percent
contains-percent c allowed [] h n a = refl
contains-percent c allowed (b ∷ s) h n a =
    let rest = contains-percent c allowed s h.1 n a in
    let first = contains-percent_byte c allowed b h.0 n a in
    ground (arith, contains-append c (percent_byte (allowed b) b) (percent allowed s))

NoMark-percent :
    (allowed : ℕ → Bool) (s : Text)
    → IsBytes s
    → allowed 63 ≡ false
    → allowed 35 ≡ false
    → NoMark (percent allowed s)
NoMark-percent allowed s h a b =
    (contains-percent 63 allowed s h refl a, contains-percent 35 allowed s h refl b)

mutual
  unfolding decode_path

  decode_path-IsBytes : (s : Text) → IsBytes s → Holds IsBytes (decode_path s)
  decode_path-IsBytes [] h = tt
  decode_path-IsBytes (b ∷ s) h =
      if_cases (Holds IsBytes) (b == 37) (decode_percent s) _ (λ _. decode_percent-IsBytes s h.1)
        (λ _. push_byte-IsBytes (some b) (decode_path s) h.0 (decode_path-IsBytes s h.1))

  decode_percent-IsBytes : (s : Text) → IsBytes s → Holds IsBytes (decode_percent s)
  decode_percent-IsBytes [] h = tt
  decode_percent-IsBytes (a ∷ []) h = tt
  decode_percent-IsBytes (a ∷ b ∷ s) h =
      push_byte-IsBytes (hex_byte (to_digit a) (to_digit b)) (decode_path s)
        (hex_byte-bound (to_digit a) (to_digit b)) (decode_path-IsBytes s h.1.1)

unwrap-IsBytes : (o : Option Text) → Holds IsBytes o → IsBytes (unwrap_or_default o)
unwrap-IsBytes none h = tt
unwrap-IsBytes (some s) h = h

all_raw-NoMark : (s : Text) → all_raw s ≡ true → NoMark s
unfolding all_raw contains
all_raw-NoMark [] h = (refl, refl)
all_raw-NoMark (b ∷ s) h = ground (arith, all_raw-NoMark s)

escaped_path-NoMark : (u : UrlParts) → IsBytes u.raw_path → NoMark (escaped_path u)
unfolding escaped_path contains
escaped_path-NoMark u h =
    if_cases NoMark (all_raw u.raw_path) u.raw_path _ (λ e. all_raw-NoMark u.raw_path e)
      (λ _.
        NoMark-percent is_path_byte (unwrap_or_default (decode_path u.raw_path))
          (unwrap-IsBytes (decode_path u.raw_path) (decode_path-IsBytes u.raw_path h)) refl refl)

append-IsBytes : (s t : Text) → IsBytes s → IsBytes t → IsBytes (s ++ t)
append-IsBytes [] t h k = k
append-IsBytes (b ∷ s) t h k = (h.0, append-IsBytes s t h.1 k)

with_port-IsBytes :
    (host : Text) (port : Option Text)
    → IsBytes host
    → IsBytes (unwrap_or_default port)
    → IsBytes (with_port host port)
with_port-IsBytes host none h k = h
with_port-IsBytes host (some port) h k =
    if_cases IsBytes (is_empty port) host _ (λ _. h)
      (λ _. append-IsBytes host (58 ∷ port) h (omega arith, k))

authority-IsBytes : (u : UrlParts) → IsUrl u → IsBytes (authority u)
unfolding authority
authority-IsBytes u h =
    with_port-IsBytes _ u.port
      (if_cases IsBytes (contains 58 u.hostname) (91 ∷ u.hostname ++ (93 ∷ [])) u.hostname
        (λ _. (omega arith, append-IsBytes u.hostname (93 ∷ []) h.0 (omega arith, tt))) (λ _. h.0))
      h.1

display_base-NoMark : (u : UrlParts) → IsUrl u → NoMark u.scheme → NoMark (display_base u)
unfolding display_base contains
display_base-NoMark u h n =
    let host = NoMark-percent is_host_byte (authority u) (authority-IsBytes u h) refl refl in
    let path = escaped_path-NoMark u h.2 in
    let rest = NoMark-append (percent is_host_byte (authority u)) (escaped_path u) host path in
    let last = percent is_host_byte (authority u) ++ escaped_path u in
    NoMark-append u.scheme (codes "://" ++ last) n
      (NoMark-append (codes "://") last (refl, refl) rest)

split_once-clean : (c : ℕ) (s : Text) → contains c s ≡ false → split_once c s ≡ none
unfolding contains split_once
split_once-clean c [] h = refl
split_once-clean c (d ∷ s) h = ground (arith, split_once-clean c s)

append_nil : (s : Text) → s ++ [] ≡ s
append_nil [] = refl
append_nil (c ∷ s) = ap (◌∷◌ c) (append_nil s)

before-append :
    (s t : Text) (none_left : Bool)
    → contains 35 s ≡ false
    → before
        (s ++ (if none_left then [] else 35 ∷ t))
        (split_once 35 (s ++ (if none_left then [] else 35 ∷ t)))
      ≡ s
before-append s t true h = rw (append_nil s, split_once-clean 35 s h) refl
before-append s t false h = rw (split_once-append 35 s t h) refl

after-append :
    (s q : Text) (force : Bool)
    → contains 63 s ≡ false
    → after (split_once 63 (s ++ (if force || not (is_empty q) then 63 ∷ q else []))) ≡ q
after-append s q true h = rw (split_once-append 63 s q h) refl
after-append s [] false h = rw (append_nil s, split_once-clean 63 s h) refl
after-append s (c ∷ q) false h = rw (split_once-append 63 s (c ∷ q) h) refl

query-clean :
    (q : Text) (force : Bool)
    → contains 35 q ≡ false
    → contains 35 (if force || not (is_empty q) then 63 ∷ q else []) ≡ false
unfolding contains
query-clean q true h = h
query-clean [] false h = refl
query-clean (c ∷ q) false h = h

-- The query of a URL, whose scheme and query are clean, is where a reader of the URL looks for it.
pub query_of-display_url :
    (u : UrlParts)
    → IsUrl u
    → NoMark u.scheme
    → contains 35 u.raw_query ≡ false
    → query_of (display_url u) ≡ u.raw_query
unfolding query_of display_url
query_of-display_url u h n c =
    let base = display_base-NoMark u h n in
    let q = if u.force_query || not (is_empty u.raw_query) then 63 ∷ u.raw_query else [] in
    let f = percent is_fragment_byte u.fragment in
    let clean : contains 35 (display_base u ++ q) ≡ false =
      ground
        (arith, contains-append 35 (display_base u) q, query-clean u.raw_query u.force_query) in
    rw
      (
        sym (append_assoc (display_base u) q (if is_empty u.fragment then [] else 35 ∷ f)),
        before-append (display_base u ++ q) f (is_empty u.fragment) clean,
      )
      (after-append (display_base u) u.raw_query u.force_query base.0)
