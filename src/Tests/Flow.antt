-- ===== src/Tests/Flow.antt =====
-- Tests and witnesses for the start of an authentication by an extension.
use spoti_flac_mobile.Extensions.Auth.Flow.Exchanged.{IsExchanged, exchange-IsExchanged}
use spoti_flac_mobile.Extensions.Auth.Exchange.Unchanged.{touches}
use spoti_flac_mobile.Extensions.Auth.Flow.Tokens.{
  token_params, exchange_request, exchange_end, Outcome, take_tokens, granted,
}
use spoti_flac_mobile.Prelude.Utf8.{utf8}
use spoti_flac_mobile.Prelude.Trim.{trim_start, trim_end}
use spoti_flac_mobile.Network.Url.Written.{IsUrl}
use spoti_flac_mobile.Extensions.Auth.Exchange.{store_pkce}
use spoti_flac_mobile.Extensions.Auth.{
  get_code, unwrap_or, State, default, set_code, edit, next_generation,
}
use spoti_flac_mobile.Extensions.Auth.Callbacks.{register_pending, register, remove_pending}
use spoti_flac_mobile.Extensions.Auth.Flow.Started.{IsStarted, start-IsStarted}
use spoti_flac_mobile.Prelude.Result.{Result, ok}
use spoti_flac_mobile.Extensions.Auth.Flow.{
  Draws, open_auth_url, with_query, start, start_params, string, send, set_param,
}
use spoti_flac_mobile.Extensions.Auth.Flow.Opened.{
  IsParser, IsOpened, open_auth_url-IsOpened, checked,
}
use spoti_flac_mobile.Network.Query.Escapes.{IsBytes}
use spoti_flac_mobile.Prelude.Text.{Text, codes, text_cmp}
use spoti_flac_mobile.Network.Url.{
  UrlParts, display_url, display_base, validate_auth_url, authority, escaped_path, all_raw, percent,
}
use spoti_flac_mobile.BTreeMap.{BTreeMap}
use spoti_flac_mobile.Prelude.{
  refl, Option, some, ◌≡◌, Bool, none, false, arith, ap, ◌∷◌, ◌++◌, [], subst, ℕ, ltb, List, ◌<◌,
  ◌^◌,
}
use spoti_flac_mobile.BTreeMap
use spoti_flac_mobile.Extensions.Auth.Flow.Kept.{perform_all-IsOwned}
use spoti_flac_mobile.Extensions.Auth.Flow.Methods.{
  Action, start_method, set_code_method, exchange_method, perform_all,
}
use spoti_flac_mobile.Extensions.Auth.Owners.{IsOwned}
use spoti_flac_mobile.Prelude.Int.{pos, ℤ}
use spoti_flac_mobile.Extensions.Auth.Calls.{Call, run, step, edit_call, set_code_call}
use spoti_flac_mobile.Extensions.Auth.Exchange.{commit, exchange_start}
use spoti_flac_mobile.Network.Query.{
  contains, parse, parse_pairs, parse_pair, split, split_once, push_value, set, encode, pairs_of,
  join, escape, decode, decode_escape,
}

-- https://a.b/x?state=old&k=v#f
abbrev url : UrlParts
url = record {
  scheme = codes "https";
  hostname = codes "a.b";
  path = codes "/x";
  raw_path = codes "/x";
  raw_query = codes "state=old&k=v";
  force_query = false;
  fragment = codes "f";
  port = none;
  has_credentials = false;
  host = codes "a.b";
  username = [];
  password = none;
  opaque = [];
  omit_host = false;
}

abbrev parse_url : Text → Option UrlParts
parse_url input = some url

IsBytes-url : IsBytes (codes "a.b") × IsBytes (codes "/x") × IsBytes (codes "state=old&k=v")
IsBytes-url = omega arith

parse_url-IsParser : IsParser parse_url
parse_url-IsParser input u h =
    let same : url ≡ u = ap (unwrap_or url) h in
    subst (λ v. IsUrl v × IsBytes v.raw_query) same
      ((IsBytes-url.0, tt, IsBytes-url.1), IsBytes-url.2)

abbrev check : Text → Result (Unit {0}) Text
check input = ok tt

abbrev private : Text → Result Bool Text
private input = ok false

abbrev draws : Draws
draws = record {
  nonce = ok (codes "n");
  spare = ok (codes "m");
  created_at = pos 5;
  created = pos 6;
  now = pos 7;
}

-- The URL that is shown has the new state.
display_test :
    display_url (with_query url (set_param (codes "state") (codes "n") (parse url.raw_query)))
    ≡ codes "https://a.b/x?k=v&state=n#f"
unfolding display_url display_base authority escaped_path all_raw percent contains parse parse_pairs
    parse_pair split split_once push_value set encode pairs_of join escape decode decode_escape
    BTreeMap.get BTreeMap.insert text_cmp utf8
display_test = refl

abbrev opened : State
opened =
    (open_auth_url (checked check parse_url false private) (codes "ext") (some (codes "u") ∷ [])
      draws default).1

opened_ok :
    open_auth_url
      (checked check parse_url false private)
      (codes "ext")
      (some (codes "u") ∷ [])
      draws
      default
    ≡ (ok tt, opened)
unfolding open_auth_url validate_auth_url register_pending register remove_pending set_code edit
    trim_start trim_end BTreeMap.get BTreeMap.insert text_cmp
opened_ok = refl

open_auth_url-IsOpened_example :
    ((shown : Text) × IsOpened (codes "ext") (codes "n") shown opened)
    × (get_code (codes "ext") opened ≡ none)
open_auth_url-IsOpened_example =
    open_auth_url-IsOpened check parse_url false private (codes "ext") (some (codes "u") ∷ [])
      (codes "n") draws default opened parse_url-IsParser refl refl opened_ok

-- A document, with strings, numbers and objects of strings.
data Document : Type 0 where
  text : Text → Document
  number : ℕ → Document
  object : BTreeMap Text → Document

abbrev as_str : Document → Option Text
as_str (text s) = some s
as_str (number n) = none
as_str (object m) = none

abbrev as_texts : BTreeMap Text → BTreeMap Document
as_texts [] = []
as_texts ((key, s) ∷ m) = (key, text s) ∷ as_texts m

abbrev as_object : Document → Option (BTreeMap Document)
as_object (text s) = none
as_object (number n) = none
as_object (object m) = some (as_texts m)

-- The extra parameters try to set another state.
abbrev config : BTreeMap Document
config =
    (codes "authUrl", text (codes "u"))
    ∷ (codes "clientId", text (codes "c"))
    ∷ (codes "extraParams", object ((codes "state", codes "mine") ∷ []))
    ∷ (codes "redirectUri", text (codes "r"))
    ∷ []

-- A challenge that is not a hash.
abbrev challenge : Text → Text
challenge v = codes "S" ++ v

abbrev run_start : Result (Text × Text × Text) Text × State
run_start =
    start as_str as_object (checked check parse_url false private) challenge (codes "ext") config
      (ok (codes "v")) draws default

abbrev answer : Text × Text × Text
answer = (
  display_url (
      with_query url
        (start_params as_str as_object config (codes "Sv") (codes "n") (parse url.raw_query))),
  codes "v",
  codes "Sv",
)

run_start_ok : run_start ≡ (ok answer, run_start.1)
unfolding start string send store_pkce validate_auth_url register_pending register remove_pending
    edit trim_start trim_end BTreeMap.get BTreeMap.insert text_cmp
run_start_ok = refl

start-IsStarted_example :
    IsStarted as_str as_object challenge (codes "ext") (codes "n") answer run_start.1
start-IsStarted_example =
    start-IsStarted as_str as_object challenge check parse_url false private (codes "ext") config
      (ok (codes "v")) (codes "n") draws answer default run_start.1 parse_url-IsParser refl refl
      run_start_ok

abbrev as_i64 : Document → Option ℤ
as_i64 (text s) = none
as_i64 (number n) = some (pos n)
as_i64 (object m) = none

abbrev is_positive : Document → Bool
is_positive (text s) = false
is_positive (number n) = ltb 0 n
is_positive (object m) = false

abbrev is_null : Document → Bool
is_null v = false

-- The verifier "v" was stored.
abbrev before : List Call
before = edit_call (codes "ext") (λ r. record r { verifier = codes "v" }) ∷ []

abbrev token_config : BTreeMap Document
token_config =
    (codes "clientId", text (codes "c"))
    ∷ (codes "code", text (codes "k"))
    ∷ (codes "tokenUrl", text (codes "u"))
    ∷ []

abbrev token : Document
token = object ((codes "access_token", codes "a") ∷ [])

abbrev body : Text
body = encode (token_params as_str as_object token_config (codes "v"))

requested :
    exchange_request as_str as_object check (codes "ext") token_config (run before default)
    ≡ ok (body, 1)
unfolding exchange_request exchange_start string run step edit next_generation BTreeMap.get
    BTreeMap.insert text_cmp
requested = refl

-- Another extension changes between.
abbrev between : List Call
between = set_code_call (codes "other") (codes "z") ∷ []

few : touches (codes "ext") between < 2 ^ 64
unfolding text_cmp
few = omega arith

abbrev ended : Result Outcome Text × State
ended =
    exchange_end as_str as_object is_null as_i64 is_positive (codes "ext") 1 (ok (ok token)) (ok tt)
      (pos 9) (run between (run before default))

exchange-IsExchanged_example :
    IsExchanged as_str as_object is_null as_i64 is_positive
      (codes "ext")
      (touches (codes "ext") between)
      ended.0
      (run between (run before default))
      ended.1
exchange-IsExchanged_example =
    exchange-IsExchanged as_str as_object is_null as_i64 is_positive before between check
      (codes "ext") token_config body 1 (ok (ok token)) (ok tt) (pos 9) few requested

granted_test : ended.0 ≡ ok (granted (codes "a") [])
unfolding exchange_end take_tokens commit string run step set_code edit next_generation BTreeMap.get
    BTreeMap.insert text_cmp
granted_test = refl

-- A flow is started, its code comes, and it is exchanged.
abbrev actions : List (Action as_str as_object is_null as_i64 is_positive)
actions =
    start_method (checked check parse_url false private) challenge (codes "ext") config
      (ok (codes "v")) draws
    ∷ set_code_method (codes "ext") (text (codes "k") ∷ []) false (pos 8)
    ∷ exchange_method (codes "ext") 2 (ok (ok token)) (ok tt) (pos 9)
    ∷ []

perform_all-IsOwned_example :
    IsOwned (perform_all as_str as_object is_null as_i64 is_positive actions default)
perform_all-IsOwned_example =
    perform_all-IsOwned as_str as_object is_null as_i64 is_positive actions
