-- ===== src/Extensions/Auth/Flow.antt =====
-- rust_backend/crates/extensions/src/auth/client.rs: the start of a flow, which registers a state and
-- sends the user to a URL with that state. The document of a call is a parameter, with `as_str` and
-- `as_object` of its library; the check of a URL, random texts and the clock are arguments.
pub mod Queries
pub mod Granted
pub mod Opened
pub mod Started
pub mod Tokens
pub mod Exchanged
pub mod Methods
pub mod Kept
use spoti_flac_mobile.Prelude.{
  [], ◌∷◌, List, Option, none, some, ◌++◌, ◌||◌, if◌then◌else◌, false, true,
}
use spoti_flac_mobile.Prelude.Text.{Text, is_empty, codes}
use spoti_flac_mobile.Prelude.Utf8.{utf8}
use spoti_flac_mobile.Prelude.Int.{ℤ}
use spoti_flac_mobile.Prelude.Result.{Result, ok, err, try}
use spoti_flac_mobile.BTreeMap
use spoti_flac_mobile.BTreeMap.{BTreeMap}
use spoti_flac_mobile.Network.Query.{Query, parse, set, encode}
use spoti_flac_mobile.Network.Url.{UrlParts, display_url, unwrap_or_default}
use spoti_flac_mobile.Extensions.Auth.{State, PendingAuthRequest, set_code}
use spoti_flac_mobile.Extensions.Auth.Callbacks.{register_pending}
use spoti_flac_mobile.Extensions.Auth.Exchange.{store_pkce}

-- What is random, and what the clock reads: the state, and for `register_pending` one that it
-- draws if it has none, the time of the request, and the times that `register_pending` reads.
pub record Draws : Type 0 where
  pub nonce : Result Text Text
  pub spare : Result Text Text
  pub created_at : ℤ
  pub created : ℤ
  pub now : ℤ

-- `r?` of a call that changes the state.
abbrev pub then_do {ℓ} :
    {A B E S : Type ℓ} → Result A E × S → (A → S → Result B E × S) → Result B E × S
then_do (ok a, s) k = k a s
then_do (err e, s) k = (err e, s)

-- `map_err` with a text in front.
abbrev pub map_err : {A : Type 0} → Text → Result A Text → Result A Text
map_err text (ok a) = ok a
map_err text (err e) = err (text ++ e)

abbrev pub first_err : {A S : Type 0} → Text → Result A Text × S → Result A Text × S
first_err text (r, s) = (map_err text r, s)

-- `set` with strings.
abbrev pub set_param : Text → Text → Query → Query
set_param key value values = set (utf8 key) (utf8 value) values

abbrev pub with_query : UrlParts → Query → UrlParts
with_query url params = record url { raw_query = encode params }

-- The second argument of `openAuthUrl`.
abbrev pub callback_of : List (Option Text) → Text
callback_of [] = []
callback_of (second ∷ rest) = unwrap_or_default second

-- `openAuthUrl`, with what `as_str` gives of its arguments.
unfoldable pub open_auth_url :
    (Text → Result UrlParts Text)
    → Text
    → List (Option Text)
    → Draws
    → State
    → Result (Unit {0}) Text × State
open_auth_url validate_auth_url id [] d s = (err (codes "auth URL is required"), s)
open_auth_url validate_auth_url id (first ∷ rest) d s =
    try (validate_auth_url (unwrap_or_default first)) s (λ url. try d.nonce s (λ nonce.
      let params = set_param (codes "state") nonce (parse url.raw_query) in
      then_do
        (register_pending
          (record {
            extension_id = id;
            auth_url = display_url (with_query url params);
            callback_url = callback_of rest;
            nonce = nonce;
            created_at = d.created_at;
          })
          d.spare d.created d.now s)
        (λ u s'. set_code id [] s')))

module _ {Value : Type 0} (as_str : Value → Option Text)
    (as_object : Value → Option (BTreeMap Value)) where
  abbrev pub str_of : Option Value → Text
  str_of none = []
  str_of (some v) = unwrap_or_default (as_str v)

  unfoldable pub string : BTreeMap Value → Text → Text
  string config key = str_of (BTreeMap.get key config)

  abbrev pub object_of : Option Value → Option (BTreeMap Value)
  object_of none = none
  object_of (some v) = as_object v

  unfoldable pub set_extras : BTreeMap Value → Query → Query
  set_extras [] params = params
  set_extras ((key, v) ∷ extras) params =
      set_extras extras (set_param key (unwrap_or_default (as_str v)) params)

  abbrev pub set_some : Option (BTreeMap Value) → Query → Query
  set_some none params = params
  set_some (some extras) params = set_extras extras params

  unfoldable pub extra_params : BTreeMap Value → Query → Query
  extra_params config params =
      set_some (object_of (BTreeMap.get (codes "extraParams") config)) params

  -- The parameters that `start` sets.
  unfoldable pub start_params : BTreeMap Value → Text → Text → Query → Query
  start_params config challenge nonce params =
      let scope = string config (codes "scope") in
      let fixed = set_param (codes "code_challenge_method") (codes "S256") (
        set_param (codes "code_challenge") challenge (
          set_param (codes "response_type") (codes "code") (
            set_param (codes "redirect_uri") (string config (codes "redirectUri"))
              (set_param (codes "client_id") (string config (codes "clientId")) params)))) in
      let scoped = if is_empty scope then fixed else set_param (codes "scope") scope fixed in
      set_param (codes "state") nonce (extra_params config scoped)

  -- The end of `start`, after the verifier is stored. A success has the URL, the verifier and the
  -- challenge.
  unfoldable pub send :
      (Text → Text)
      → Text
      → BTreeMap Value
      → UrlParts
      → Text
      → Draws
      → State
      → Result (Text × Text × Text) Text × State
  send pkce_challenge id config url v d s =
      try (map_err (codes "failed to generate OAuth state: ") d.nonce) s (λ nonce.
        let params = start_params config (pkce_challenge v) nonce (parse url.raw_query) in
        let opened = display_url (with_query url params) in
        then_do
          (first_err (codes "failed to register OAuth callback: ") (
            register_pending
              (record {
                extension_id = id;
                auth_url = opened;
                callback_url = string config (codes "redirectUri");
                nonce = nonce;
                created_at = d.created_at;
              })
              d.spare d.created d.now s))
          (λ u registered. (ok (opened, v, pkce_challenge v), registered)))

  -- `verifier` is what `pkce_verifier` gives.
  unfoldable pub start :
      (Text → Result UrlParts Text)
      → (Text → Text)
      → Text
      → BTreeMap Value
      → Result Text Text
      → Draws
      → State
      → Result (Text × Text × Text) Text × State
  start validate_auth_url pkce_challenge id config verifier d s =
      let auth_url = string config (codes "authUrl") in
      if is_empty auth_url
        || is_empty (string config (codes "clientId"))
        || is_empty (string config (codes "redirectUri"))
      then (err (codes "authUrl, clientId, and redirectUri are required"), s)
      else try (validate_auth_url auth_url) s (λ url.
        try (map_err (codes "failed to generate PKCE: ") verifier) s (λ v.
          then_do (store_pkce pkce_challenge id v true s)
            (λ u. send pkce_challenge id config url v d)))
