-- ===== src/Extensions/Auth/Flow/Tokens.antt =====
-- rust_backend/crates/extensions/src/auth/client.rs: `exchangeCodeWithPKCE` as a whole, which ends
-- with `commit` of Auth/Exchange. The document of the server is a parameter too; of the answers to
-- the script the preview of the body, the type and the scope of the token are left out.
use spoti_flac_mobile.Extensions.Auth.Exchange.{exchange_start, commit}
use spoti_flac_mobile.Prelude.Int.{ℤ}
use spoti_flac_mobile.Extensions.Auth.Flow.{
  string, codes, State, err, set_param, ok, try, is_empty, extra_params, encode,
}
use spoti_flac_mobile.Prelude.Result.{Result, ◌>>=◌}
use spoti_flac_mobile.Network.Query.{Query}
use spoti_flac_mobile.BTreeMap.{BTreeMap}
use spoti_flac_mobile.Prelude.Text.{Text}
use spoti_flac_mobile.Prelude.{ℕ, Option, Bool, some, if◌then◌else◌, none, [], ◌++◌}
use spoti_flac_mobile.BTreeMap

-- The documents that `exchange` gives: a success with its tokens, an error of the server with its
-- description, or another error.
pub data Outcome : Type 0 where
  granted : Text → Text → Outcome
  refused : Text → Text → Outcome
  failed : Text → Outcome

module _ {Value : Type 0} (as_str : Value → Option Text)
    (as_object : Value → Option (BTreeMap Value)) where
  -- The parameters of the request.
  unfoldable pub token_params : BTreeMap Value → Text → Query
  token_params config verifier =
      let redirect = string as_str as_object config (codes "redirectUri") in
      let fixed = set_param (codes "code_verifier") verifier (
        set_param (codes "code") (string as_str as_object config (codes "code")) (
          set_param (codes "client_id") (string as_str as_object config (codes "clientId"))
            (set_param (codes "grant_type") (codes "authorization_code") []))) in
      let redirected =
        if is_empty redirect then fixed else set_param (codes "redirect_uri") redirect fixed in
      extra_params as_str as_object config redirected

  -- Up to the request: its body, and the generation that was read.
  unfoldable pub exchange_request :
      (Text → Result (Unit {0}) Text) → Text → BTreeMap Value → State → Result (Text × ℕ) Text
  exchange_request validate_url id config s =
      let token_url = string as_str as_object config (codes "tokenUrl") in
      exchange_start id token_url (string as_str as_object config (codes "clientId"))
        (string as_str as_object config (codes "code")) s
      >>= λ read. validate_url token_url >>= λ u. ok (encode (token_params config read.0), read.1)

  module _ (is_null : Value → Bool) (as_i64 : Value → Option ℤ) (is_positive : Value → Bool) where
    abbrev pub object_or_err : Option (BTreeMap Value) → Result (BTreeMap Value) Text
    object_or_err none = err (codes "token response must be an object")
    object_or_err (some token) = ok token

    -- `serde_json::from_slice` of the body, as an object.
    abbrev pub token_of : Result Value Text → Result (BTreeMap Value) Text
    token_of (err e) = err e
    token_of (ok v) = if is_null v then ok [] else object_or_err (as_object v)

    abbrev pub error_of : Option Value → Option Text
    error_of none = none
    error_of (some v) = as_str v

    -- The seconds of `expires_in`, if they are more than 0.0, as an `i64`.
    abbrev pub expires_of : Option Value → Option ℤ
    expires_of none = none
    expires_of (some v) = if is_positive v then as_i64 v else none

    abbrev pub commit_outcome :
        Text → Text → Result (Unit {0}) Text × State → Result Outcome Text × State
    commit_outcome access refresh (ok u, s) = (ok (granted access refresh), s)
    commit_outcome access refresh (err e, s) = (err e, s)

    -- The tokens of an answer without an error.
    unfoldable pub take_tokens :
        Text → ℕ → BTreeMap Value → Result (Unit {0}) Text → ℤ → State → Result Outcome Text × State
    take_tokens id generation token checked now s =
        let access = string as_str as_object token (codes "access_token") in
        let refresh = string as_str as_object token (codes "refresh_token") in
        let expires = expires_of (BTreeMap.get (codes "expires_in") token) in
        if is_empty access
        then (ok (failed (codes "no access_token in response")), s)
        else try checked s
            (λ u. commit_outcome access refresh (commit id generation access refresh now expires s))

    abbrev pub take_token :
        Text
        → ℕ
        → Option Text
        → BTreeMap Value
        → Result (Unit {0}) Text
        → ℤ
        → State
        → Result Outcome Text × State
    take_token id generation none token checked now s =
        take_tokens id generation token checked now s
    take_token id generation (some e) token checked now s =
        (ok (refused e (string as_str as_object token (codes "error_description"))), s)

    abbrev pub take_object :
        Text
        → ℕ
        → Result (BTreeMap Value) Text
        → Result (Unit {0}) Text
        → ℤ
        → State
        → Result Outcome Text × State
    take_object id generation (err e) checked now s =
        (ok (failed (codes "failed to parse token response: " ++ e)), s)
    take_object id generation (ok token) checked now s =
        take_token id generation (error_of (BTreeMap.get (codes "error") token)) token checked now s

    -- From the response of the network on: `checked` is what `check` says before the tokens are
    -- written.
    unfoldable pub exchange_end :
        Text
        → ℕ
        → Result (Result Value Text) Text
        → Result (Unit {0}) Text
        → ℤ
        → State
        → Result Outcome Text × State
    exchange_end id generation response checked now s =
        try response s (λ body. take_object id generation (token_of body) checked now s)
