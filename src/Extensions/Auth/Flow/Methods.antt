-- ===== src/Extensions/Auth/Flow/Methods.antt =====
-- rust_backend/crates/extensions/src/auth/client.rs: the methods of `call` that change the state, with
-- the other calls of the registry, in any order. A method that fails before it is chosen changes nothing.
use spoti_flac_mobile.Extensions.Auth.Flow.Tokens.{exchange_end}
use spoti_flac_mobile.Prelude.Int.{◌+ℤ◌, ◌*ℤ◌}
use spoti_flac_mobile.Extensions.Auth.Flow.{
  open_auth_url, UrlParts, start, then_do, Draws, store_pkce,
}
use spoti_flac_mobile.BTreeMap.{BTreeMap}
use spoti_flac_mobile.Prelude.{
  ℕ, Option, Bool, some, List, true, ◌∷◌, if◌then◌else◌, none, false, [],
}
use spoti_flac_mobile.BTreeMap
use spoti_flac_mobile.Extensions.Auth.{
  State, Record, Text, ℤ, Result, ◌+ℤ◌, ok, try, wrap_i64, codes, edit, pos, second,
}
use spoti_flac_mobile.Extensions.Auth.Calls.{Call, step}
use spoti_flac_mobile.Extensions.Auth.Callbacks.{clear}

module _ {Value : Type 0} (as_str : Value → Option Text)
    (as_object : Value → Option (BTreeMap Value)) (is_null : Value → Bool)
    (as_i64 : Value → Option ℤ) (is_positive : Value → Bool) where
  abbrev pub text_of : Option Value → Option Text
  text_of none = none
  text_of (some v) = as_str v

  abbrev pub with_code : Option Text → Record → Record
  with_code none r = r
  with_code (some code) r = record r { code = code }

  abbrev pub with_access : Option Text → Record → Record
  with_access none r = r
  with_access (some access) r = record r { access_token = access; is_authenticated = true }

  abbrev pub with_refresh : Option Text → Record → Record
  with_refresh none r = r
  with_refresh (some refresh) r = record r { refresh_token = refresh }

  abbrev pub seconds_of : Option Value → Option ℤ
  seconds_of none = none
  seconds_of (some v) = as_i64 v

  abbrev pub with_expiry : ℤ → Option ℤ → Record → Record
  with_expiry now none r = r
  with_expiry now (some expires) r = record r {
    expires_at = some (now +ℤ wrap_i64 (expires *ℤ pos second));
  }

  abbrev pub with_object : Bool → ℤ → Option (BTreeMap Value) → Record → Record
  with_object expires_is_float now none r = r
  with_object expires_is_float now (some value) r =
      with_expiry now
        (if expires_is_float then seconds_of (BTreeMap.get (codes "expires_in") value) else none)
        (with_refresh (text_of (BTreeMap.get (codes "refresh_token") value)) (
          with_access (text_of (BTreeMap.get (codes "access_token") value))
            (with_code (text_of (BTreeMap.get (codes "code") value)) r)))

  abbrev pub with_first : Option Text → Bool → ℤ → Option (BTreeMap Value) → Record → Record
  with_first (some code) expires_is_float now value r = record r { code = code }
  with_first none expires_is_float now value r = with_object expires_is_float now value r

  -- `setAuthCode`; whether it changed the record.
  unfoldable pub set_auth_code : Text → List Value → Bool → ℤ → State → Result Bool Text × State
  set_auth_code id [] expires_is_float now s = (ok false, s)
  set_auth_code id (first ∷ rest) expires_is_float now s =
      then_do (edit id (with_first (as_str first) expires_is_float now (as_object first)) s)
        (λ u edited. (ok true, edited))

  -- `generatePKCE`, with what `pkce_verifier` gives: the verifier and the challenge.
  unfoldable pub generate_pkce :
      (Text → Text) → Text → Result Text Text → State → Result (Text × Text) Text × State
  generate_pkce pkce_challenge id verifier s = try verifier s (λ v.
      then_do (store_pkce pkce_challenge id v false s)
        (λ u stored. (ok (v, pkce_challenge v), stored)))

  -- The methods, and the calls that others make of the registry; `exchange` is its end.
  pub data Action : Type 0 where
    other : Call → Action
    clear_auth : Text → ℤ → Action
    set_code_method : Text → List Value → Bool → ℤ → Action
    generate_method : (Text → Text) → Text → Result Text Text → Action
    open_method : (Text → Result UrlParts Text) → Text → List (Option Text) → Draws → Action
    start_method :
        (Text → Result UrlParts Text)
        → (Text → Text)
        → Text
        → BTreeMap Value
        → Result Text Text
        → Draws
        → Action
    exchange_method :
        Text → ℕ → Result (Result Value Text) Text → Result (Unit {0}) Text → ℤ → Action

  unfoldable pub perform : Action → State → State
  perform (other c) s = step c s
  perform (clear_auth id now) s = clear id now s
  perform (set_code_method id arguments expires_is_float now) s =
      (set_auth_code id arguments expires_is_float now s).1
  perform (generate_method pkce_challenge id verifier) s =
      (generate_pkce pkce_challenge id verifier s).1
  perform (open_method validate id arguments d) s = (open_auth_url validate id arguments d s).1
  perform (start_method validate pkce_challenge id config verifier d) s =
      (start as_str as_object validate pkce_challenge id config verifier d s).1
  perform (exchange_method id generation response checked now) s =
      (exchange_end as_str as_object is_null as_i64 is_positive id generation response checked now
        s).1

  unfoldable pub perform_all : List Action → State → State
  perform_all [] s = s
  perform_all (a ∷ actions) s = perform_all actions (perform a s)
