-- ===== src/Extensions/Auth/Flow/Kept.antt =====
-- rust_backend/crates/extensions/src/auth/client.rs: what the methods keep of the registry.
use spoti_flac_mobile.Prelude.Result.{Result-cases}
use spoti_flac_mobile.Extensions.Auth.Flow.Tokens.{exchange_end}
use spoti_flac_mobile.Extensions.Auth.Flow.{
  then_do, first_err, open_auth_url, UrlParts, send, start, Draws, unwrap_or_default, string,
  set_param, start_params, parse, display_url, with_query, callback_of, register_pending,
}
use spoti_flac_mobile.BTreeMap.{BTreeMap}
use spoti_flac_mobile.Extensions.Auth.Exchange.{commit, store_pkce, generation_of}
use spoti_flac_mobile.Prelude.{
  ℕ, Option, if_cases, Bool, ◌||◌, not, List, ◌∷◌, false, inl, ◌==◌, inr, subst, [], true, ap, sym,
}
use spoti_flac_mobile.Extensions.Auth.Callbacks.{clear}
use spoti_flac_mobile.Extensions.Auth.Keeps.{Keeps, register_pending-Keeps, of_Keeps}
use spoti_flac_mobile.Extensions.Auth.Calls.{step-Keeps, edit-Keeps, clear_call, of_nothing, step}
use spoti_flac_mobile.Extensions.Auth.Owners.{IsOwned}
use spoti_flac_mobile.Extensions.Auth.Flow.Methods.{
  Action, other, clear_auth, set_code_method, generate_method, open_method, start_method,
  exchange_method, perform, perform_all, set_auth_code, generate_pkce, with_first,
}
use spoti_flac_mobile.Extensions.Auth.Flow.Exchanged.{exchange_end-IsEnded}
use spoti_flac_mobile.Extensions.Auth.{
  State, default, Result, Text, ℤ, ok, set_code, err, edit, codes, is_empty, PendingAuthRequest,
}

then_do-Keeps :
    {A B : Type 0} (m : Result A Text × State) (k : A → State → Result B Text × State)
    → Keeps m.1
    → ((a : A) (s : State) → Keeps s → Keeps ((k a s).1))
    → Keeps (then_do m k).1
then_do-Keeps (ok a, s) k h next = next a s h
then_do-Keeps (err e, s) k h next = h

first_err-Keeps :
    {A : Type 0} (text : Text) (m : Result A Text × State) → Keeps m.1 → Keeps (first_err text m).1
first_err-Keeps text (r, s) h = h

-- `commit` changes neither the owners nor the requests.
commit-Keeps :
    (id : Text) (g : ℕ) (access refresh : Text) (now : ℤ) (expires : Option ℤ) (s : State)
    → Keeps s
    → Keeps (commit id g access refresh now expires s).1
unfolding commit
commit-Keeps id g access refresh now expires s k =
    if_cases {A = Result (Unit {0}) Text × State} (λ a. Keeps (a.1))
      (s.closed || not (generation_of id s == g)) (_, s) _ (λ _. k) (λ _. k)

clear-Keeps : (id : Text) (now : ℤ) (s : State) → Keeps s → Keeps (clear id now s)
unfolding step
clear-Keeps id now s k = step-Keeps (clear_call id now) s k

store_pkce-Keeps :
    (pkce_challenge : Text → Text) (id v : Text) (clear_code : Bool) (s : State)
    → Keeps s
    → Keeps (store_pkce pkce_challenge id v clear_code s).1
unfolding store_pkce
store_pkce-Keeps pkce_challenge id v clear_code s k = edit-Keeps id _ s k

open_auth_url-Keeps :
    (validate : Text → Result UrlParts Text) (id : Text) (arguments : List (Option Text))
    (d : Draws) (s : State)
    → Keeps s
    → Keeps (open_auth_url validate id arguments d s).1
unfolding open_auth_url set_code
open_auth_url-Keeps validate id [] d s k = k
open_auth_url-Keeps validate id (first ∷ rest) d s k =
    elim (Result-cases (validate (unwrap_or_default first))) [
      | inr (e, refused) ↦ rw refused k
      | inl (url, valid) ↦ elim (Result-cases d.nonce) [
        | inr (e, failed) ↦ rw (valid, failed) k
        | inl (nonce, drawn) ↦
            let params = set_param (codes "state") nonce (parse url.raw_query) in
            let r : PendingAuthRequest = record {
              extension_id = id;
              auth_url = display_url (with_query url params);
              callback_url = callback_of rest;
              nonce = nonce;
              created_at = d.created_at;
            } in
            rw (valid, drawn)
              (then_do-Keeps (register_pending r d.spare d.created d.now s)
                (λ u t. set_code id [] t) (register_pending-Keeps r d.spare d.created d.now s k)
                (λ u t h. edit-Keeps id _ t h))
      ]
    ]

module _ {Value : Type 0} (as_str : Value → Option Text)
    (as_object : Value → Option (BTreeMap Value)) (is_null : Value → Bool)
    (as_i64 : Value → Option ℤ) (is_positive : Value → Bool) where
  send-Keeps :
      (pkce_challenge : Text → Text) (id : Text) (config : BTreeMap Value) (url : UrlParts)
      (v : Text) (d : Draws) (s : State)
      → Keeps s
      → Keeps (send as_str as_object pkce_challenge id config url v d s).1
  unfolding send
  send-Keeps pkce_challenge id config url v d s k = elim (Result-cases d.nonce) [
    | inr (e, failed) ↦ rw failed k
    | inl (nonce, drawn) ↦
        let params =
          start_params as_str as_object config (pkce_challenge v) nonce (parse url.raw_query) in
        let opened = display_url (with_query url params) in
        let r : PendingAuthRequest = record {
          extension_id = id;
          auth_url = opened;
          callback_url = string as_str as_object config (codes "redirectUri");
          nonce = nonce;
          created_at = d.created_at;
        } in
        let answered : Text × Text × Text = (opened, v, pkce_challenge v) in
        let text = codes "failed to register OAuth callback: " in
        rw drawn (
          then_do-Keeps (first_err text (register_pending r d.spare d.created d.now s))
            (λ u t. (ok answered, t))
            (first_err-Keeps text (register_pending r d.spare d.created d.now s)
              (register_pending-Keeps r d.spare d.created d.now s k))
            (λ u t h. h))
  ]

  start-Keeps :
      (validate : Text → Result UrlParts Text) (pkce_challenge : Text → Text) (id : Text)
      (config : BTreeMap Value) (verifier : Result Text Text) (d : Draws) (s : State)
      → Keeps s
      → Keeps (start as_str as_object validate pkce_challenge id config verifier d s).1
  unfolding start
  start-Keeps validate pkce_challenge id config verifier d s k =
      let input = string as_str as_object config (codes "authUrl") in
      if_cases {A = Result (Text × Text × Text) Text × State} (λ a. Keeps (a.1))
        (is_empty input
          || is_empty (string as_str as_object config (codes "clientId"))
          || is_empty (string as_str as_object config (codes "redirectUri")))
        (_, s) _ (λ _. k)
        (λ _. elim (Result-cases (validate input)) [
          | inr (e, refused) ↦ rw refused k
          | inl (url, valid) ↦ elim (Result-cases verifier) [
            | inr (e, failed) ↦ rw (valid, failed) k
            | inl (v, made) ↦
                rw (valid, made)
                  (then_do-Keeps (store_pkce pkce_challenge id v true s)
                    (λ u. send as_str as_object pkce_challenge id config url v d)
                    (store_pkce-Keeps pkce_challenge id v true s k)
                    (λ u t h. send-Keeps pkce_challenge id config url v d t h))
          ]
        ])

  set_auth_code-Keeps :
      (id : Text) (arguments : List Value) (expires_is_float : Bool) (now : ℤ) (s : State)
      → Keeps s
      → Keeps
          (set_auth_code as_str as_object is_null as_i64 is_positive id arguments expires_is_float
            now s).1
  unfolding set_auth_code
  set_auth_code-Keeps id [] expires_is_float now s k = k
  set_auth_code-Keeps id (first ∷ rest) expires_is_float now s k =
      let f =
        with_first as_str as_object is_null as_i64 is_positive (as_str first) expires_is_float now
          (as_object first) in
      then_do-Keeps (edit id f s) (λ u t. (ok true, t)) (edit-Keeps id f s k) (λ u t h. h)

  generate_pkce-Keeps :
      (pkce_challenge : Text → Text) (id : Text) (verifier : Result Text Text) (s : State)
      → Keeps s
      → Keeps
          (generate_pkce as_str as_object is_null as_i64 is_positive pkce_challenge id verifier s).1
  unfolding generate_pkce
  generate_pkce-Keeps pkce_challenge id (err e) s k = k
  generate_pkce-Keeps pkce_challenge id (ok v) s k =
      let answer : Text × Text = (v, pkce_challenge v) in
      then_do-Keeps (store_pkce pkce_challenge id v false s) (λ u t. (ok answer, t))
        (store_pkce-Keeps pkce_challenge id v false s k) (λ u t h. h)

  exchange_end-Keeps :
      (id : Text) (g : ℕ) (response : Result (Result Value Text) Text)
      (checked : Result (Unit {0}) Text) (now : ℤ) (s : State)
      → Keeps s
      → Keeps
          (exchange_end as_str as_object is_null as_i64 is_positive id g response checked now s).1
  exchange_end-Keeps id g response checked now s k =
      elim (exchange_end-IsEnded as_str as_object is_null as_i64 is_positive id g response checked
        now s) [
          | inl (access, refresh, expires, given, e, commits) ↦
              subst Keeps (ap (λ a. a.1) commits) (commit-Keeps id g access refresh now expires s k)
          | inr (refused, same) ↦ subst Keeps (sym same) k
        ]

  perform-Keeps :
      (a : Action as_str as_object is_null as_i64 is_positive) (s : State)
      → Keeps s
      → Keeps (perform as_str as_object is_null as_i64 is_positive a s)
  unfolding perform
  perform-Keeps (other c) s k = step-Keeps c s k
  perform-Keeps (clear_auth id now) s k = clear-Keeps id now s k
  perform-Keeps (set_code_method id arguments float now) s k =
      set_auth_code-Keeps id arguments float now s k
  perform-Keeps (generate_method pkce_challenge id verifier) s k =
      generate_pkce-Keeps pkce_challenge id verifier s k
  perform-Keeps (open_method validate id arguments d) s k =
      open_auth_url-Keeps validate id arguments d s k
  perform-Keeps (start_method validate pkce_challenge id config verifier d) s k =
      start-Keeps validate pkce_challenge id config verifier d s k
  perform-Keeps (exchange_method id g response checked now) s k =
      exchange_end-Keeps id g response checked now s k

  perform_all-Keeps :
      (actions : List (Action as_str as_object is_null as_i64 is_positive)) (s : State)
      → Keeps s
      → Keeps (perform_all as_str as_object is_null as_i64 is_positive actions s)
  unfolding perform_all
  perform_all-Keeps [] s k = k
  perform_all-Keeps (a ∷ actions) s k = perform_all-Keeps actions _ (perform-Keeps a s k)

  -- Whatever methods scripts call on a new registry, between whatever other calls of it, its owners and
  -- requests are maps in order, every owner of a state has a request with that state, and every request
  -- is kept under its own extension.
  pub perform_all-IsOwned :
      (actions : List (Action as_str as_object is_null as_i64 is_positive))
      → IsOwned (perform_all as_str as_object is_null as_i64 is_positive actions default)
  perform_all-IsOwned actions =
      of_Keeps (perform_all as_str as_object is_null as_i64 is_positive actions default)
        (perform_all-Keeps actions default of_nothing)
