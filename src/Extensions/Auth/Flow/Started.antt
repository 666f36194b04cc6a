-- ===== src/Extensions/Auth/Flow/Started.antt =====
-- rust_backend/crates/extensions/src/auth/client.rs: what `startOAuthWithPKCE` leaves.
use spoti_flac_mobile.Prelude.Result.{Result-cases}
use spoti_flac_mobile.Network.Query.Normal.{parse-IsNormal}
use spoti_flac_mobile.Extensions.Auth.Flow.Queries.{get-set_param, start_params-IsNormal}
use spoti_flac_mobile.Network.Query.Escapes.{IsBytes}
use spoti_flac_mobile.Network.Url.Written.{IsUrl}
use spoti_flac_mobile.Extensions.Auth.Flow.Granted.{edit-ok, then_do-ok}
use spoti_flac_mobile.Extensions.Auth.Flow.Opened.{
  IsOpened, IsParser, checked, validate_auth_url-ok, register_pending-IsOpened,
}
use spoti_flac_mobile.Extensions.Auth.Flow.{
  first_err, UrlParts, start, Draws, start_params, send, string, Query, utf8, display_url,
  with_query, register_pending,
}
use spoti_flac_mobile.Prelude.Result.{Result}
use spoti_flac_mobile.Extensions.Auth.{
  get_code, State, ok, err, is_empty, codes, PendingAuthRequest, code_of,
}
use spoti_flac_mobile.BTreeMap.{BTreeMap}
use spoti_flac_mobile.Prelude.Text.{Text}
use spoti_flac_mobile.Extensions.Auth.Exchange.{store_pkce, verifier_of}
use spoti_flac_mobile.Prelude.{
  Option, true, ◌≡◌, none, arith, refl, Bool, false, if_cases, some, ◌||◌, ◌∷◌, [], inr, inl, ap,
  ◌∙◌, subst,
}
use spoti_flac_mobile.Network.Query.{parse}
use spoti_flac_mobile.BTreeMap

verifier_of-store_pkce :
    (pkce_challenge : Text → Text) (id v : Text) (s s' : State)
    → store_pkce pkce_challenge id v true s ≡ (ok tt, s')
    → (verifier_of (BTreeMap.get id s'.records) ≡ v) × (get_code id s' ≡ none)
unfolding store_pkce get_code
verifier_of-store_pkce pkce_challenge id v s s' h =
    let (kept, stored) = edit-ok id _ s s' h in (rw stored refl, rw stored refl)

first_err-ok :
    {S : Type 0} (text : Text) (m : Result (Unit {0}) Text × S) (s' : S)
    → first_err text m ≡ (ok tt, s')
    → m ≡ (ok tt, s')
first_err-ok text (ok a, s) s' h = h
first_err-ok text (err e, s) s' h = absurd (ground arith)

ok_inj :
    (a b : Text × Text × Text) → ◌≡◌ {A = Result (Text × Text × Text) Text} (ok a) (ok b) → a ≡ b
ok_inj a b e = ground arith

module _ {Value : Type 0} (as_str : Value → Option Text)
    (as_object : Value → Option (BTreeMap Value)) (pkce_challenge : Text → Text) where
  -- What a start that succeeds leaves and answers.
  abbrev pub IsStarted : Text → Text → Text × Text × Text → State → Type 0
  IsStarted id n answer s =
      IsOpened id n answer.0 s
      × (verifier_of (BTreeMap.get id s.records) ≡ answer.1)
      × (answer.2 ≡ pkce_challenge answer.1)
      × (get_code id s ≡ none)

  -- The state is set last.
  get-state :
      (config : BTreeMap Value) (challenge n : Text) (params : Query)
      → BTreeMap.get
          (utf8 (codes "state"))
          (start_params as_str as_object config challenge n params)
        ≡ some (utf8 n ∷ [])
  unfolding start_params
  get-state config challenge n params = get-set_param (codes "state") n _

  send-IsStarted :
      (id : Text) (config : BTreeMap Value) (url : UrlParts) (v n : Text) (d : Draws)
      (answer : Text × Text × Text) (s s' : State)
      → IsUrl url × IsBytes url.raw_query
      → url.scheme ≡ codes "https"
      → d.nonce ≡ ok n
      → is_empty n ≡ false
      → (verifier_of (BTreeMap.get id s.records) ≡ v) × (get_code id s ≡ none)
      → send as_str as_object pkce_challenge id config url v d s ≡ (ok answer, s')
      → IsStarted id n answer s'
  unfolding send get_code
  send-IsStarted id config url v n d answer s s' (bytes, query) https drawn e (stored, codeless) h =
      let params =
        start_params as_str as_object config (pkce_challenge v) n (parse url.raw_query) in
      let opened = display_url (with_query url params) in
      let r : PendingAuthRequest = record {
        extension_id = id;
        auth_url = opened;
        callback_url = string as_str as_object config (codes "redirectUri");
        nonce = n;
        created_at = d.created_at;
      } in
      let failed = codes "failed to register OAuth callback: " in
      let answered : Text × Text × Text = (opened, v, pkce_challenge v) in
      let (u, t, registered, answers) =
        then_do-ok (first_err failed (register_pending r d.spare d.created d.now s))
          (λ u t. (ok answered, t)) answer s' (rw drawn at h) in
      let normal =
        start_params-IsNormal as_str as_object config (pkce_challenge v) n (parse url.raw_query)
          (parse-IsNormal url.raw_query query) in
      let (there, same) =
        register_pending-IsOpened url params r d.spare d.created d.now s t bytes https normal
          (get-state config (pkce_challenge v) n (parse url.raw_query)) refl e
          (first_err-ok failed (register_pending r d.spare d.created d.now s) t registered) in
      let kept = ap (BTreeMap.get id) same in
      let started : IsStarted id n answered t =
        (there, ap verifier_of kept ∙ stored, refl, ap code_of kept ∙ codeless) in
      subst (IsStarted id n answer) (ap (λ a. a.1) answers)
        (subst (λ a. IsStarted id n a t) (ok_inj answered answer (ap (λ a. a.0) answers)) started)

  module _ (check : Text → Result (Unit {0}) Text) (parse_url : Text → Option UrlParts)
      (allow : Bool) (private : Text → Result Bool Text) where
    -- When `startOAuthWithPKCE` succeeds, with whatever checks and look-ups, the extension has a request
    -- with the URL of the answer and the random state; the query that is read from that URL has that
    -- state and no other, whatever the extra parameters of the extension are; the verifier of the
    -- answer is kept for the exchange, with the challenge made of it, and no code is left from before.
    pub start-IsStarted :
        (id : Text) (config : BTreeMap Value) (verifier : Result Text Text) (n : Text) (d : Draws)
        (answer : Text × Text × Text) (s s' : State)
        → IsParser parse_url
        → d.nonce ≡ ok n
        → is_empty n ≡ false
        → start as_str as_object
            (checked check parse_url allow private)
            pkce_challenge
            id
            config
            verifier
            d
            s
          ≡ (ok answer, s')
        → IsStarted id n answer s'
    unfolding start
    start-IsStarted id config verifier n d answer s s' parser drawn e =
        let input = string as_str as_object config (codes "authUrl") in
        if_cases (λ a. a ≡ (ok answer, s') → IsStarted id n answer s')
          (is_empty input
            || is_empty (string as_str as_object config (codes "clientId"))
            || is_empty (string as_str as_object config (codes "redirectUri")))
          _ _ (λ _ h. absurd (ground arith))
          (λ _ h. elim (Result-cases (checked check parse_url allow private input)) [
            | inr (reason, refused) ↦ let h' = rw refused at h in absurd (ground arith)
            | inl (url, valid) ↦ elim (Result-cases verifier) [
              | inr (reason, failed) ↦ let h' = rw (valid, failed) at h in absurd (ground arith)
              | inl (v, made) ↦
                  let (u, stored, keeps, sent) =
                    then_do-ok (store_pkce pkce_challenge id v true s)
                      (λ u. send as_str as_object pkce_challenge id config url v d) answer s'
                      (rw (valid, made) at h) in
                  let (parsed, https) =
                    validate_auth_url-ok (check input) (parse_url input) allow (private input) url
                      valid in
                  send-IsStarted id config url v n d answer stored s' (parser input url parsed)
                    https drawn e (verifier_of-store_pkce pkce_challenge id v s stored keeps) sent
            ]
          ])
