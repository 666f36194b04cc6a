-- ===== src/Extensions/Auth/Flow/Opened.antt =====
-- rust_backend/crates/extensions/src/auth/client.rs: what a flow that has started leaves.
use spoti_flac_mobile.Prelude.Result.{Result-cases}
use spoti_flac_mobile.Extensions.Auth.Flow.Queries.{
  set_param-IsNormal, parse-query_of, get-set_param,
}
use spoti_flac_mobile.Extensions.Auth.Flow.Granted.{edit-ok, then_do-ok, register_pending-ok}
use spoti_flac_mobile.Network.Query.Normal.{IsNormal, parse-IsNormal}
use spoti_flac_mobile.Network.Query.Escapes.{IsBytes}
use spoti_flac_mobile.Network.Url.Written.{NoMark, IsUrl, query_of}
use spoti_flac_mobile.Extensions.Auth.Flow.{
  open_auth_url, Query, utf8, Draws, display_url, unwrap_or_default, with_query, register_pending,
  set_param, callback_of,
}
use spoti_flac_mobile.Extensions.Auth.{
  set_code, State, get_code, ok, PendingAuthRequest, codes, err, ℤ, is_empty,
}
use spoti_flac_mobile.Prelude.Result.{Result, ◌>>=◌}
use spoti_flac_mobile.Network.Url.{UrlParts, validate_auth_url}
use spoti_flac_mobile.Prelude.Text.{Text, ◌=ₜ◌, =ₜ_iff}
use spoti_flac_mobile.Prelude.{
  Option, ◌≡◌, Bool, some, [], List, arith, none, if◌then◌else◌, refl, ap, true, subst, ◌∙◌, false,
  ◌∷◌, if_cases, not, sym, inr, inl,
}
use spoti_flac_mobile.Network.Query.{parse, contains}
use spoti_flac_mobile.BTreeMap

-- `validate_auth_url` of an input.
abbrev pub checked :
    (Text → Result (Unit {0}) Text)
    → (Text → Option UrlParts)
    → Bool
    → (Text → Result Bool Text)
    → Text
    → Result UrlParts Text
checked check parse_url allow private input =
    validate_auth_url (check input) (parse_url input) allow (private input)

-- What is parsed is made of bytes.
abbrev pub IsParser : (Text → Option UrlParts) → Type 0
IsParser parse_url =
    (input : Text) (u : UrlParts) → parse_url input ≡ some u → IsUrl u × IsBytes u.raw_query

ok_inj : (a b : UrlParts) → ◌≡◌ {A = Result UrlParts Text} (ok a) (ok b) → a ≡ b
ok_inj a b e = ground arith

private-ok :
    (private : Result Bool Text) (url u : UrlParts)
    → (private >>= λ p.
        if p then err (codes "invalid auth URL: private/local network is not allowed") else ok url)
      ≡ ok u
    → url ≡ u
private-ok (err e) url u h = absurd (ground arith)
private-ok (ok true) url u h = absurd (ground arith)
private-ok (ok false) url u h = ok_inj url u h

pub validate_auth_url-ok :
    (check : Result (Unit {0}) Text) (parsed : Option UrlParts) (allow : Bool)
    (private : Result Bool Text) (u : UrlParts)
    → validate_auth_url check parsed allow private ≡ ok u
    → (parsed ≡ some u) × (u.scheme ≡ codes "https")
unfolding validate_auth_url
validate_auth_url-ok (err e) parsed allow private u = λ h. absurd (ground arith)
validate_auth_url-ok (ok passed) none allow private u = λ h. absurd (ground arith)
validate_auth_url-ok (ok passed) (some url) allow private u =
    if_cases Allows (not (url.scheme =ₜ codes "https")) _ _ (λ _ h. absurd (ground arith))
      (λ https.
        let same = (=ₜ_iff url.scheme (codes "https")).0 (ground arith) in
        if_cases Allows (is_empty url.hostname) _ _ (λ _ h. absurd (ground arith))
          (λ _.
            if_cases Allows url.has_credentials _ _ (λ _ h. absurd (ground arith))
              (λ _.
                if_cases Allows allow (ok url) _ (λ _ h. of_same same (ok_inj url u h))
                  (λ _ h. of_same same (private-ok private url u h)))))
  where
    Allows : Result UrlParts Text → Type 0
    Allows r = r ≡ ok u → (some url ≡ some u) × (u.scheme ≡ codes "https")

    of_same :
        url.scheme ≡ codes "https" → url ≡ u → (some url ≡ some u) × (u.scheme ≡ codes "https")
    of_same same e = (ap some e, subst (λ v. v.scheme ≡ codes "https") e same)

-- The extension has a request with a state and a URL, and the query that is read from the URL has
-- that state and no other.
abbrev pub IsOpened : Text → Text → Text → State → Type 0
IsOpened id n url s =
    (r : PendingAuthRequest) × (BTreeMap.get id s.requests ≡ some r)
    × (r.nonce ≡ n)
    × (r.auth_url ≡ url)
    × (BTreeMap.get (utf8 (codes "state")) (parse (query_of url)) ≡ some (utf8 n ∷ []))

https-NoMark : NoMark (codes "https")
unfolding contains
https-NoMark = (refl, refl)

-- A registration whose URL has those parameters, one of them the state.
pub register_pending-IsOpened :
    (url : UrlParts) (params : Query) (r : PendingAuthRequest) (spare : Result Text Text)
    (created now : ℤ) (s s' : State)
    → IsUrl url
    → url.scheme ≡ codes "https"
    → IsNormal params
    → BTreeMap.get (utf8 (codes "state")) params ≡ some (utf8 r.nonce ∷ [])
    → r.auth_url ≡ display_url (with_query url params)
    → is_empty r.nonce ≡ false
    → register_pending r spare created now s ≡ (ok tt, s')
    → IsOpened r.extension_id r.nonce (display_url (with_query url params)) s'
      × (s'.records ≡ s.records)
register_pending-IsOpened url params r spare created now s s' u https n state shown e h =
    let ((time, found), same) = register_pending-ok r spare created now s s' e h in
    let clean : NoMark url.scheme = subst NoMark (sym https) https-NoMark in
    let read = parse-query_of url params u clean n in
    (
      (
        record r { created_at = time },
        found,
        refl,
        shown,
        ap (BTreeMap.get (utf8 (codes "state"))) read ∙ state,
      ),
      same,
    )

set_code-IsOpened :
    (id n url : Text) (s s' : State)
    → IsOpened id n url s
    → set_code id [] s ≡ (ok tt, s')
    → IsOpened id n url s' × (get_code id s' ≡ none)
unfolding set_code get_code
set_code-IsOpened id n url s s' (r, found, same, shown, state) h =
    let (kept, left) = edit-ok id _ s s' h in
    ((r, ap (BTreeMap.get id) kept ∙ found, same, shown, state), rw left refl)

-- When `openAuthUrl` succeeds, with whatever checks and look-ups, the extension has a request with the
-- random state, and the query that is read from its URL has that state and no other, whatever the
-- extension had written there; no code is left from before.
pub open_auth_url-IsOpened :
    (check : Text → Result (Unit {0}) Text) (parse_url : Text → Option UrlParts) (allow : Bool)
    (private : Text → Result Bool Text) (id : Text) (arguments : List (Option Text)) (n : Text)
    (d : Draws) (s s' : State)
    → IsParser parse_url
    → d.nonce ≡ ok n
    → is_empty n ≡ false
    → open_auth_url (checked check parse_url allow private) id arguments d s ≡ (ok tt, s')
    → ((url : Text) × IsOpened id n url s') × (get_code id s' ≡ none)
unfolding open_auth_url
open_auth_url-IsOpened check parse_url allow private id [] n d s s' parser drawn e h =
    absurd (ground arith)
open_auth_url-IsOpened check parse_url allow private id (first ∷ rest) n d s s' parser drawn e h =
    let input = unwrap_or_default first in
    elim (Result-cases (checked check parse_url allow private input)) [
      | inr (reason, refused) ↦ let h' = rw refused at h in absurd (ground arith)
      | inl (url, valid) ↦
          let h' = rw (valid, drawn) at h in
          let params = set_param (codes "state") n (parse url.raw_query) in
          let r : PendingAuthRequest = record {
            extension_id = id;
            auth_url = display_url (with_query url params);
            callback_url = callback_of rest;
            nonce = n;
            created_at = d.created_at;
          } in
          let (u, t, registered, coded) =
            then_do-ok (register_pending r d.spare d.created d.now s) (λ u t. set_code id [] t) tt
              s' h' in
          let (parsed, https) =
            validate_auth_url-ok (check input) (parse_url input) allow (private input) url valid in
          let (bytes, query) = parser input url parsed in
          let normal =
            set_param-IsNormal (codes "state") n (parse url.raw_query)
              (parse-IsNormal url.raw_query query) in
          let (opened, records) =
            register_pending-IsOpened url params r d.spare d.created d.now s t bytes https normal
              (get-set_param (codes "state") n (parse url.raw_query)) refl e registered in
          let (opened', codeless) = set_code-IsOpened id n _ t s' opened coded in
          ((_, opened'), codeless)
    ]
