-- ===== src/Extensions/Auth/Flow/Queries.antt =====
-- rust_backend/crates/extensions/src/auth/client.rs: the queries of the URLs that are opened.
use spoti_flac_mobile.BTreeMap.Order.{insert-IsSorted}
use spoti_flac_mobile.Network.Query.RoundTrip.{NoneHas, NoneHas-pairs_of, parse-encode}
use spoti_flac_mobile.Network.Url.Written.{IsUrl, NoMark, query_of, query_of-display_url}
use spoti_flac_mobile.Network.Query.Normal.{IsNormal, insert-IsQuery}
use spoti_flac_mobile.Extensions.Auth.Flow.{
  set_extras, start_params, set_some, extra_params, set_param, string, is_empty, with_query,
}
use spoti_flac_mobile.BTreeMap.{BTreeMap, get, get-insert}
use spoti_flac_mobile.Network.Query.Escapes.{IsBytes, contains-append}
use spoti_flac_mobile.Network.Url.{UrlParts, display_url}
use spoti_flac_mobile.Network.Query.{join, encode, contains, Query, pairs_of, set, parse}
use spoti_flac_mobile.Prelude.Utf8.{utf8, utf8_char}
use spoti_flac_mobile.Prelude.Text.{Text, codes, =ₜ_iff}
use spoti_flac_mobile.Prelude.{
  ℕ, Option, ◌∷◌, List, ◌≡◌, ◌++◌, [], if_cases, some, ◌==◌, false, ltb, arith, none, ◌+◌, ◌/◌,
  refl, ◌%◌, ap, ◌∙◌,
}

utf8_char-IsBytes : (c : ℕ) (s : Text) → IsBytes s → IsBytes (utf8_char c ++ s)
utf8_char-IsBytes c s h =
    if_cases (λ t. IsBytes (t ++ s)) (ltb c 128) (c ∷ []) _ (λ e. (grind arith, h))
      (λ _.
        if_cases (λ t. IsBytes (t ++ s)) (ltb c 2048) ((192 + c / 64 % 32) ∷ (128 + c % 64) ∷ []) _
          (λ _. (omega arith, (omega arith, h)))
          (λ _.
            if_cases (λ t. IsBytes (t ++ s)) (ltb c 65536)
              ((224 + c / 4096 % 16) ∷ (128 + c / 64 % 64) ∷ (128 + c % 64) ∷ []) _
              (λ _. (omega arith, (omega arith, (omega arith, h))))
              (λ _. (omega arith, (omega arith, (omega arith, (omega arith, h)))))))

utf8-IsBytes : (s : Text) → IsBytes (utf8 s)
unfolding utf8
utf8-IsBytes [] = tt
utf8-IsBytes (c ∷ s) = utf8_char-IsBytes c (utf8 s) (utf8-IsBytes s)

pub set_param-IsNormal :
    (key value : Text) (params : Query) → IsNormal params → IsNormal (set_param key value params)
unfolding set
set_param-IsNormal key value params (s, q) = (
  insert-IsSorted (utf8 key) (utf8 value ∷ []) params s,
  insert-IsQuery (utf8 key) (utf8 value ∷ []) params (utf8-IsBytes key) (omega arith)
      (utf8-IsBytes value, tt) q,
)

module _ {Value : Type 0} (as_str : Value → Option Text)
    (as_object : Value → Option (BTreeMap Value)) where
  set_extras-IsNormal :
      (extras : BTreeMap Value) (params : Query)
      → IsNormal params
      → IsNormal (set_extras as_str as_object extras params)
  unfolding set_extras
  set_extras-IsNormal [] params n = n
  set_extras-IsNormal ((key, v) ∷ extras) params n =
      set_extras-IsNormal extras _ (set_param-IsNormal key _ params n)

  set_some-IsNormal :
      (extras : Option (BTreeMap Value)) (params : Query)
      → IsNormal params
      → IsNormal (set_some as_str as_object extras params)
  set_some-IsNormal none params n = n
  set_some-IsNormal (some extras) params n = set_extras-IsNormal extras params n

  pub start_params-IsNormal :
      (config : BTreeMap Value) (challenge nonce : Text) (params : Query)
      → IsNormal params
      → IsNormal (start_params as_str as_object config challenge nonce params)
  unfolding start_params extra_params
  start_params-IsNormal config challenge nonce params n =
      set_param-IsNormal (codes "state") nonce _ (
        set_some-IsNormal _ _ (
          if_cases IsNormal (is_empty (string as_str as_object config (codes "scope"))) _ _
            (λ _. fixed-IsNormal) (λ _. set_param-IsNormal (codes "scope") _ _ fixed-IsNormal)))
    where
      fixed-IsNormal : IsNormal (
          set_param (codes "code_challenge_method") (codes "S256") (
            set_param (codes "code_challenge") challenge (
              set_param (codes "response_type") (codes "code") (
                set_param
                  (codes "redirect_uri")
                  (string as_str as_object config (codes "redirectUri"))
                  (set_param
                    (codes "client_id")
                    (string as_str as_object config (codes "clientId"))
                    params)))))
      fixed-IsNormal = set_param-IsNormal _ _ _ (
          set_param-IsNormal _ _ _
            (set_param-IsNormal _ _ _ (set_param-IsNormal _ _ _ (set_param-IsNormal _ _ params n))))

-- A parameter that is set is the only one of its name.
pub get-set_param :
    (key value : Text) (params : Query)
    → get (utf8 key) (set_param key value params) ≡ some (utf8 value ∷ [])
unfolding set
get-set_param key value params =
    ground (
      arith,
      get-insert (utf8 key) (utf8 key) (utf8 value ∷ []) params,
      =ₜ_iff (utf8 key) (utf8 key),
    )

contains-join :
    (c : ℕ) (ps : List Text) → NoneHas c ps → (38 == c) ≡ false → contains c (join ps) ≡ false
unfolding join contains
contains-join c [] h n = refl
contains-join c (p ∷ []) h n = h.0
contains-join c (p ∷ q ∷ ps) h n =
    ground (arith, contains-append c p (38 ∷ join (q ∷ ps)), contains-join c (q ∷ ps))

encode-clean : (params : Query) → IsNormal params → contains 35 (encode params) ≡ false
unfolding encode
encode-clean params n =
    contains-join 35 (pairs_of params) (NoneHas-pairs_of 35 params n.1 refl refl) refl

-- The parameters of a URL are read back from it.
pub parse-query_of :
    (url : UrlParts) (params : Query)
    → IsUrl url
    → NoMark url.scheme
    → IsNormal params
    → parse (query_of (display_url (with_query url params))) ≡ params
parse-query_of url params u m n =
    ap parse (query_of-display_url (with_query url params) u m (encode-clean params n))
    ∙ parse-encode params n.0 n.1
