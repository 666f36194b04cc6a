-- ===== src/Extensions/Auth/Flow/Exchanged.antt =====
-- rust_backend/crates/extensions/src/auth/client.rs: what a whole exchange writes.
use spoti_flac_mobile.Prelude.Result.{Result-cases}
use spoti_flac_mobile.Extensions.Auth.Exchange.Guard.{commit-run}
use spoti_flac_mobile.Extensions.Auth.Exchange.Unchanged.{touches}
use spoti_flac_mobile.Extensions.Auth.Flow.{string}
use spoti_flac_mobile.Extensions.Auth.Flow.Tokens.{
  take_tokens, take_token, take_object, exchange_end, exchange_request, Outcome, granted,
  commit_outcome,
}
use spoti_flac_mobile.BTreeMap.{BTreeMap, get-insert}
use spoti_flac_mobile.Prelude.Int.{ℤ}
use spoti_flac_mobile.Extensions.Auth.Exchange.{
  commit, exchange_start, generation_of, with_tokens, verifier_of,
}
use spoti_flac_mobile.Prelude.Text.{Text, =ₜ_iff}
use spoti_flac_mobile.Prelude.{
  ℕ, refl, Option, ◌≡◌, some, Bool, true, if_cases, [], false, inr, ◌||◌, not, arith, ◌==◌, ◌⊎◌,
  inl, none, sym, ◌≢◌, ap, subst, ◌∙◌, List, if◌then◌else◌, ltb, ◌<◌, ◌^◌,
}
use spoti_flac_mobile.BTreeMap
use spoti_flac_mobile.Extensions.Auth.Calls.{Call, run}
use spoti_flac_mobile.Extensions.Auth.{
  State, Record, default, Result, ok, err, is_empty, codes, unwrap_or, no_record,
}

-- Both tokens are in the record, and the verifier is used.
abbrev pub HasTokens : Text → Text → Text → State → Type 0
HasTokens id access refresh s =
    (r : Record) × (BTreeMap.get id s.records ≡ some r)
    × (r.access_token ≡ access)
    × (r.refresh_token ≡ refresh)
    × (r.is_authenticated ≡ true)
    × (r.verifier ≡ [])

commit-HasTokens :
    (id : Text) (g : ℕ) (access refresh : Text) (now : ℤ) (expires : Option ℤ) (s s' : State)
    → commit id g access refresh now expires s ≡ (ok tt, s')
    → HasTokens id access refresh s'
unfolding commit
commit-HasTokens id g access refresh now expires s s' =
    if_cases (λ a. a ≡ (ok tt, s') → HasTokens id access refresh s')
      (s.closed || not (generation_of id s == g)) _ _ (λ _ h. absurd (ground arith))
      (λ _ h.
        let r =
          with_tokens access refresh now expires
            (unwrap_or no_record (BTreeMap.get id s.records)) in
        subst (HasTokens id access refresh) (ap (λ a. a.1) h)
          (r, ground (arith, get-insert id id r s.records, =ₜ_iff id id), refl, refl, refl, refl))

commit-unchanged :
    (id : Text) (g : ℕ) (access refresh : Text) (now : ℤ) (expires : Option ℤ) (s s' : State)
    (e : Text)
    → commit id g access refresh now expires s ≡ (err e, s')
    → s' ≡ s
unfolding commit
commit-unchanged id g access refresh now expires s s' e =
    if_cases (λ a. a ≡ (err e, s') → s' ≡ s) (s.closed || not (generation_of id s == g)) _ _
      (λ _ h. sym (ap (λ a. a.1) h)) (λ _ h. absurd (ground arith))

-- An exchange that is granted had a token of some bytes, and a commit that was granted; any other
-- leaves the state.
abbrev pub IsEnded : Text → ℕ → ℤ → State → Result Outcome Text × State → Type 0
IsEnded id g now s a =
    ((access : Text) × (refresh : Text) × (expires : Option ℤ) × (a.0 ≡ ok (granted access refresh))
      × (is_empty access ≡ false)
      × (commit id g access refresh now expires s ≡ (ok tt, a.1)))
    ⊎ (((access refresh : Text) → a.0 ≢ ok (granted access refresh)) × (a.1 ≡ s))

second-ok :
    (a c : Text) (g k : ℕ) → ◌≡◌ {A = Result (Text × ℕ) Text} (ok (a, g)) (ok (c, k)) → g ≡ k
second-ok a c g k h = ground arith

exchange_start-generation :
    (id token_url client code : Text) (s : State) (read : Text × ℕ)
    → exchange_start id token_url client code s ≡ ok read
    → generation_of id s ≡ read.1
unfolding exchange_start
exchange_start-generation id token_url client code s read =
    let verifier = verifier_of (BTreeMap.get id s.records) in
    let P : Result (Text × ℕ) Text → Type 0 = λ a. a ≡ ok read → generation_of id s ≡ read.1 in
    if_cases P (is_empty token_url || is_empty client || is_empty code) _ _
      (λ _ h. absurd (ground arith))
      (λ _.
        if_cases P (is_empty verifier) _ _ (λ _ h. absurd (ground arith))
          (λ _ h. second-ok verifier read.0 (generation_of id s) read.1 h))

module _ {Value : Type 0} (as_str : Value → Option Text)
    (as_object : Value → Option (BTreeMap Value)) (is_null : Value → Bool)
    (as_i64 : Value → Option ℤ) (is_positive : Value → Bool) where
  commit_outcome-IsEnded :
      (id : Text) (g : ℕ) (access refresh : Text) (now : ℤ) (expires : Option ℤ) (s : State)
      (a : Result (Unit {0}) Text × State)
      → is_empty access ≡ false
      → commit id g access refresh now expires s ≡ a
      → IsEnded id g now s
          (commit_outcome as_str as_object is_null as_i64 is_positive access refresh a)
  commit_outcome-IsEnded id g access refresh now expires s (ok u, s') e h =
      inl (access, refresh, expires, refl, e, h)
  commit_outcome-IsEnded id g access refresh now expires s (err m, s') e h =
      inr (
        (λ a r k. absurd (ground arith)),
        commit-unchanged id g access refresh now expires s s' m h,
      )

  take_tokens-IsEnded :
      (id : Text) (g : ℕ) (token : BTreeMap Value) (checked : Result (Unit {0}) Text) (now : ℤ)
      (s : State)
      → IsEnded id g now s
          (take_tokens as_str as_object is_null as_i64 is_positive id g token checked now s)
  unfolding take_tokens
  take_tokens-IsEnded id g token checked now s =
      let access = string as_str as_object token (codes "access_token") in
      if_cases (IsEnded id g now s) (is_empty access) _ _
        (λ _. inr ((λ a r k. absurd (ground arith)), refl))
        (λ e. elim (Result-cases checked) [
          | inr (m, stopped) ↦ rw stopped (inr ((λ a r k. absurd (ground arith)), refl))
          | inl (u, passed) ↦ rw passed (commit_outcome-IsEnded id g access _ now _ s _ e refl)
        ])

  take_token-IsEnded :
      (id : Text) (g : ℕ) (e : Option Text) (token : BTreeMap Value)
      (checked : Result (Unit {0}) Text) (now : ℤ) (s : State)
      → IsEnded id g now s
          (take_token as_str as_object is_null as_i64 is_positive id g e token checked now s)
  take_token-IsEnded id g none token checked now s = take_tokens-IsEnded id g token checked now s
  take_token-IsEnded id g (some e) token checked now s =
      inr ((λ a r k. absurd (ground arith)), refl)

  take_object-IsEnded :
      (id : Text) (g : ℕ) (token : Result (BTreeMap Value) Text) (checked : Result (Unit {0}) Text)
      (now : ℤ) (s : State)
      → IsEnded id g now s
          (take_object as_str as_object is_null as_i64 is_positive id g token checked now s)
  take_object-IsEnded id g (err e) checked now s = inr ((λ a r k. absurd (ground arith)), refl)
  take_object-IsEnded id g (ok token) checked now s = take_token-IsEnded id g _ token checked now s

  pub exchange_end-IsEnded :
      (id : Text) (g : ℕ) (response : Result (Result Value Text) Text)
      (checked : Result (Unit {0}) Text) (now : ℤ) (s : State)
      → IsEnded id g now s
          (exchange_end as_str as_object is_null as_i64 is_positive id g response checked now s)
  unfolding exchange_end
  exchange_end-IsEnded id g (err e) checked now s = inr ((λ a r k. absurd (ground arith)), refl)
  exchange_end-IsEnded id g (ok body) checked now s = take_object-IsEnded id g _ checked now s

  -- What a request reads is the generation.
  exchange_request-generation :
      (validate_url : Text → Result (Unit {0}) Text) (id : Text) (config : BTreeMap Value)
      (s : State) (body : Text) (g : ℕ)
      → exchange_request as_str as_object validate_url id config s ≡ ok (body, g)
      → generation_of id s ≡ g
  unfolding exchange_request
  exchange_request-generation validate_url id config s body g h =
      let token_url = string as_str as_object config (codes "tokenUrl") in
      let client = string as_str as_object config (codes "clientId") in
      let code = string as_str as_object config (codes "code") in
      elim (Result-cases (exchange_start id token_url client code s)) [
        | inr (e, missing) ↦ let h' = rw missing at h in absurd (ground arith)
        | inl (read, starts) ↦ elim (Result-cases (validate_url token_url)) [
          | inr (e, refused) ↦ let h' = rw (starts, refused) at h in absurd (ground arith)
          | inl (u, valid) ↦
              let h' = rw (starts, valid) at h in
              exchange_start-generation id token_url client code s read starts
              ∙ second-ok _ body _ g h'
        ]
      ]

  -- What an exchange that ends gives and leaves, after so many changes of the extension.
  abbrev pub IsExchanged : Text → ℕ → Result Outcome Text → State → State → Type 0
  IsExchanged id changes outcome s s' =
      ((access : Text) × (refresh : Text) × (outcome ≡ ok (granted access refresh))
        × (is_empty access ≡ false)
        × (changes ≡ 0)
        × (s.closed ≡ false)
        × HasTokens id access refresh s')
      ⊎ (((access refresh : Text) → outcome ≢ ok (granted access refresh)) × (s' ≡ s))

  granted_only :
      (closed : Bool) (n : ℕ) (e : Text)
      → ◌≡◌ {A = Result (Unit {0}) Text} (if closed || ltb 0 n then err e else ok tt) (ok tt)
      → (n ≡ 0) × (closed ≡ false)
  granted_only true n e h = absurd (ground arith)
  granted_only false n e h = (ground arith, refl)

  -- Whatever calls were made before an exchange and come between its request and its end, fewer than
  -- 2 ^ 64 of them on this extension, and whatever the network, the server and the check of the script
  -- give: tokens are granted only if one of some bytes came, none of those calls edits or clears the
  -- authentication of the extension, and the registry is open, and then both are kept and the verifier
  -- is gone; in any other case nothing is changed.
  pub exchange-IsExchanged :
      (before between : List Call) (validate_url : Text → Result (Unit {0}) Text) (id : Text)
      (config : BTreeMap Value) (body : Text) (g : ℕ) (response : Result (Result Value Text) Text)
      (checked : Result (Unit {0}) Text) (now : ℤ)
      → touches id between < 2 ^ 64
      → exchange_request as_str as_object validate_url id config (run before default) ≡ ok (body, g)
      → IsExchanged id
          (touches id between)
          (exchange_end as_str as_object is_null as_i64 is_positive id g response checked now
            (run between (run before default))).0
          (run between (run before default))
          (exchange_end as_str as_object is_null as_i64 is_positive id g response checked now
            (run between (run before default))).1
  exchange-IsExchanged before between validate_url id config body g response checked now few h =
      let s = run between (run before default) in
      elim (exchange_end-IsEnded id g response checked now s) [
        | inr unchanged ↦ inr unchanged
        | inl (access, refresh, expires, given, e, commits) ↦
            let read =
              exchange_request-generation validate_url id config (run before default) body g h in
            let guarded = commit-run before between id access refresh now expires few in
            let at_g : (commit id g access refresh now expires s).0 ≡ ok tt =
              ap (λ a. a.0) commits in
            let as_read =
              subst (λ k. (commit id k access refresh now expires s).0 ≡ ok tt) (sym read) at_g in
            let (unchanged, opened) =
              granted_only s.closed (touches id between) _ (sym guarded ∙ as_read) in
            inl (
              access,
              refresh,
              given,
              e,
              unchanged,
              opened,
              commit-HasTokens id g access refresh now expires s _ commits,
            )
      ]
