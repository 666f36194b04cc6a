-- ===== src/Extensions/Auth/Exchange/Unchanged.antt =====
-- rust_backend/crates/extensions/src/auth/client.rs: the calls between the start and the end of an
-- exchange.
use spoti_flac_mobile.Extensions.Auth.Exchange.{generation_of}
use spoti_flac_mobile.Prelude.Text.{◌=ₜ◌, =ₜ_iff}
use spoti_flac_mobile.Prelude.{
  [], ◌∷◌, some, none, inl, inr, ℕ, List, Option, ◌≡◌, if◌then◌else◌, ◌+◌, ◌%◌, ◌^◌, refl, ap, ◌∙◌,
  true, Bool, Bool-cases, if_cases, ◌⊎◌, false, sym, arith, not, ◌||◌,
}
use spoti_flac_mobile.Prelude.Result.{Result, ok, err}
use spoti_flac_mobile.Prelude.Int.{ℤ}
use spoti_flac_mobile.BTreeMap
use spoti_flac_mobile.BTreeMap.{get-insert, BTreeMap}
use spoti_flac_mobile.Extensions.Auth.{
  edit, unwrap_or, Text, next_generation, PendingAuthRequest, ◌=ₜ◌, State, Record, try, is_empty,
  trim,
}
use spoti_flac_mobile.Extensions.Auth.Callbacks.{
  clear, remove_request, remove_pending, register, register_pending, resolve_callback, replaces,
  resolve_nonce, is_taken, drop_nonce, is_valid, request_of,
}
use spoti_flac_mobile.Extensions.Auth.Calls.{
  Call, edit_call, set_code_call, set_tokens_call, clear_call, register_call, clear_pending_call,
  pending_call, resolve_call, shutdown_call,
}

-- Whether a call changes the authentication of an extension.
abbrev pub touch : Text → Call → ℕ
touch id (edit_call i f) = if i =ₜ id then 1 else 0
touch id (set_code_call i code) = if i =ₜ id then 1 else 0
touch id (set_tokens_call i access refresh expires_in now) = if i =ₜ id then 1 else 0
touch id (clear_call i now) = if i =ₜ id then 1 else 0
touch id (register_call r random created now) = 0
touch id (clear_pending_call i now) = 0
touch id (pending_call i now later) = 0
touch id (resolve_call m consume now) = 0
touch id shutdown_call = 0

abbrev pub touches : Text → List Call → ℕ
touches id [] = 0
touches id (c ∷ calls) = touch id c + touches id calls

-- The generation, after some changes of its extension, unless the registry is closed.
abbrev pub Tracks : Text → ℕ → State → Type 0
Tracks id total s = (s.closed ≡ true) ⊎ (generation_of id s ≡ total % 2 ^ 64)

unwrap_if :
    (b : Bool) (n : ℕ) (o : Option ℕ)
    → unwrap_or 0 (if b then some n else o) ≡ (if b then n else unwrap_or 0 o)
unwrap_if true n o = refl
unwrap_if false n o = refl

generation-next :
    (id i : Text) (m : BTreeMap ℕ)
    → unwrap_or 0 (BTreeMap.get id (next_generation i m)) ≡ (
        if id =ₜ i
        then (unwrap_or 0 (BTreeMap.get i m) + 1) % 2 ^ 64
        else unwrap_or 0 (BTreeMap.get id m))
unfolding next_generation
generation-next id i m =
    let n = (unwrap_or 0 (BTreeMap.get i m) + 1) % 2 ^ 64 in
    ap (unwrap_or 0) (get-insert i id n m) ∙ unwrap_if (id =ₜ i) n (BTreeMap.get id m)

-- One more change, if it is of this extension.
Tracks-next :
    (id i : Text) (total : ℕ) (m : BTreeMap ℕ)
    → unwrap_or 0 (BTreeMap.get id m) ≡ total % 2 ^ 64
    → unwrap_or 0 (BTreeMap.get id (next_generation i m))
      ≡ (total + (if i =ₜ id then 1 else 0)) % 2 ^ 64
Tracks-next id i total m h = elim (Bool-cases (i =ₜ id)) [
  | inl is ↦
      let i≡id = (=ₜ_iff i id).0 is in
      let same : (id =ₜ i) ≡ true = (=ₜ_iff id i).1 (sym i≡id) in
      let here : unwrap_or 0 (BTreeMap.get i m) ≡ total % 2 ^ 64 =
        ap (λ k. unwrap_or 0 (BTreeMap.get k m)) i≡id ∙ h in
      rw is (generation-next id i m ∙ rw same (ground arith))
  | inr other ↦
      let differs : (id =ₜ i) ≡ false = ground (arith, =ₜ_iff id i, =ₜ_iff i id) in
      rw other (generation-next id i m ∙ rw differs (ground arith))
]

pub edit-Tracks :
    (id i : Text) (f : Record → Record) (total : ℕ) (s : State)
    → Tracks id total s
    → Tracks id (total + (if i =ₜ id then 1 else 0)) ((edit i f s).1)
unfolding edit
edit-Tracks id i f total s t =
    if_cases {A = Result (Unit {0}) Text × State}
      (λ a. Tracks id (total + (if i =ₜ id then 1 else 0)) (a.1)) s.closed (_, s) _
      (λ closed. inl closed)
      (λ live. elim t [
        | inl closed ↦ absurd (cc)
        | inr now ↦ inr (Tracks-next id i total s.generations now)
      ])

-- To remove a request changes no authentication.
remove_request-Tracks :
    (id i : Text) (now : ℤ) (o : Option PendingAuthRequest) (total : ℕ) (s : State)
    → Tracks id total s
    → Tracks id total (remove_request i now o s)
remove_request-Tracks id i now none total s t = t
remove_request-Tracks id i now (some r) total s t = t

pub remove_pending-Tracks :
    (id i : Text) (now : ℤ) (total : ℕ) (s : State)
    → Tracks id total s
    → Tracks id total (remove_pending i now s)
unfolding remove_pending
remove_pending-Tracks id i now total s t =
    remove_request-Tracks id i now (BTreeMap.get i s.requests) total s t

pub clear-Tracks :
    (id i : Text) (now : ℤ) (total : ℕ) (s : State)
    → Tracks id total s
    → Tracks id (total + (if i =ₜ id then 1 else 0)) (clear i now s)
unfolding clear
clear-Tracks id i now total s t =
    if_cases (Tracks id (total + (if i =ₜ id then 1 else 0))) s.closed s _ (λ closed. inl closed)
      (λ live. remove_pending-Tracks id i now _ _ (elim t [
        | inl closed ↦ absurd (cc)
        | inr g ↦ inr (Tracks-next id i total s.generations g)
      ]))

try-Tracks :
    (id : Text) (total : ℕ) (o : Result Text Text) (s : State)
    (f : Text → Result (Unit {0}) Text × State)
    → Tracks id total s
    → ((n : Text) → Tracks id total ((f n).1))
    → Tracks id total ((try o s f).1)
try-Tracks id total (ok n) s f t h = h n
try-Tracks id total (err e) s f t h = t

register-Tracks :
    (id : Text) (r : PendingAuthRequest) (now : ℤ) (total : ℕ) (s : State)
    → Tracks id total s
    → Tracks id total ((register r now s).1)
unfolding register
register-Tracks id r now total s t =
    let room =
      if_cases (Tracks id total) (replaces r (BTreeMap.get r.extension_id s.requests))
        (remove_pending r.extension_id now s) s
        (λ _. remove_pending-Tracks id r.extension_id now total s t) (λ _. t) in
    if_cases {A = Result (Unit {0}) Text × State} (λ a. Tracks id total (a.1)) s.closed (_, s) _
      (λ _. t)
      (λ _.
        if_cases {A = Result (Unit {0}) Text × State} (λ a. Tracks id total (a.1))
          (is_taken r (BTreeMap.get r.nonce s.owners) s) (_, s) _ (λ _. t) (λ _. room))

pub register_pending-Tracks :
    (id : Text) (r : PendingAuthRequest) (random : Result Text Text) (created now : ℤ) (total : ℕ)
    (s : State)
    → Tracks id total s
    → Tracks id total ((register_pending r random created now s).1)
unfolding register_pending
register_pending-Tracks id r random created now total s t =
    if_cases {A = Result (Unit {0}) Text × State} (λ a. Tracks id total (a.1))
      (is_empty (trim r.extension_id)) (_, s) _ (λ _. t)
      (λ _.
        try-Tracks id total (if is_empty r.nonce then random else ok r.nonce) s _ t
          (λ n. register-Tracks id _ now total s t))

pub resolve_callback-Tracks :
    (id m : Text) (consume : Bool) (now : ℤ) (total : ℕ) (s : State)
    → Tracks id total s
    → Tracks id total ((resolve_callback m consume now s).1)
unfolding resolve_callback resolve_nonce drop_nonce
resolve_callback-Tracks id m consume now total s t =
    if_cases {A = Result Text Text × State} (λ a. Tracks id total (a.1)) (is_empty (trim m)) (_, s)
      _ (λ _. t)
      (λ _.
        if_cases (Tracks id total)
          (not (is_valid (trim m) now (request_of (BTreeMap.get (trim m) s.owners) s)) || consume)
          (drop_nonce (trim m) s) s (λ _. t) (λ _. t))
