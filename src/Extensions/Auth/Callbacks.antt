-- ===== src/Extensions/Auth/Callbacks.antt =====
-- rust_backend/crates/extensions/src/auth.rs: the callbacks that are pending.
use spoti_flac_mobile.Prelude.{[], ◌∷◌}
use spoti_flac_mobile.Prelude.Result.{Result, err, ok, try}
use spoti_flac_mobile.Prelude.Text.{Text, is_empty, ◌=ₜ◌, codes}
use spoti_flac_mobile.Prelude.{
  [], [], Option, Bool, List, true, false, some, if◌then◌else◌, not, none, ◌&&◌, ◌||◌,
}
use spoti_flac_mobile.Prelude.Int.{ℤ, pos, ltb_ℤ, eq_ℤ, ◌-ℤ◌}
use spoti_flac_mobile.Prelude.Trim.{trim}
use spoti_flac_mobile.BTreeMap
use spoti_flac_mobile.BTreeMap.{BTreeMap}
use spoti_flac_mobile.Extensions.Auth.{State, PendingAuthRequest, next_generation, pending_ttl}

-- Less than 180 seconds old.
abbrev pub is_fresh : ℤ → PendingAuthRequest → Bool
is_fresh now r = ltb_ℤ (now -ℤ r.created_at) pending_ttl

-- The first other request of a state that is not too old.
unfoldable pub find_heir : Text → ℤ → BTreeMap PendingAuthRequest → Option Text
find_heir nonce now [] = none
find_heir nonce now ((id, r) ∷ m) =
    let rest = find_heir nonce now m in
    if (r.nonce =ₜ nonce) && is_fresh now r then some id else rest

abbrev pub inherit : Text → Option Text → BTreeMap Text → BTreeMap Text
inherit nonce none owners = owners
inherit nonce (some id) owners = BTreeMap.insert nonce id owners

abbrev pub owns : Text → Option Text → Bool
owns id none = false
owns id (some owner) = owner =ₜ id

abbrev pub remove_request : Text → ℤ → Option PendingAuthRequest → State → State
remove_request id now none s = s
remove_request id now (some r) s =
    let requests' = BTreeMap.remove id s.requests in
    let heir = find_heir r.nonce now requests' in
    record s {
      requests = requests';
      owners =
          if owns id (BTreeMap.get r.nonce s.owners)
          then inherit r.nonce heir (BTreeMap.remove r.nonce s.owners)
          else s.owners;
    }

unfoldable pub remove_pending : Text → ℤ → State → State
remove_pending id now s = remove_request id now (BTreeMap.get id s.requests) s

unfoldable pub clear : Text → ℤ → State → State
clear id now s =
    if s.closed
    then s
    else remove_pending id now (record s {
      records = BTreeMap.remove id s.records;
      generations = next_generation id s.generations;
    })

abbrev pub same_request : PendingAuthRequest → Option PendingAuthRequest → Bool
same_request r none = false
same_request r (some p) =
    (p.nonce =ₜ r.nonce)
    && (p.auth_url =ₜ r.auth_url)
    && (p.callback_url =ₜ r.callback_url)
    && eq_ℤ p.created_at r.created_at

-- Whether another extension owns the state with another request.
abbrev pub is_taken : PendingAuthRequest → Option Text → State → Bool
is_taken r none s = false
is_taken r (some owner) s =
    not (owner =ₜ r.extension_id) && not (same_request r (BTreeMap.get owner s.requests))

abbrev pub replaces : PendingAuthRequest → Option PendingAuthRequest → Bool
replaces r none = false
replaces r (some p) = not (p.nonce =ₜ r.nonce)

-- `owners.entry(state).or_insert`.
abbrev pub own : Text → Text → Option Text → BTreeMap Text → BTreeMap Text
own nonce id none owners = BTreeMap.insert nonce id owners
own nonce id (some owner) owners = owners

abbrev pub add_request : PendingAuthRequest → State → State
add_request r s = record s {
  owners = own r.nonce r.extension_id (BTreeMap.get r.nonce s.owners) s.owners;
  requests = BTreeMap.insert r.extension_id r s.requests;
}

-- The rest of `register_pending`, for a request with its state and its time; `now` is read when an
-- older request is removed.
unfoldable pub register : PendingAuthRequest → ℤ → State → Result (Unit {0}) Text × State
register r now s =
    let s' : State =
      if replaces r (BTreeMap.get r.extension_id s.requests)
      then remove_pending r.extension_id now s
      else s in
    if s.closed
    then (err (codes "extension environment closed"), s)
    else if is_taken r (BTreeMap.get r.nonce s.owners) s
    then (err (codes "callback state is already registered"), s)
    else (ok tt, add_request r s')

-- `random` is what `callback_state` gives, `created` and `now` what the clock reads.
unfoldable pub register_pending :
    PendingAuthRequest → Result Text Text → ℤ → ℤ → State → Result (Unit {0}) Text × State
register_pending r random created now s =
    let time = if eq_ℤ r.created_at (pos 0) then created else r.created_at in
    let nonce = if is_empty r.nonce then random else ok r.nonce in
    if is_empty (trim r.extension_id)
    then (err (codes "extension id is required"), s)
    else try nonce s (λ n. register (record r { nonce = n; created_at = time }) now s)

unfoldable pub clear_pending : Text → ℤ → State → State
clear_pending id now s = remove_pending id now s

abbrev pub is_stale : ℤ → Option PendingAuthRequest → Bool
is_stale now none = false
is_stale now (some r) = not (is_fresh now r)

unfoldable pub pending : Text → ℤ → ℤ → State → Option PendingAuthRequest × State
pending id now later s =
    let s' : State =
      if is_stale now (BTreeMap.get id s.requests) then remove_pending id later s else s in
    (BTreeMap.get id s'.requests, s')

abbrev pub is_challenge : Text → ℤ → Option PendingAuthRequest → Bool
is_challenge id now none = false
is_challenge id now (some r) =
    (r.extension_id =ₜ id)
    && not (is_empty (trim r.auth_url))
    && not (ltb_ℤ (now -ℤ r.created_at) (pos 0))
    && is_fresh now r

unfoldable pub has_fresh_challenge : Text → ℤ → ℤ → ℤ → State → Bool × State
has_fresh_challenge id now later last s =
    let (r, s') = pending id now later s in (is_challenge id last r, s')

abbrev pub all_pending : State → List PendingAuthRequest
all_pending s = BTreeMap.values s.requests

abbrev pub is_valid : Text → ℤ → Option PendingAuthRequest → Bool
is_valid nonce now none = false
is_valid nonce now (some r) = (r.nonce =ₜ nonce) && is_fresh now r

-- The request of an owner.
abbrev pub request_of : Option Text → State → Option PendingAuthRequest
request_of none s = none
request_of (some owner) s = BTreeMap.get owner s.requests

unfoldable pub drop_nonce : Text → State → State
drop_nonce nonce s = record s {
  owners = BTreeMap.remove nonce s.owners;
  requests = BTreeMap.retain (λ _ r. not (r.nonce =ₜ nonce)) s.requests;
}

-- `Ok(owner.expect(...))`; what is valid has an owner.
abbrev pub answer : Bool → Option Text → Result Text Text
answer true (some owner) = ok owner
answer true none = err (codes "callback state is invalid, expired, or already used")
answer false owner = err (codes "callback state is invalid, expired, or already used")

unfoldable pub resolve_nonce : Text → Bool → ℤ → State → Result Text Text × State
resolve_nonce nonce consume now s =
    let owner = BTreeMap.get nonce s.owners in
    let valid = is_valid nonce now (request_of owner s) in
    (answer valid owner, if not valid || consume then drop_nonce nonce s else s)

unfoldable pub resolve_callback : Text → Bool → ℤ → State → Result Text Text × State
resolve_callback nonce consume now s =
    if is_empty (trim nonce)
    then (err (codes "callback state is required"), s)
    else resolve_nonce (trim nonce) consume now s
