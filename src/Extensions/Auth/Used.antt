-- ===== src/Extensions/Auth/Used.antt =====
-- rust_backend/crates/extensions/src/auth.rs: a state that nobody owns and no request has.
use mathlib.Core.Option.{some_inj}
use spoti_flac_mobile.Extensions.Auth.Keeps.{made_room}
use spoti_flac_mobile.Prelude.{inl, inr, subst}
use spoti_flac_mobile.Prelude.Text.{◌=ₜ◌, =ₜ_iff}
use spoti_flac_mobile.Prelude.{
  some, none, Option, Bool, if◌then◌else◌, ◌≡◌, not, false, arith, if_cases, refl, ◌∙◌, Bool-cases,
  inl,
}
use spoti_flac_mobile.Prelude.Result.{Result, ok, err}
use spoti_flac_mobile.Prelude.Int.{ℤ}
use spoti_flac_mobile.BTreeMap
use spoti_flac_mobile.BTreeMap.{BTreeMap, get-insert, get-remove}
use spoti_flac_mobile.BTreeMap.Order.{IsSorted, get-retain}
use spoti_flac_mobile.Extensions.Auth.{Text, PendingAuthRequest, State, ◌=ₜ◌, is_empty, try, trim}
use spoti_flac_mobile.Extensions.Auth.Callbacks.{
  remove_pending, register, register_pending, drop_nonce, remove_request, inherit, find_heir, own,
  add_request, owns, replaces, is_taken,
}

-- Nobody owns the state, and no request has it.
abbrev pub IsUsed : Text → State → Type 0
IsUsed n s =
    (BTreeMap.get n s.owners ≡ none)
    × ((id : Text) (r : PendingAuthRequest)
        → BTreeMap.get id s.requests ≡ some r
        → (r.nonce =ₜ n) ≡ false)

get-inherit_other :
    (n k : Text) (heir : Option Text) (m : BTreeMap Text)
    → (k =ₜ n) ≡ false
    → BTreeMap.get k (inherit n heir (BTreeMap.remove n m)) ≡ BTreeMap.get k m
get-inherit_other n k none m h = ground (arith, get-remove n k m)
get-inherit_other n k (some id) m h =
    ground (arith, get-insert n k id (BTreeMap.remove n m), get-remove n k m)

remove_request-IsUsed :
    (n id : Text) (now : ℤ) (o : Option PendingAuthRequest) (s : State)
    → BTreeMap.get id s.requests ≡ o
    → IsUsed n s
    → IsUsed n (remove_request id now o s)
remove_request-IsUsed n id now none s h u = u
remove_request-IsUsed n id now (some r) s h (unowned, unasked) =
    let heir = find_heir r.nonce now (BTreeMap.remove id s.requests) in
    let differs : (n =ₜ r.nonce) ≡ false =
      ground (arith, unasked id r h, =ₜ_iff n r.nonce, =ₜ_iff r.nonce n) in
    let owners' =
      if_cases (λ (m : BTreeMap Text). BTreeMap.get n m ≡ none)
        (owns id (BTreeMap.get r.nonce s.owners))
        (inherit r.nonce heir (BTreeMap.remove r.nonce s.owners)) s.owners
        (λ _. get-inherit_other r.nonce n heir s.owners differs ∙ unowned) (λ _. unowned) in
    (owners', λ i q g. unasked i q (ground (arith, get-remove id i s.requests)))

pub remove_pending-IsUsed :
    (n id : Text) (now : ℤ) (s : State) → IsUsed n s → IsUsed n (remove_pending id now s)
unfolding remove_pending
remove_pending-IsUsed n id now s u =
    remove_request-IsUsed n id now (BTreeMap.get id s.requests) s refl u

get-own_other :
    (m n id : Text) (o : Option Text) (owners : BTreeMap Text)
    → (n =ₜ m) ≡ false
    → BTreeMap.get n (own m id o owners) ≡ BTreeMap.get n owners
get-own_other m n id none owners h = ground (arith, get-insert m n id owners)
get-own_other m n id (some owner) owners h = refl

add_request-IsUsed :
    (n : Text) (r : PendingAuthRequest) (s : State)
    → (r.nonce =ₜ n) ≡ false
    → IsUsed n s
    → IsUsed n (add_request r s)
add_request-IsUsed n r s differs (unowned, unasked) =
    let other : (n =ₜ r.nonce) ≡ false = ground (arith, =ₜ_iff n r.nonce, =ₜ_iff r.nonce n) in
    (
      get-own_other r.nonce n r.extension_id (BTreeMap.get r.nonce s.owners) s.owners other
          ∙ unowned,
      λ i q g. elim (Bool-cases (i =ₜ r.extension_id)) [
        | inl is ↦
            let r≡q : r ≡ q =
              some_inj.0 (ground (arith, get-insert r.extension_id i r s.requests)) in
            subst (λ p. (p.nonce =ₜ n) ≡ false) r≡q differs
        | inr not_mine ↦ unasked i q (ground (arith, get-insert r.extension_id i r s.requests))
      ],
    )

register-IsUsed :
    (n : Text) (r : PendingAuthRequest) (now : ℤ) (s : State)
    → (r.nonce =ₜ n) ≡ false
    → IsUsed n s
    → IsUsed n ((register r now s).1)
unfolding register
register-IsUsed n r now s differs u =
    let room =
      if_cases (IsUsed n) (replaces r (BTreeMap.get r.extension_id s.requests))
        (remove_pending r.extension_id now s) s
        (λ _. remove_pending-IsUsed n r.extension_id now s u) (λ _. u) in
    if_cases {A = Result (Unit {0}) Text × State} (λ a. IsUsed n (a.1)) s.closed (_, s) _ (λ _. u)
      (λ _.
        if_cases {A = Result (Unit {0}) Text × State} (λ a. IsUsed n (a.1))
          (is_taken r (BTreeMap.get r.nonce s.owners) s) (_, s) _ (λ _. u)
          (λ _. add_request-IsUsed n r (made_room r now s) differs room))

-- The state that a request registers.
abbrev pub is_nonce : Text → Result Text Text → Bool
is_nonce n (ok m) = m =ₜ n
is_nonce n (err e) = false

abbrev pub nonce_of : PendingAuthRequest → Result Text Text → Result Text Text
nonce_of r random = if is_empty r.nonce then random else ok r.nonce

try-IsUsed :
    (n : Text) (o : Result Text Text) (r : PendingAuthRequest) (time now : ℤ) (s : State)
    → is_nonce n o ≡ false
    → IsUsed n s
    → IsUsed n ((try o s (λ m. register (record r { nonce = m; created_at = time }) now s)).1)
try-IsUsed n (ok m) r time now s differs u = register-IsUsed n _ now s differs u
try-IsUsed n (err e) r time now s differs u = u

pub register_pending-IsUsed :
    (n : Text) (r : PendingAuthRequest) (random : Result Text Text) (created now : ℤ) (s : State)
    → is_nonce n (nonce_of r random) ≡ false
    → IsUsed n s
    → IsUsed n ((register_pending r random created now s).1)
unfolding register_pending
register_pending-IsUsed n r random created now s differs u =
    if_cases {A = Result (Unit {0}) Text × State} (λ a. IsUsed n (a.1))
      (is_empty (trim r.extension_id)) (_, s) _ (λ _. u)
      (λ _. try-IsUsed n (nonce_of r random) r _ now s differs u)

pub drop_nonce-IsUsed :
    (n m : Text) (s : State) → IsSorted s.requests → IsUsed n s → IsUsed n (drop_nonce m s)
unfolding drop_nonce
drop_nonce-IsUsed n m s sr (unowned, unasked) =
    let other : Text → PendingAuthRequest → Bool = λ _ r. not (r.nonce =ₜ m) in
    (
      ground (arith, get-remove m n s.owners),
      λ i q g. unasked i q (ground (arith, get-retain other i s.requests)),
    )

-- What is dropped is used.
pub drop_nonce_self-IsUsed :
    (n : Text) (s : State) → IsSorted s.requests → IsUsed n (drop_nonce n s)
unfolding drop_nonce
drop_nonce_self-IsUsed n s sr =
    let other : Text → PendingAuthRequest → Bool = λ _ r. not (r.nonce =ₜ n) in
    (
      ground (arith, get-remove n n s.owners, =ₜ_iff n n),
      λ i q g. ground (arith, get-retain other i s.requests),
    )
