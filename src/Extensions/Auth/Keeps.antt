-- ===== src/Extensions/Auth/Keeps.antt =====
-- rust_backend/crates/extensions/src/auth.rs: what each operation keeps of the owners and requests.
use spoti_flac_mobile.Prelude.Text.{Text, ◌=ₜ◌, =ₜ_iff}
use spoti_flac_mobile.Extensions.Auth.{PendingAuthRequest, State, try, is_empty, trim}
use spoti_flac_mobile.Extensions.Auth.Callbacks.{
  remove_pending, remove_request, replaces, own, add_request, find_heir, owns, register,
  register_pending, drop_nonce, resolve_callback, is_taken, resolve_nonce, is_valid, request_of,
}
use mathlib.Core.Option.{some_inj}
use spoti_flac_mobile.Prelude.{
  some, none, Option-cases, ◌≡◌, arith, Option, inl, Bool-cases, inr, false, ◌⊎◌, refl, sym, ap,
  if_cases, if◌then◌else◌, ◌∙◌, Bool, not, ◌||◌,
}
use spoti_flac_mobile.Prelude.Result.{Result, ok, err}
use spoti_flac_mobile.Prelude.Int.{ℤ}
use spoti_flac_mobile.BTreeMap
use spoti_flac_mobile.BTreeMap.{BTreeMap, get-insert, get-remove}
use spoti_flac_mobile.BTreeMap.Order.{
  IsSorted, insert-IsSorted, remove-IsSorted, retain-IsSorted, get-retain,
}
use spoti_flac_mobile.BTreeMap.Oldest.{All-get, pointwise-All}
use spoti_flac_mobile.Extensions.Auth.Owners.{
  IsOwned, Owned, AllOwned, AllOwned-inherit, AllOwned-keep, inherit-IsSorted,
}

abbrev pub AllNamed : BTreeMap PendingAuthRequest → Type 0
AllNamed m = (id : Text) (r : PendingAuthRequest) → BTreeMap.get id m ≡ some r → r.extension_id ≡ id

-- `IsOwned`, by keys.
abbrev pub Keeps : State → Type 0
Keeps s =
    IsSorted s.owners × IsSorted s.requests × AllOwned s.requests s.owners × AllNamed s.requests

pub of_Keeps : (s : State) → Keeps s → IsOwned s
of_Keeps s (so, sr, owned, named) = (
  so,
  sr,
  pointwise-All (Owned s.requests) s.owners so owned,
  pointwise-All (λ id r. r.extension_id ≡ id) s.requests sr named,
)

pub to_Keeps : (s : State) → IsOwned s → Keeps s
to_Keeps s (so, sr, owned, named) = (
  so,
  sr,
  (λ n id g. All-get (Owned s.requests) s.owners n id owned g),
  λ id r g. All-get (λ k q. q.extension_id ≡ k) s.requests id r named g,
)

AllNamed-remove :
    (id : Text) (m : BTreeMap PendingAuthRequest) → AllNamed m → AllNamed (BTreeMap.remove id m)
AllNamed-remove id m named i r g = named i r (ground (arith, get-remove id i m))

remove_request-Keeps :
    (id : Text) (now : ℤ) (o : Option PendingAuthRequest) (s : State)
    → BTreeMap.get id s.requests ≡ o
    → Keeps s
    → Keeps (remove_request id now o s)
remove_request-Keeps id now none s h k = k
remove_request-Keeps id now (some r) s h (so, sr, owned, named) =
    let left = remove-IsSorted id s.requests sr in
    let named' = AllNamed-remove id s.requests named in
    let heir = find_heir r.nonce now (BTreeMap.remove id s.requests) in
    elim (Bool-cases (owns id (BTreeMap.get r.nonce s.owners))) [
      | inl mine ↦ rw mine (
        inherit-IsSorted r.nonce heir (BTreeMap.remove r.nonce s.owners)
            (remove-IsSorted r.nonce s.owners so),
        left,
        AllOwned-inherit id now r s sr h owned,
        named',
      )
      | inr other ↦ rw other (so, left, AllOwned-keep id r s h other owned, named')
    ]

pub remove_pending-Keeps :
    (id : Text) (now : ℤ) (s : State) → Keeps s → Keeps (remove_pending id now s)
unfolding remove_pending
remove_pending-Keeps id now s k = remove_request-Keeps id now (BTreeMap.get id s.requests) s refl k

-- After an extension's request has left, it has none.
pub get-remove_pending :
    (id : Text) (now : ℤ) (s : State) → BTreeMap.get id (remove_pending id now s).requests ≡ none
unfolding remove_pending
get-remove_pending id now s = elim (Option-cases (BTreeMap.get id s.requests)) [
  | inl gone ↦ rw gone gone
  | inr (r, found) ↦ rw found (ground (arith, get-remove id id s.requests, =ₜ_iff id id))
]

-- Without another request of its own, an extension may add one.
abbrev HasRoom : PendingAuthRequest → State → Type 0
HasRoom r s = replaces r (BTreeMap.get r.extension_id s.requests) ≡ false

own-IsSorted :
    (n id : Text) (o : Option Text) (m : BTreeMap Text) → IsSorted m → IsSorted (own n id o m)
own-IsSorted n id none m s = insert-IsSorted n id m s
own-IsSorted n id (some owner) m s = s

get-own :
    (n id k i : Text) (o : Option Text) (m : BTreeMap Text)
    → BTreeMap.get n m ≡ o
    → BTreeMap.get k (own n id o m) ≡ some i
    → (BTreeMap.get k m ≡ some i) ⊎ ((k ≡ n) × (i ≡ id))
get-own n id k i none m h g = elim (Bool-cases (k =ₜ n)) [
  | inl is ↦ inr ((=ₜ_iff k n).0 is, some_inj.0 (ground (arith, get-insert n k id m)))
  | inr other ↦ inl (ground (arith, get-insert n k id m))
]
get-own n id k i (some owner) m h g = inl g

Owned-insert :
    (r : PendingAuthRequest) (s : State) (n i : Text)
    → HasRoom r s
    → Owned s.requests n i
    → Owned (BTreeMap.insert r.extension_id r s.requests) n i
Owned-insert r s n i room (q, found, same) = elim (Bool-cases (i =ₜ r.extension_id)) [
  | inl is ↦
      let i≡ : i ≡ r.extension_id = (=ₜ_iff i r.extension_id).0 is in
      let mine : BTreeMap.get r.extension_id s.requests ≡ some q =
        ap (λ k. BTreeMap.get k s.requests) (sym i≡) ∙ found in
      let kept : not (q.nonce =ₜ r.nonce) ≡ false = rw mine at room in
      let q≡ : q.nonce ≡ r.nonce = ground (arith, =ₜ_iff q.nonce r.nonce) in
      (r, ground (arith, get-insert r.extension_id i r s.requests), sym q≡ ∙ same)
  | inr other ↦ (q, ground (arith, get-insert r.extension_id i r s.requests), same)
]

add_request-Keeps :
    (r : PendingAuthRequest) (s : State) → HasRoom r s → Keeps s → Keeps (add_request r s)
add_request-Keeps r s room (so, sr, owned, named) = (
  own-IsSorted r.nonce r.extension_id (BTreeMap.get r.nonce s.owners) s.owners so,
  insert-IsSorted r.extension_id r s.requests sr,
  (λ n i g.
      elim (get-own r.nonce r.extension_id n i (BTreeMap.get r.nonce s.owners) s.owners refl g) [
        | inl before ↦ Owned-insert r s n i room (owned n i before)
        | inr (n≡, i≡) ↦ (
          r,
          rw i≡ (
              ground (
                arith,
                get-insert r.extension_id r.extension_id r s.requests,
                =ₜ_iff r.extension_id r.extension_id,
              )),
          sym n≡,
        )
      ]),
  λ id q g. elim (Bool-cases (id =ₜ r.extension_id)) [
    | inl is ↦
        let q≡ : r ≡ q = some_inj.0 (ground (arith, get-insert r.extension_id id r s.requests)) in
        ap (λ p. p.extension_id) (sym q≡) ∙ sym ((=ₜ_iff id r.extension_id).0 is)
    | inr other ↦ named id q (ground (arith, get-insert r.extension_id id r s.requests))
  ],
)

-- The state in which `register` adds a request.
abbrev pub made_room : PendingAuthRequest → ℤ → State → State
made_room r now s =
    if replaces r (BTreeMap.get r.extension_id s.requests)
    then remove_pending r.extension_id now s
    else s

made_room-HasRoom : (r : PendingAuthRequest) (now : ℤ) (s : State) → HasRoom r (made_room r now s)
made_room-HasRoom r now s =
    if_cases (HasRoom r) (replaces r (BTreeMap.get r.extension_id s.requests))
      (remove_pending r.extension_id now s) s
      (λ _. rw (get-remove_pending r.extension_id now s) refl) (λ stays. stays)

made_room-Keeps :
    (r : PendingAuthRequest) (now : ℤ) (s : State) → Keeps s → Keeps (made_room r now s)
made_room-Keeps r now s k =
    if_cases Keeps (replaces r (BTreeMap.get r.extension_id s.requests))
      (remove_pending r.extension_id now s) s (λ _. remove_pending-Keeps r.extension_id now s k)
      (λ _. k)

register-Keeps :
    (r : PendingAuthRequest) (now : ℤ) (s : State) → Keeps s → Keeps ((register r now s).1)
unfolding register
register-Keeps r now s k =
    if_cases {A = Result (Unit {0}) Text × State} (λ a. Keeps (a.1)) s.closed (_, s) _ (λ _. k)
      (λ _.
        if_cases {A = Result (Unit {0}) Text × State} (λ a. Keeps (a.1))
          (is_taken r (BTreeMap.get r.nonce s.owners) s) (_, s) _ (λ _. k)
          (λ _.
            add_request-Keeps r (made_room r now s) (made_room-HasRoom r now s)
              (made_room-Keeps r now s k)))

try-Keeps :
    (o : Result Text Text) (s : State) (f : Text → Result (Unit {0}) Text × State)
    → Keeps s
    → ((n : Text) → Keeps ((f n).1))
    → Keeps ((try o s f).1)
try-Keeps (ok n) s f k h = h n
try-Keeps (err e) s f k h = k

pub register_pending-Keeps :
    (r : PendingAuthRequest) (random : Result Text Text) (created now : ℤ) (s : State)
    → Keeps s
    → Keeps ((register_pending r random created now s).1)
unfolding register_pending
register_pending-Keeps r random created now s k =
    if_cases {A = Result (Unit {0}) Text × State} (λ a. Keeps (a.1))
      (is_empty (trim r.extension_id)) (_, s) _ (λ _. k)
      (λ _.
        try-Keeps (if is_empty r.nonce then random else ok r.nonce) s _ k
          (λ n. register-Keeps _ now s k))

pub drop_nonce-Keeps : (nonce : Text) (s : State) → Keeps s → Keeps (drop_nonce nonce s)
unfolding drop_nonce
drop_nonce-Keeps nonce s (so, sr, owned, named) =
    let other : Text → PendingAuthRequest → Bool = λ _ r. not (r.nonce =ₜ nonce) in
    (
      remove-IsSorted nonce s.owners so,
      retain-IsSorted other s.requests sr,
      (λ n i g.
          let differs : (n =ₜ nonce) ≡ false = ground (arith, get-remove nonce n s.owners) in
          let (r, found, same) = owned n i (ground (arith, get-remove nonce n s.owners)) in
          let r_differs : (r.nonce =ₜ nonce) ≡ false = rw same differs in
          (r, get-retain other i s.requests sr ∙ rw (found, r_differs) refl, same)),
      λ i r g. named i r (ground (arith, get-retain other i s.requests)),
    )

pub resolve_callback-Keeps :
    (nonce : Text) (consume : Bool) (now : ℤ) (s : State)
    → Keeps s
    → Keeps ((resolve_callback nonce consume now s).1)
unfolding resolve_callback resolve_nonce
resolve_callback-Keeps nonce consume now s k =
    if_cases {A = Result Text Text × State} (λ a. Keeps (a.1)) (is_empty (trim nonce)) (_, s) _
      (λ _. k)
      (λ _.
        if_cases Keeps
          (not (is_valid (trim nonce) now (request_of (BTreeMap.get (trim nonce) s.owners) s))
            || consume)
          (drop_nonce (trim nonce) s) s (λ _. drop_nonce-Keeps (trim nonce) s k) (λ _. k))
