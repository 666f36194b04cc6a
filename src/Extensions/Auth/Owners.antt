-- ===== src/Extensions/Auth/Owners.antt =====
-- rust_backend/crates/extensions/src/auth.rs: the states of the callbacks, their owners and requests.
use mathlib.Core.Option.{some_inj}
use spoti_flac_mobile.BTreeMap.Order.{get_head}
use spoti_flac_mobile.Prelude.Text.{Text, ◌=ₜ◌, =ₜ_iff}
use spoti_flac_mobile.Extensions.Auth.{PendingAuthRequest, State}
use spoti_flac_mobile.Extensions.Auth.Callbacks.{find_heir, is_fresh, inherit, owns}
use spoti_flac_mobile.Prelude.{
  [], ◌∷◌, some, none, ◌≡◌, arith, ◌≢◌, Bool-cases, inl, inr, ◌&&◌, Bool, subst, sym, Option, true,
  ◌∙◌, false, if◌then◌else◌, ap, refl,
}
use spoti_flac_mobile.Prelude.Int.{ℤ}
use spoti_flac_mobile.BTreeMap
use spoti_flac_mobile.BTreeMap.{BTreeMap, get-insert, get-remove}
use spoti_flac_mobile.BTreeMap.Order.{IsSorted, insert-IsSorted, remove-IsSorted, get-After}
use spoti_flac_mobile.BTreeMap.Oldest.{All}

-- The extension that owns a state has a request with that state.
abbrev pub Owned : BTreeMap PendingAuthRequest → Text → Text → Type 0
Owned requests n id = (r : PendingAuthRequest) × (BTreeMap.get id requests ≡ some r) × (r.nonce ≡ n)

abbrev pub IsOwned : State → Type 0
IsOwned s =
    IsSorted s.owners
    × IsSorted s.requests
    × All (Owned s.requests) s.owners
    × All (λ id r. r.extension_id ≡ id) s.requests

pub and_true : (a b : Bool) → (a && b) ≡ true → (a ≡ true) × (b ≡ true)
and_true true b h = (refl, h)
and_true false b h = absurd (ground arith)

find_heir-Owned :
    (n : Text) (now : ℤ) (m : BTreeMap PendingAuthRequest) (id : Text)
    → IsSorted m
    → find_heir n now m ≡ some id
    → Owned m n id
unfolding find_heir BTreeMap.get
find_heir-Owned n now [] id s h = absurd (ground arith)
find_heir-Owned n now ((j, r) ∷ m) id s h = elim (Bool-cases ((r.nonce =ₜ n) && is_fresh now r)) [
  | inl fits ↦
      let same : r.nonce ≡ n = (=ₜ_iff r.nonce n).0 ((and_true _ _ fits).0) in
      let j≡id : j ≡ id = some_inj.0 (rw fits at h) in
      (r, subst (λ k. BTreeMap.get k ((j, r) ∷ m) ≡ some r) j≡id (get_head j r m), same)
  | inr other ↦
      let (q, found, same) = find_heir-Owned n now m id s.1 (rw other at h) in
      (q, ground (arith, =ₜ_iff id j, get-After j m), same)
]

-- Two requests of one extension have one state.
nonce_eq :
    (m : BTreeMap PendingAuthRequest) (id i n : Text) (r0 : PendingAuthRequest)
    → BTreeMap.get id m ≡ some r0
    → Owned m n i
    → i ≡ id
    → n ≡ r0.nonce
nonce_eq m id i n r0 h (r, found, same) e =
    let both : some r ≡ some r0 = sym found ∙ ap (λ k. BTreeMap.get k m) e ∙ h in
    sym same ∙ ap (λ q. q.nonce) (some_inj.0 both)

Owned-remove :
    (m : BTreeMap PendingAuthRequest) (id n i : Text)
    → Owned m n i
    → i ≢ id
    → Owned (BTreeMap.remove id m) n i
Owned-remove m id n i (r, found, same) ne =
    (r, ground (arith, get-remove id i m, =ₜ_iff i id), same)

abbrev pub AllOwned : BTreeMap PendingAuthRequest → BTreeMap Text → Type 0
AllOwned requests owners = (n id : Text) → BTreeMap.get n owners ≡ some id → Owned requests n id

pub inherit-IsSorted :
    (n : Text) (heir : Option Text) (m : BTreeMap Text) → IsSorted m → IsSorted (inherit n heir m)
inherit-IsSorted n none m s = s
inherit-IsSorted n (some id) m s = insert-IsSorted n id m s

get-inherit :
    (n k : Text) (heir : Option Text) (m : BTreeMap Text)
    → BTreeMap.get k (inherit n heir (BTreeMap.remove n m))
      ≡ (if k =ₜ n then heir else BTreeMap.get k m)
get-inherit n k none m = get-remove n k m
get-inherit n k (some id) m =
    ground (arith, get-insert n k id (BTreeMap.remove n m), get-remove n k m)

-- The owners after the request of an owner has left.
pub AllOwned-inherit :
    (id : Text) (now : ℤ) (r0 : PendingAuthRequest) (s : State)
    → IsSorted s.requests
    → BTreeMap.get id s.requests ≡ some r0
    → AllOwned s.requests s.owners
    → AllOwned (BTreeMap.remove id s.requests) (
        inherit r0.nonce
          (find_heir r0.nonce now (BTreeMap.remove id s.requests))
          (BTreeMap.remove r0.nonce s.owners))
AllOwned-inherit id now r0 s sorted h all n i g =
    let m = BTreeMap.remove id s.requests in
    let e = get-inherit r0.nonce n (find_heir r0.nonce now m) s.owners in
    elim (Bool-cases (n =ₜ r0.nonce)) [
      | inl is ↦
          let n≡ : n ≡ r0.nonce = (=ₜ_iff n r0.nonce).0 is in
          let heir : find_heir r0.nonce now m ≡ some i = sym (rw is at e) ∙ g in
          subst (λ k. Owned m k i) (sym n≡)
            (find_heir-Owned r0.nonce now m i (remove-IsSorted id s.requests sorted) heir)
      | inr other ↦
          let owned = all n i (sym (rw other at e) ∙ g) in
          Owned-remove s.requests id n i owned (λ i≡id.
            absurd (ground (arith, =ₜ_iff n r0.nonce, nonce_eq s.requests id i n r0 h owned i≡id)))
    ]

-- The owners after the request of an extension has left that does not own its state.
pub AllOwned-keep :
    (id : Text) (r0 : PendingAuthRequest) (s : State)
    → BTreeMap.get id s.requests ≡ some r0
    → owns id (BTreeMap.get r0.nonce s.owners) ≡ false
    → AllOwned s.requests s.owners
    → AllOwned (BTreeMap.remove id s.requests) s.owners
AllOwned-keep id r0 s h not_owner all n i g = Owned-remove s.requests id n i (all n i g) (λ i≡id.
    let n≡ : n ≡ r0.nonce = nonce_eq s.requests id i n r0 h (all n i g) i≡id in
    let mine : BTreeMap.get r0.nonce s.owners ≡ some id =
      ap (λ k. BTreeMap.get k s.owners) (sym n≡) ∙ g ∙ ap some i≡id in
    absurd (ground (arith, =ₜ_iff id id)))
