-- ===== src/Extensions/Auth/Flow/Granted.antt =====
-- rust_backend/crates/extensions/src/auth.rs: what calls that are granted leave.
use spoti_flac_mobile.BTreeMap.{get-insert}
use spoti_flac_mobile.Extensions.Auth.Flow.{then_do, map_err}
use spoti_flac_mobile.Extensions.Auth.Callbacks.{
  register, register_pending, remove_pending, add_request, remove_request, replaces, is_taken,
}
use spoti_flac_mobile.Extensions.Auth.{
  PendingAuthRequest, edit, ℤ, State, Record, is_empty, ok, err, unwrap_or, trim, no_record, eq_ℤ,
  pos,
}
use spoti_flac_mobile.Prelude.Text.{Text, =ₜ_iff}
use spoti_flac_mobile.Prelude.Result.{Result}
use spoti_flac_mobile.Prelude.{
  ◌≡◌, Option, some, false, arith, if_cases, if◌then◌else◌, none, refl, subst, ap,
}
use spoti_flac_mobile.BTreeMap

-- An `ok` of `then_do` went through both.
pub then_do-ok :
    {A B S : Type 0} (m : Result A Text × S) (k : A → S → Result B Text × S) (b : B) (s' : S)
    → then_do m k ≡ (ok b, s')
    → (a : A) × (s : S) × (m ≡ (ok a, s)) × (k a s ≡ (ok b, s'))
then_do-ok (ok a, s) k b s' h = (a, s, refl, h)
then_do-ok (err e, s) k b s' h = absurd (ground arith)

pub map_err-ok :
    {A : Type 0} (text : Text) (r : Result A Text) (a : A) → map_err text r ≡ ok a → r ≡ ok a
map_err-ok text (ok a) b h = h
map_err-ok text (err e) b h = absurd (ground arith)

remove_request-records :
    (id : Text) (now : ℤ) (o : Option PendingAuthRequest) (s : State)
    → (remove_request id now o s).records ≡ s.records
remove_request-records id now none s = refl
remove_request-records id now (some r) s = refl

-- The extension has that request, at whatever time.
abbrev pub HasRequest : PendingAuthRequest → State → Type 0
HasRequest r s =
    (time : ℤ) × (BTreeMap.get r.extension_id s.requests ≡ some (record r { created_at = time }))

add_request-HasRequest :
    (r : PendingAuthRequest) (s : State)
    → BTreeMap.get r.extension_id (add_request r s).requests ≡ some r
add_request-HasRequest r s = ground (
  arith,
  get-insert r.extension_id r.extension_id r s.requests,
  =ₜ_iff r.extension_id r.extension_id,
)

-- The rest of a registration that was granted.
register-ok :
    (r : PendingAuthRequest) (now : ℤ) (s s' : State)
    → register r now s ≡ (ok tt, s')
    → (BTreeMap.get r.extension_id s'.requests ≡ some r) × (s'.records ≡ s.records)
unfolding register remove_pending
register-ok r now s s' =
    if_cases (λ a. a ≡ (ok tt, s') → Registered s') s.closed _ _ (λ _ h. absurd (ground arith))
      (λ _.
        if_cases (λ a. a ≡ (ok tt, s') → Registered s')
          (is_taken r (BTreeMap.get r.nonce s.owners) s) _ _ (λ _ h. absurd (ground arith))
          (λ _ h. subst Registered (ap (λ a. a.1) h) (
            add_request-HasRequest r left,
            if_cases (λ t. t.records ≡ s.records)
                (replaces r (BTreeMap.get r.extension_id s.requests)) _ s
                (λ _. remove_request-records r.extension_id now _ s) (λ _. refl),
          )))
  where
    Registered : State → Type 0
    Registered t = (BTreeMap.get r.extension_id t.requests ≡ some r) × (t.records ≡ s.records)

    left : State
    left =
        if replaces r (BTreeMap.get r.extension_id s.requests)
        then remove_request r.extension_id now (BTreeMap.get r.extension_id s.requests) s
        else s

pub register_pending-ok :
    (r : PendingAuthRequest) (spare : Result Text Text) (created now : ℤ) (s s' : State)
    → is_empty r.nonce ≡ false
    → register_pending r spare created now s ≡ (ok tt, s')
    → HasRequest r s' × (s'.records ≡ s.records)
unfolding register_pending
register_pending-ok r spare created now s s' e = rw e (
    if_cases (λ a. a ≡ (ok tt, s') → HasRequest r s' × (s'.records ≡ s.records))
      (is_empty (trim r.extension_id)) _ _ (λ _ h. absurd (ground arith))
      (λ _ h.
        let time = if eq_ℤ r.created_at (pos 0) then created else r.created_at in
        let (found, same) = register-ok (record r { created_at = time }) now s s' h in
        ((time, found), same)))

pub edit-ok :
    (id : Text) (f : Record → Record) (s s' : State)
    → edit id f s ≡ (ok tt, s')
    → (s'.requests ≡ s.requests)
      × (BTreeMap.get id s'.records ≡ some (f (unwrap_or no_record (BTreeMap.get id s.records))))
unfolding edit
edit-ok id f s s' =
    if_cases (λ a. a ≡ (ok tt, s') → Edited s') s.closed _ _ (λ _ h. absurd (ground arith))
      (λ _ h. subst Edited (ap (λ a. a.1) h) (
        refl,
        ground (
          arith,
          get-insert id id (f (unwrap_or no_record (BTreeMap.get id s.records))) s.records,
          =ₜ_iff id id,
        ),
      ))
  where
    Edited : State → Type 0
    Edited t =
        (t.requests ≡ s.requests)
        × (BTreeMap.get id t.records ≡ some (f (unwrap_or no_record (BTreeMap.get id s.records))))
