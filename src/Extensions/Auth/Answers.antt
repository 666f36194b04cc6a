-- ===== src/Extensions/Auth/Answers.antt =====
-- rust_backend/crates/extensions/src/auth.rs: which callbacks are answered.
use spoti_flac_mobile.Prelude.Text.{◌=ₜ◌, =ₜ_iff}
use spoti_flac_mobile.Prelude.{
  some, none, Bool, Option, List, ◌≡◌, true, ap, arith, sym, false, ◌∙◌, ◌↔◌, refl,
}
use spoti_flac_mobile.Prelude.Result.{ok}
use spoti_flac_mobile.Prelude.Int.{ℤ}
use spoti_flac_mobile.BTreeMap
use spoti_flac_mobile.Extensions.Auth.Keeps.{Keeps}
use spoti_flac_mobile.Extensions.Auth.{
  default, Text, State, PendingAuthRequest, is_empty, ◌=ₜ◌, trim,
}
use spoti_flac_mobile.Extensions.Auth.Callbacks.{
  resolve_nonce, is_valid, request_of, answer, resolve_callback, is_fresh,
}
use spoti_flac_mobile.Extensions.Auth.Owners.{and_true}
use spoti_flac_mobile.Extensions.Auth.Calls.{Call, run, of_nothing, run-Keeps}

-- The owner of a state has a request of its own with that state, less than 180 seconds old.
abbrev pub IsAnswered : Text → Text → ℤ → State → Type 0
IsAnswered n owner now s =
    (r : PendingAuthRequest) × (BTreeMap.get n s.owners ≡ some owner)
    × (BTreeMap.get owner s.requests ≡ some r)
    × (r.nonce ≡ n)
    × (r.extension_id ≡ owner)
    × (is_fresh now r ≡ true)

answer-ok :
    (valid : Bool) (o : Option Text) (owner : Text)
    → answer valid o ≡ ok owner
    → (valid ≡ true) × (o ≡ some owner)
answer-ok true (some i) owner h = (refl, ground arith)
answer-ok true none owner h = absurd (ground arith)
answer-ok false o owner h = absurd (ground arith)

is_valid-true :
    (n : Text) (now : ℤ) (o : Option PendingAuthRequest)
    → is_valid n now o ≡ true
    → (r : PendingAuthRequest) × (o ≡ some r) × (r.nonce ≡ n) × (is_fresh now r ≡ true)
is_valid-true n now none h = absurd (ground arith)
is_valid-true n now (some r) h =
    let (same, fresh) = and_true _ _ h in (r, refl, (=ₜ_iff r.nonce n).0 same, fresh)

answer-IsAnswered :
    (n owner : Text) (now : ℤ) (s : State)
    → Keeps s
    → answer (is_valid n now (request_of (BTreeMap.get n s.owners) s)) (BTreeMap.get n s.owners)
      ≡ ok owner
    → IsAnswered n owner now s
answer-IsAnswered n owner now s k h =
    let (valid, owns) = answer-ok _ _ owner h in
    let (r, found, same, fresh) =
      is_valid-true n now (request_of (BTreeMap.get n s.owners) s) valid in
    let mine : BTreeMap.get owner s.requests ≡ some r =
      ap (λ o. request_of o s) (sym owns) ∙ found in
    (r, owns, mine, same, k.3 owner r mine, fresh)

IsAnswered-answer :
    (n owner : Text) (now : ℤ) (s : State)
    → IsAnswered n owner now s
    → answer (is_valid n now (request_of (BTreeMap.get n s.owners) s)) (BTreeMap.get n s.owners)
      ≡ ok owner
IsAnswered-answer n owner now s (r, owns, mine, same, _, fresh) =
    let is : (r.nonce =ₜ n) ≡ true = (=ₜ_iff r.nonce n).1 same in rw (owns, mine, is, fresh) refl

-- Whatever calls were made of a new registry, a callback with a state is answered with an extension,
-- whether it is used or only looked at, exactly if that extension owns the state and has a request of
-- its own with it, less than 180 seconds old.
pub resolve_callback_iff :
    (calls : List Call) (nonce owner : Text) (consume : Bool) (now : ℤ)
    → is_empty (trim nonce) ≡ false
    → ((resolve_callback nonce consume now (run calls default)).0 ≡ ok owner)
      ↔ IsAnswered (trim nonce) owner now (run calls default)
unfolding resolve_callback resolve_nonce
resolve_callback_iff calls nonce owner consume now e =
    let s = run calls default in
    let k = run-Keeps calls default of_nothing in
    rw e (answer-IsAnswered (trim nonce) owner now s k, IsAnswered-answer (trim nonce) owner now s)
