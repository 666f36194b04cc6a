-- ===== src/Extensions/Auth/Once.antt =====
-- rust_backend/crates/extensions/src/auth.rs: a callback is answered once.
use spoti_flac_mobile.Extensions.Auth.Callbacks.{drop_nonce, resolve_nonce}
use spoti_flac_mobile.Prelude.{
  [], ◌∷◌, List, Bool, false, true, if_cases, ◌≡◌, refl, not, arith, ◌&&◌, ◌||◌,
}
use spoti_flac_mobile.Prelude.Result.{Result, err}
use spoti_flac_mobile.Prelude.Int.{ℤ}
use spoti_flac_mobile.BTreeMap
use spoti_flac_mobile.Extensions.Auth.Keeps.{Keeps, resolve_callback-Keeps}
use spoti_flac_mobile.Extensions.Auth.{
  default, edit, Text, set_code, Record, shutdown, set_tokens, State, is_empty, trim, codes,
}
use spoti_flac_mobile.Extensions.Auth.Callbacks.{
  clear, pending, resolve_callback, resolve_nonce, clear_pending, is_valid, request_of, is_stale,
  drop_nonce,
}
use spoti_flac_mobile.Extensions.Auth.Used.{
  IsUsed, nonce_of, is_nonce, remove_pending-IsUsed, register_pending-IsUsed, drop_nonce-IsUsed,
  drop_nonce_self-IsUsed,
}
use spoti_flac_mobile.Extensions.Auth.Calls.{
  Call, edit_call, set_code_call, set_tokens_call, clear_call, register_call, clear_pending_call,
  pending_call, resolve_call, shutdown_call, step, run, of_nothing, run-Keeps, step-Keeps,
}

-- Whether a call registers a state.
abbrev pub registers : Text → Call → Bool
registers n (register_call r random created now) = is_nonce n (nonce_of r random)
registers n (edit_call id f) = false
registers n (set_code_call id code) = false
registers n (set_tokens_call id access refresh expires_in now) = false
registers n (clear_call id now) = false
registers n (clear_pending_call id now) = false
registers n (pending_call id now later) = false
registers n (resolve_call m consume now) = false
registers n shutdown_call = false

abbrev pub avoids : Text → List Call → Bool
avoids n [] = true
avoids n (c ∷ calls) = not (registers n c) && avoids n calls

edit-IsUsed :
    (n id : Text) (f : Record → Record) (s : State) → IsUsed n s → IsUsed n ((edit id f s).1)
unfolding edit
edit-IsUsed n id f s u =
    if_cases {A = Result (Unit {0}) Text × State} (λ a. IsUsed n (a.1)) s.closed (_, s) _ (λ _. u)
      (λ _. u)

resolve_callback-IsUsed :
    (n m : Text) (consume : Bool) (now : ℤ) (s : State)
    → Keeps s
    → IsUsed n s
    → IsUsed n ((resolve_callback m consume now s).1)
unfolding resolve_callback resolve_nonce
resolve_callback-IsUsed n m consume now s k u =
    if_cases {A = Result Text Text × State} (λ a. IsUsed n (a.1)) (is_empty (trim m)) (_, s) _
      (λ _. u)
      (λ _.
        if_cases (IsUsed n)
          (not (is_valid (trim m) now (request_of (BTreeMap.get (trim m) s.owners) s)) || consume)
          (drop_nonce (trim m) s) s (λ _. drop_nonce-IsUsed n (trim m) s k.1 u) (λ _. u))

shutdown-IsUsed : (n : Text) → IsUsed n (shutdown default)
unfolding BTreeMap.get
shutdown-IsUsed n = (refl, λ id r g. absurd (cc))

step-IsUsed :
    (n : Text) (c : Call) (s : State)
    → Keeps s
    → registers n c ≡ false
    → IsUsed n s
    → IsUsed n (step c s)
unfolding step set_code set_tokens clear clear_pending pending
step-IsUsed n (edit_call id f) s k a u = edit-IsUsed n id f s u
step-IsUsed n (set_code_call id code) s k a u = edit-IsUsed n id _ s u
step-IsUsed n (set_tokens_call id access refresh expires_in now) s k a u = edit-IsUsed n id _ s u
step-IsUsed n (clear_call id now) s k a u =
    if_cases (IsUsed n) s.closed s _ (λ _. u) (λ _. remove_pending-IsUsed n id now _ u)
step-IsUsed n (register_call r random created now) s k a u =
    register_pending-IsUsed n r random created now s a u
step-IsUsed n (clear_pending_call id now) s k a u = remove_pending-IsUsed n id now s u
step-IsUsed n (pending_call id now later) s k a u =
    if_cases (IsUsed n) (is_stale now (BTreeMap.get id s.requests)) _ s
      (λ _. remove_pending-IsUsed n id later s u) (λ _. u)
step-IsUsed n (resolve_call m consume now) s k a u = resolve_callback-IsUsed n m consume now s k u
step-IsUsed n shutdown_call s k a u = shutdown-IsUsed n

run-IsUsed :
    (n : Text) (calls : List Call) (s : State)
    → Keeps s
    → avoids n calls ≡ true
    → IsUsed n s
    → IsUsed n (run calls s)
unfolding run
run-IsUsed n [] s k a u = u
run-IsUsed n (c ∷ calls) s k a u =
    run-IsUsed n calls (step c s) (step-Keeps c s k) (ground arith)
      (step-IsUsed n c s k (ground arith) u)

IsUsed-resolve_callback :
    (nonce : Text) (consume : Bool) (now : ℤ) (s : State)
    → is_empty (trim nonce) ≡ false
    → IsUsed (trim nonce) s
    → (resolve_callback nonce consume now s).0
      ≡ err (codes "callback state is invalid, expired, or already used")
unfolding resolve_callback resolve_nonce
IsUsed-resolve_callback nonce consume now s e (unowned, _) = rw (e, unowned) refl

resolve_consumes :
    (nonce : Text) (now : ℤ) (s : State)
    → Keeps s
    → is_empty (trim nonce) ≡ false
    → IsUsed (trim nonce) ((resolve_callback nonce true now s).1)
unfolding resolve_callback resolve_nonce
resolve_consumes nonce now s k e = rw e (
    if_cases (IsUsed (trim nonce))
      (not (is_valid (trim nonce) now (request_of (BTreeMap.get (trim nonce) s.owners) s)) || true)
      (drop_nonce (trim nonce) s) s (λ _. drop_nonce_self-IsUsed (trim nonce) s k.1)
      (λ no. absurd (ground arith)))

-- Whatever calls were made of a new registry, once a callback was resolved to be used, whatever the
-- answer was, it is refused for ever: at any later time, whatever calls come between, as long as no
-- request registers the same state again.
pub resolve_callback_once :
    (before after : List Call) (nonce : Text) (now later : ℤ) (again : Bool)
    → is_empty (trim nonce) ≡ false
    → avoids (trim nonce) after ≡ true
    → (resolve_callback nonce again later
        (run after ((resolve_callback nonce true now (run before default)).1))).0
      ≡ err (codes "callback state is invalid, expired, or already used")
resolve_callback_once before after nonce now later again e a =
    let s = run before default in
    let k = run-Keeps before default of_nothing in
    let used = (resolve_callback nonce true now s).1 in
    IsUsed-resolve_callback nonce again later (run after used) e (
      run-IsUsed (trim nonce) after used (resolve_callback-Keeps nonce true now s k) a
        (resolve_consumes nonce now s k e))
