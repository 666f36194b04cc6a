-- ===== src/Extensions/Auth/Calls.antt =====
-- rust_backend/crates/extensions/src/auth.rs: the calls of the registry, in any order.
use spoti_flac_mobile.Extensions.Auth.Owners.{IsOwned}
use spoti_flac_mobile.Extensions.Auth.Keeps.{
  Keeps, of_Keeps, remove_pending-Keeps, register_pending-Keeps, resolve_callback-Keeps,
}
use spoti_flac_mobile.Prelude.{[], ◌∷◌, List, if_cases, Bool}
use spoti_flac_mobile.Prelude.Int.{ℤ}
use spoti_flac_mobile.BTreeMap
use spoti_flac_mobile.Extensions.Auth.{
  default, edit, Text, State, set_code, PendingAuthRequest, set_tokens, Record, Result, shutdown,
}
use spoti_flac_mobile.Extensions.Auth.Callbacks.{
  clear, pending, register_pending, clear_pending, resolve_callback, is_stale,
}

-- The calls that change the state, with the readings of the clock; `edit_call` is any edit of
-- auth/client.rs.
pub data Call : Type 0 where
  edit_call : Text → (Record → Record) → Call
  set_code_call : Text → Text → Call
  set_tokens_call : Text → Text → Text → ℤ → ℤ → Call
  clear_call : Text → ℤ → Call
  register_call : PendingAuthRequest → Result Text Text → ℤ → ℤ → Call
  clear_pending_call : Text → ℤ → Call
  pending_call : Text → ℤ → ℤ → Call
  resolve_call : Text → Bool → ℤ → Call
  shutdown_call : Call

unfoldable pub step : Call → State → State
step (edit_call id f) s = (edit id f s).1
step (set_code_call id code) s = (set_code id code s).1
step (set_tokens_call id access refresh expires_in now) s =
    (set_tokens id access refresh expires_in now s).1
step (clear_call id now) s = clear id now s
step (register_call r random created now) s = (register_pending r random created now s).1
step (clear_pending_call id now) s = clear_pending id now s
step (pending_call id now later) s = (pending id now later s).1
step (resolve_call nonce consume now) s = (resolve_callback nonce consume now s).1
step shutdown_call s = shutdown s

unfoldable pub run : List Call → State → State
run [] s = s
run (c ∷ calls) s = run calls (step c s)

pub edit-Keeps : (id : Text) (f : Record → Record) (s : State) → Keeps s → Keeps ((edit id f s).1)
unfolding edit
edit-Keeps id f s k =
    if_cases {A = Result (Unit {0}) Text × State} (λ a. Keeps (a.1)) s.closed (_, s) _ (λ _. k)
      (λ _. k)

-- Nothing is there.
pub of_nothing : Keeps default
unfolding BTreeMap.get
of_nothing = (tt, tt, (λ n id g. absurd (cc)), λ id r g. absurd (cc))

pub step-Keeps : (c : Call) (s : State) → Keeps s → Keeps (step c s)
unfolding step set_code set_tokens clear clear_pending pending
step-Keeps (edit_call id f) s k = edit-Keeps id f s k
step-Keeps (set_code_call id code) s k = edit-Keeps id _ s k
step-Keeps (set_tokens_call id access refresh expires_in now) s k = edit-Keeps id _ s k
step-Keeps (clear_call id now) s k =
    if_cases Keeps s.closed s _ (λ _. k) (λ _. remove_pending-Keeps id now _ k)
step-Keeps (register_call r random created now) s k =
    register_pending-Keeps r random created now s k
step-Keeps (clear_pending_call id now) s k = remove_pending-Keeps id now s k
step-Keeps (pending_call id now later) s k =
    if_cases Keeps (is_stale now (BTreeMap.get id s.requests)) _ s
      (λ _. remove_pending-Keeps id later s k) (λ _. k)
step-Keeps (resolve_call nonce consume now) s k = resolve_callback-Keeps nonce consume now s k
step-Keeps shutdown_call s k = of_nothing

pub run-Keeps : (calls : List Call) (s : State) → Keeps s → Keeps (run calls s)
unfolding run
run-Keeps [] s k = k
run-Keeps (c ∷ calls) s k = run-Keeps calls (step c s) (step-Keeps c s k)

-- Whatever calls are made of a new registry, its owners and requests are maps in order, every owner
-- of a state has a request with that state, and every request is kept under its own extension.
pub run-IsOwned : (calls : List Call) → IsOwned (run calls default)
run-IsOwned calls = of_Keeps (run calls default) (run-Keeps calls default of_nothing)
