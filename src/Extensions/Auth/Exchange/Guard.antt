-- ===== src/Extensions/Auth/Exchange/Guard.antt =====
-- rust_backend/crates/extensions/src/auth/client.rs: the end of an exchange after other calls.
use spoti_flac_mobile.Prelude.Text.{codes}
use spoti_flac_mobile.Extensions.Auth.Exchange.Unchanged.{
  remove_pending-Tracks, resolve_callback-Tracks,
}
use spoti_flac_mobile.Extensions.Auth.Exchange.Unchanged.{
  Tracks, touch, touches, edit-Tracks, clear-Tracks, register_pending-Tracks, remove_pending-Tracks,
}
use spoti_flac_mobile.Extensions.Auth.Exchange.{commit, generation_of}
use spoti_flac_mobile.Prelude.{
  [], ◌∷◌, inl, inr, ℕ, List, ◌<◌, Option, ◌+◌, ◌^◌, refl, subst, arith, ◌≡◌, ◌%◌, if◌then◌else◌,
  not, ◌||◌, ltb, ◌==◌, if_cases, Bool-cases, true,
}
use spoti_flac_mobile.Prelude.Result.{ok, err}
use spoti_flac_mobile.Prelude.Int.{ℤ}
use spoti_flac_mobile.BTreeMap
use spoti_flac_mobile.Extensions.Auth.{default, Text, set_code, State, set_tokens, codes}
use spoti_flac_mobile.Extensions.Auth.Callbacks.{
  pending, clear_pending, is_stale, register_pending, remove_pending, resolve_callback,
}
use spoti_flac_mobile.Extensions.Auth.Calls.{
  Call, edit_call, set_code_call, set_tokens_call, clear_call, register_call, clear_pending_call,
  pending_call, resolve_call, shutdown_call, step, run,
}

Tracks-same : (id : Text) (total : ℕ) (s : State) → Tracks id total s → Tracks id (total + 0) s
Tracks-same id total s t =
    let same : total ≡ total + 0 = omega arith in subst (λ n. Tracks id n s) same t

step-Tracks :
    (id : Text) (c : Call) (total : ℕ) (s : State)
    → Tracks id total s
    → Tracks id (total + touch id c) (step c s)
unfolding step set_code set_tokens clear_pending pending
step-Tracks id (edit_call i f) total s t = edit-Tracks id i f total s t
step-Tracks id (set_code_call i code) total s t = edit-Tracks id i _ total s t
step-Tracks id (set_tokens_call i access refresh expires_in now) total s t =
    edit-Tracks id i _ total s t
step-Tracks id (clear_call i now) total s t = clear-Tracks id i now total s t
step-Tracks id (register_call r random created now) total s t =
    Tracks-same id total ((register_pending r random created now s).1)
      (register_pending-Tracks id r random created now total s t)
step-Tracks id (clear_pending_call i now) total s t =
    Tracks-same id total (remove_pending i now s) (remove_pending-Tracks id i now total s t)
step-Tracks id (pending_call i now later) total s t =
    Tracks-same id total ((pending i now later s).1) (
      if_cases (Tracks id total) (is_stale now (BTreeMap.get i s.requests)) _ s
        (λ _. remove_pending-Tracks id i later total s t) (λ _. t))
step-Tracks id (resolve_call m consume now) total s t =
    Tracks-same id total ((resolve_callback m consume now s).1)
      (resolve_callback-Tracks id m consume now total s t)
step-Tracks id shutdown_call total s t = inl refl

run-Tracks :
    (id : Text) (calls : List Call) (total : ℕ) (s : State)
    → Tracks id total s
    → Tracks id (total + touches id calls) (run calls s)
unfolding run
run-Tracks id [] total s t = Tracks-same id total s t
run-Tracks id (c ∷ calls) total s t =
    let sum : total + touch id c + touches id calls ≡ total + (touch id c + touches id calls) =
      omega arith in
    subst (λ n. Tracks id n (run calls (step c s))) sum
      (run-Tracks id calls (total + touch id c) (step c s) (step-Tracks id c total s t))

default-Tracks : (id : Text) → Tracks id 0 default
unfolding BTreeMap.get
default-Tracks id = inr refl

-- A generation is kept, or the number of changes since then tells it apart.
start-Tracks :
    (id : Text) (total : ℕ) (s : State) → Tracks id total s → Tracks id (generation_of id s) s
start-Tracks id total s (inl closed) = inl closed
start-Tracks id total s (inr g) = inr (omega (arith, g))

is_changed :
    (g now n : ℕ) → g < 2 ^ 64 → n < 2 ^ 64 → now ≡ (g + n) % 2 ^ 64 → not (now == g) ≡ ltb 0 n
is_changed g now n bound few e = ground arith

commit_answer :
    (id : Text) (g n : ℕ) (access refresh : Text) (now : ℤ) (expires : Option ℤ) (s : State)
    → g < 2 ^ 64
    → n < 2 ^ 64
    → Tracks id (g + n) s
    → (commit id g access refresh now expires s).0 ≡ (
        if s.closed || ltb 0 n
        then err (codes "authentication state changed during token exchange")
        else ok tt)
unfolding commit
commit_answer id g n access refresh now expires s bound few (inl closed) = rw closed refl
commit_answer id g n access refresh now expires s bound few (inr e) =
    rw (is_changed g (generation_of id s) n bound few e) (elim (Bool-cases (s.closed || ltb 0 n)) [
      | inl refused ↦ rw refused refl
      | inr granted ↦ rw granted refl
    ])

-- What holds of two totals next to each other is that the registry is closed.
closed_of-Tracks :
    (id : Text) (n : ℕ) (s : State) → Tracks id (0 + n) s → Tracks id (1 + n) s → s.closed ≡ true
closed_of-Tracks id n s (inl closed) t = closed
closed_of-Tracks id n s (inr e) (inl closed) = closed
closed_of-Tracks id n s (inr e) (inr e') = absurd (omega (arith, e, e'))

-- Whatever calls were made before an exchange and come between its start and its end, fewer than
-- 2 ^ 64 of them on this extension: it is refused if one of those between edits or clears the
-- authentication of the extension, or the registry is closed, and else it is granted.
pub commit-run :
    (before between : List Call) (id access refresh : Text) (now : ℤ) (expires : Option ℤ)
    → touches id between < 2 ^ 64
    → (commit id
        (generation_of id (run before default))
        access
        refresh
        now
        expires
        (run between (run before default))).0
      ≡ (if (run between (run before default)).closed || ltb 0 (touches id between)
          then err (codes "authentication state changed during token exchange")
          else ok tt)
unfolding commit
commit-run before between id access refresh now expires few =
    let s = run before default in
    let n = touches id between in
    elim (run-Tracks id before 0 default (default-Tracks id)) [
      | inl closed ↦
          let still =
            closed_of-Tracks id n (run between s) (run-Tracks id between 0 s (inl closed))
              (run-Tracks id between 1 s (inl closed)) in
          rw still refl
      | inr e ↦
          commit_answer id (generation_of id s) n access refresh now expires (run between s)
            (omega (arith, e)) few
            (run-Tracks id between (generation_of id s) s (start-Tracks id _ s (inr e)))
    ]
