-- ===== src/Tests/Auth.antt =====
-- A test and witnesses for the callbacks of the extensions.
use spoti_flac_mobile.Extensions.Auth.Exchange.Guard.{commit-run}
use spoti_flac_mobile.Extensions.Auth.Exchange.{commit, generation_of}
use spoti_flac_mobile.Extensions.Auth.Exchange.Unchanged.{touches}
use spoti_flac_mobile.Extensions.Auth.Answers.{IsAnswered, resolve_callback_iff}
use spoti_flac_mobile.Extensions.Auth.Once.{avoids, resolve_callback_once}
use spoti_flac_mobile.Prelude.Text.{codes, text_cmp, is_empty}
use spoti_flac_mobile.Prelude.{
  [], ◌∷◌, true, false, List, ◌≡◌, ◌↔◌, refl, ◌<◌, none, ◌^◌, if◌then◌else◌, arith, ◌||◌, ltb,
}
use spoti_flac_mobile.Prelude.Result.{ok, err}
use spoti_flac_mobile.Prelude.Int.{pos, ◌-ℤ◌}
use spoti_flac_mobile.Prelude.Trim.{trim, trim_start, trim_end}
use spoti_flac_mobile.BTreeMap
use spoti_flac_mobile.Extensions.Auth.{default, PendingAuthRequest, set_code, edit, next_generation}
use spoti_flac_mobile.Extensions.Auth.Callbacks.{
  resolve_callback, resolve_nonce, register_pending, register, remove_pending, find_heir,
  drop_nonce, pending,
}
use spoti_flac_mobile.Extensions.Auth.Calls.{
  Call, register_call, pending_call, run, step, set_code_call,
}

abbrev request : PendingAuthRequest
request = record {
  extension_id = codes "ext";
  auth_url = codes "u";
  callback_url = [];
  nonce = [];
  created_at = pos 0;
}

-- The state is random.
abbrev calls : List Call
calls = register_call request (ok (codes "n")) (pos 5) (pos 6) ∷ []

abbrev later_calls : List Call
later_calls =
    register_call request (ok (codes "m")) (pos 9) (pos 9)
    ∷ pending_call (codes "ext") (pos 9) (pos 9)
    ∷ []

-- The callback is answered within its time, with white space around the state too.
resolve_test :
    ((resolve_callback (codes " n ") true (pos 180000000004) (run calls default)).0
      ≡ ok (codes "ext"))
    × ((resolve_callback (codes "n") true (pos 180000000005) (run calls default)).0
        ≡ err (codes "callback state is invalid, expired, or already used"))
unfolding resolve_callback resolve_nonce run step register_pending register remove_pending find_heir
    drop_nonce pending trim_start trim_end BTreeMap.get BTreeMap.insert text_cmp ◌-ℤ◌
resolve_test = (refl, refl)

n-IsGiven : is_empty (trim (codes "n")) ≡ false
unfolding trim_start trim_end
n-IsGiven = refl

later_calls_avoid : avoids (trim (codes "n")) later_calls ≡ true
unfolding trim_start trim_end text_cmp
later_calls_avoid = refl

resolve_callback_once_example :
    (resolve_callback
      (codes "n")
      false
      (pos 10)
      (run later_calls ((resolve_callback (codes "n") true (pos 8) (run calls default)).1))).0
    ≡ err (codes "callback state is invalid, expired, or already used")
resolve_callback_once_example =
    resolve_callback_once calls later_calls (codes "n") (pos 8) (pos 10) false n-IsGiven
      later_calls_avoid

resolve_callback_iff_example :
    ((resolve_callback (codes "n") true (pos 8) (run calls default)).0 ≡ ok (codes "ext"))
    ↔ IsAnswered (trim (codes "n")) (codes "ext") (pos 8) (run calls default)
resolve_callback_iff_example =
    resolve_callback_iff calls (codes "n") (codes "ext") true (pos 8) n-IsGiven

one_touch : touches (codes "ext") (set_code_call (codes "ext") (codes "c") ∷ []) < 2 ^ 64
unfolding text_cmp
one_touch = omega arith

-- A code that is set between the start and the end of an exchange stops it.
commit-run_example :
    (commit
      (codes "ext")
      (generation_of (codes "ext") (run calls default))
      (codes "a")
      []
      (pos 9)
      none
      (run (set_code_call (codes "ext") (codes "c") ∷ []) (run calls default))).0
    ≡ (if (run (set_code_call (codes "ext") (codes "c") ∷ []) (run calls default)).closed
          || ltb 0 (touches (codes "ext") (set_code_call (codes "ext") (codes "c") ∷ []))
        then err (codes "authentication state changed during token exchange")
        else ok tt)
commit-run_example =
    commit-run calls (set_code_call (codes "ext") (codes "c") ∷ []) (codes "ext") (codes "a") []
      (pos 9) none one_touch

refused_test :
    (commit
      (codes "ext")
      (generation_of (codes "ext") (run calls default))
      (codes "a")
      []
      (pos 9)
      none
      (run (set_code_call (codes "ext") (codes "c") ∷ []) (run calls default))).0
    ≡ err (codes "authentication state changed during token exchange")
unfolding commit run step register_pending register set_code edit next_generation trim_start
    trim_end BTreeMap.get BTreeMap.insert text_cmp
refused_test = refl
