-- ===== src/AppVersion.antt =====
-- rust_backend/crates/core/src/app_version.rs: the version that all owners share. `str::trim` of the
-- standard library is a parameter.
use spoti_flac_mobile.Prelude.{
  Bool, true, false, List, [], ◌∷◌, ◌++◌, ◌≡◌, refl, if◌then◌else◌, arith, ap, ◌∙◌,
}
use spoti_flac_mobile.Prelude.Text.{Text, codes, is_empty}
use spoti_flac_mobile.Prelude.Result.{Result, ok, err}

pub data AppVersionClosed : Type 0 where
  app_version_closed : AppVersionClosed

pub record State : Type 0 where
  pub version : Text
  pub closed : Bool

unfoldable pub get : State → Text
get s = s.version

unfoldable pub user_agent : State → Text
user_agent s =
    if is_empty (get s) then codes "SpotiFLAC-Mobile" else codes "SpotiFLAC-Mobile/" ++ get s

unfoldable pub close : State → State
close s = record s { closed = true }

module _ (trim : Text → Text) where
  unfoldable pub set_version : Text → State → Result (Unit {0}) AppVersionClosed × State
  set_version version s =
      if s.closed then (err app_version_closed, s) else (ok tt, record s { version = trim version })

  unfoldable pub from : Text → State
  from version = record { version = trim version; closed = false }

  -- The calls that a handle can make.
  pub data Call : Type 0 where
    set_call : Text → Call
    close_call : Call

  unfoldable pub run : List Call → State → State
  run [] s = s
  run (set_call version ∷ calls) s = run calls ((set_version version s).1)
  run (close_call ∷ calls) s = run calls (close s)

  -- The texts of the calls before the first `close`, and the last of them, if any.
  unfoldable pub last_set : Text → List Call → Text
  last_set version [] = version
  last_set version (set_call v ∷ calls) = last_set (trim v) calls
  last_set version (close_call ∷ calls) = version

  run-closed : (calls : List Call) (s : State) → s.closed ≡ true → run calls s ≡ s
  unfolding run set_version close
  run-closed [] s h = refl
  run-closed (set_call v ∷ calls) s h =
      let e : (set_version v s).1 ≡ s = ground arith in ap (run calls) e ∙ run-closed calls s h
  run-closed (close_call ∷ calls) s h =
      let e : close s ≡ s = ground arith in ap (run calls) e ∙ run-closed calls s h

  version-run :
      (v : Text) (calls : List Call)
      → (run calls (record { version = v; closed = false })).version ≡ last_set v calls
  unfolding run last_set set_version close
  version-run v [] = refl
  version-run v (set_call w ∷ calls) = version-run (trim w) calls
  version-run v (close_call ∷ calls) =
      ap (λ s. s.version) (run-closed calls (record { version = v; closed = true }) refl)

  -- Whatever calls any handles make, the version that is read is the last one set before the first
  -- close, without its white space: a close fixes it for good.
  pub get-run :
      (version : Text) (calls : List Call)
      → get (run calls (from version)) ≡ last_set (trim version) calls
  unfolding get from
  get-run version calls = version-run (trim version) calls
