-- ===== src/Tests/AppVersion.antt =====
-- A test for the application version, with a `trim` that drops leading spaces.
use spoti_flac_mobile.Prelude.{◌≡◌, refl, List, [], ◌∷◌, ◌==◌, if◌then◌else◌}
use spoti_flac_mobile.Prelude.Text.{Text, codes}
use spoti_flac_mobile.AppVersion.{
  Call, get, run, from, user_agent, set_version, close, set_call, close_call,
}

abbrev trim : Text → Text
trim [] = []
trim (c ∷ s) = let rest = trim s in if c == 32 then rest else c ∷ s

abbrev calls : List (Call trim)
calls = set_call (codes " 2.0") ∷ close_call ∷ set_call (codes "3.0") ∷ []

user_agent_test :
    user_agent (run trim calls (from trim (codes " 1.0"))) ≡ codes "SpotiFLAC-Mobile/2.0"
unfolding user_agent get run from set_version close
user_agent_test = refl
