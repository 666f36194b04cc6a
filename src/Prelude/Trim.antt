-- ===== src/Prelude/Trim.antt =====
-- `str::trim` over Unicode's White_Space.
use spoti_flac_mobile.Prelude.{Bool, [], ◌∷◌, ◌&&◌, ◌||◌, if◌then◌else◌, leb, ◌==◌, ℕ}
use spoti_flac_mobile.Prelude.Text.{Text, is_empty}

abbrev pub is_whitespace : ℕ → Bool
is_whitespace c =
    leb 9 c && leb c 13
    || c == 32
    || c == 133
    || c == 160
    || c == 5760
    || leb 8192 c && leb c 8202
    || c == 8232
    || c == 8233
    || c == 8239
    || c == 8287
    || c == 12288

unfoldable pub trim_start : Text → Text
trim_start [] = []
trim_start (c ∷ s) = let rest = trim_start s in if is_whitespace c then rest else c ∷ s

unfoldable pub trim_end : Text → Text
trim_end [] = []
trim_end (c ∷ s) =
    let rest = trim_end s in if is_empty rest && is_whitespace c then [] else c ∷ rest

abbrev pub trim : Text → Text
trim s = trim_end (trim_start s)
