-- ===== src/Prelude/Utf8.antt =====
-- The bytes of a `String`, as `char::encode_utf8` writes its code points.
use spoti_flac_mobile.Prelude.{ℕ, [], ◌∷◌, ◌++◌, ◌+◌, ◌/◌, ◌%◌, if◌then◌else◌, ltb}
use spoti_flac_mobile.Prelude.Text.{Text}

abbrev pub utf8_char : ℕ → Text
utf8_char c =
    if ltb c 128
    then c ∷ []
    else if ltb c 2048
    then (192 + c / 64 % 32) ∷ (128 + c % 64) ∷ []
    else if ltb c 65536
    then (224 + c / 4096 % 16) ∷ (128 + c / 64 % 64) ∷ (128 + c % 64) ∷ []
    else (240 + c / 262144 % 8) ∷ (128 + c / 4096 % 64) ∷ (128 + c / 64 % 64) ∷ (128 + c % 64) ∷ []

unfoldable pub utf8 : Text → Text
utf8 [] = []
utf8 (c ∷ s) = utf8_char c ++ utf8 s
