-- ===== src/HashMap.antt =====
-- Rust's `HashMap` where only `insert` and `get` are used: an association list, the last insertion
-- of a key in front. The standard library's map is not code of the repository.
use spoti_flac_mobile.Prelude.{Bool, Option, none, some, List, [], ◌∷◌, if◌then◌else◌}

abbrev pub HashMap : Type 0 → Type 0 → Type 0
HashMap K V = List (K × V)

abbrev pub insert : {K V : Type 0} → K → V → HashMap K V → HashMap K V
insert k v m = (k, v) ∷ m

unfoldable pub get : {K V : Type 0} → (K → K → Bool) → K → HashMap K V → Option V
get eq k [] = none
get eq k ((j, v) ∷ m) = if eq k j then some v else get eq k m
