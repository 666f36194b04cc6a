-- ===== src/Extensions/Segments/Counts.antt =====
-- How often an index stands in the lists of download/segments.rs.
use spoti_flac_mobile.Prelude.{
  ℕ, zero, suc, ◌+◌, ◌≤◌, ◌<◌, ◌≡◌, refl, none, some, List, [], ◌∷◌, ◌++◌, arith, length, ◌==◌,
  if◌then◌else◌, map, leb, ◌&&◌, ltb,
}
use spoti_flac_mobile.Prelude.Result.{Result, ok, err}
use spoti_flac_mobile.Extensions.Segments.Store.{Failed}
use spoti_flac_mobile.Extensions.Segments.Writing.{Completed}
use spoti_flac_mobile.Extensions.Segments.Jobs.{Pending, find, without, Transfer, count_from}

abbrev pub count : ℕ → List ℕ → ℕ
count i [] = 0
count i (j ∷ js) = (if i == j then 1 else 0) + count i js

pub count-append : (i : ℕ) (xs ys : List ℕ) → count i (xs ++ ys) ≡ count i xs + count i ys
count-append i [] ys = omega arith
count-append i (x ∷ xs) ys = omega (arith, count-append i xs ys)

-- The segments that are fetched and not yet received.
abbrev pub fetched : List (ℕ × Result Completed Failed) → List ℕ
fetched [] = []
fetched ((i, ok c) ∷ rs) = i ∷ fetched rs
fetched ((i, err e) ∷ rs) = fetched rs

pub fetched-append :
    (i : ℕ) (xs ys : List (ℕ × Result Completed Failed))
    → count i (fetched (xs ++ ys)) ≡ count i (fetched xs) + count i (fetched ys)
fetched-append i [] ys = omega arith
fetched-append i ((j, ok c) ∷ xs) ys = omega (arith, fetched-append i xs ys)
fetched-append i ((j, err e) ∷ xs) ys = fetched-append i xs ys

-- The failures that are not yet received.
abbrev pub errors : List (ℕ × Result Completed Failed) → ℕ
errors [] = 0
errors ((i, ok c) ∷ rs) = errors rs
errors ((i, err e) ∷ rs) = suc (errors rs)

pub errors-append :
    (xs ys : List (ℕ × Result Completed Failed)) → errors (xs ++ ys) ≡ errors xs + errors ys
errors-append [] ys = omega arith
errors-append ((j, ok c) ∷ xs) ys = errors-append xs ys
errors-append ((j, err e) ∷ xs) ys = omega (arith, errors-append xs ys)

abbrev pub indices : Pending → List ℕ
indices = map (λ e. e.0)

pub count-without :
    (i j : ℕ) (p : Pending)
    → count i (indices (without j p)) ≡ (if i == j then 0 else count i (indices p))
unfolding without
count-without i j [] = ground arith
count-without i j ((k, c) ∷ p) = ground (arith, count-without i j p)

pub find-count : (i : ℕ) (p : Pending) (c : Completed) → find i p ≡ some c → 1 ≤ count i (indices p)
unfolding find
find-count i [] c h = absurd (cc)
find-count i ((j, d) ∷ p) c h = ground (arith, find-count i p c)

pub find-without :
    (i j : ℕ) (p : Pending) → find i (without j p) ≡ (if i == j then none else find i p)
unfolding find without
find-without i j [] = ground arith
find-without i j ((k, c) ∷ p) = ground (arith, find-without i j p)

pub find-none-count : (i : ℕ) (p : Pending) → find i p ≡ none → count i (indices p) ≡ 0
unfolding find
find-none-count i [] h = refl
find-none-count i ((j, d) ∷ p) h = ground (arith, find-none-count i p)

pub length-without_le : (i : ℕ) (p : Pending) → length (without i p) ≤ length p
unfolding without
length-without_le i [] = omega arith
length-without_le i ((j, c) ∷ p) = ground (arith, length-without_le i p)

pub length-without_lt :
    (i : ℕ) (p : Pending) (c : Completed) → find i p ≡ some c → length (without i p) < length p
unfolding without find
length-without_lt i [] c h = absurd (cc)
length-without_lt i ((j, d) ∷ p) c h =
    ground (arith, length-without_lt i p c, length-without_le i p)

pub count-count_from :
    (i start n : ℕ)
    → count i (count_from start n) ≡ (if leb start i && ltb i (start + n) then 1 else 0)
count-count_from i start zero = ground arith
count-count_from i start (suc n) = ground (arith, count-count_from i (start + 1) n)

pub length-count_from : (start n : ℕ) → length (count_from start n) ≡ n
length-count_from start zero = refl
length-count_from start (suc n) = omega (arith, length-count_from (start + 1) n)

-- How often a segment is on its way.
abbrev pub total : ℕ → Transfer → ℕ
total i t =
    count i t.queue + count i t.active + count i (fetched t.results) + count i (indices t.pending)

-- The places that are taken.
abbrev pub places : Transfer → ℕ
places t = length t.queue + length t.active + length t.results + length t.pending
