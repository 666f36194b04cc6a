-- ===== src/Progress/Order.antt =====
-- rust_backend/crates/core/src/progress/mod.rs: the revisions stay ordered and the removals few,
-- and the pruning of `remove` never indexes out of bounds.
use spoti_flac_mobile.Prelude.Text.{Text}
use spoti_flac_mobile.BTreeMap.Order.{any, IsSorted, length-retain-le, get_of-any}
use spoti_flac_mobile.Prelude.{
  ℕ, zero, suc, ◌/◌, ◌<◌, ◌^◌, ◌≡◌, refl, ap, Bool, true, false, ◌||◌, some, List, [], ◌∷◌, length,
  get_elem?, arith, ◌-◌,
}
use spoti_flac_mobile.Prelude.Int.{
  ℤ, pos, negsuc, ◌≤ℤ◌, ◌<ℤ◌, ltb_ℤ, eq_ℤ, eq_ℤ_iff, wrap_i64, ◌+ℤ◌,
}
use spoti_flac_mobile.BTreeMap
use spoti_flac_mobile.BTreeMap.{BTreeMap, retain}
use spoti_flac_mobile.Progress.Registry.{State, insert_sorted, sort}

-- One more in the range of `i64` is one more.
pub wrap_step :
    (z : ℤ)
    → pos 0 ≤ℤ z
    → z <ℤ pos (2 ^ 63 - 1)
    → (z <ℤ wrap_i64 (z +ℤ pos 1))
      × (pos 0 ≤ℤ wrap_i64 (z +ℤ pos 1))
      × (wrap_i64 (z +ℤ pos 1) <ℤ pos (2 ^ 63))
unfolding wrap_i64 ◌+ℤ◌
wrap_step (pos n) h k = (ground arith, ground arith, ground arith)
wrap_step (negsuc n) h k = absurd (omega arith)

abbrev has : ℤ → List ℤ → Bool
has c [] = false
has c (a ∷ rest) = eq_ℤ c a || has c rest

length-insert_sorted : (a : ℤ) (bs : List ℤ) → length (insert_sorted a bs) ≡ suc (length bs)
unfolding insert_sorted
length-insert_sorted a [] = refl
length-insert_sorted a (b ∷ bs) = ground (arith, length-insert_sorted a bs)

length-sort : (bs : List ℤ) → length (sort bs) ≡ length bs
unfolding sort
length-sort [] = refl
length-sort (b ∷ bs) = ground (arith, length-insert_sorted b (sort bs), length-sort bs)

has-insert_sorted : (c a : ℤ) (bs : List ℤ) → has c (insert_sorted a bs) ≡ (eq_ℤ c a || has c bs)
unfolding insert_sorted
has-insert_sorted c a [] = refl
has-insert_sorted c a (b ∷ bs) = ground (arith, has-insert_sorted c a bs)

has-sort : (c : ℤ) (bs : List ℤ) → has c (sort bs) ≡ has c bs
unfolding sort
has-sort c [] = refl
has-sort c (b ∷ bs) = ground (arith, has-insert_sorted c b (sort bs), has-sort c bs)

has-get_elem? : (bs : List ℤ) (i : ℕ) (c : ℤ) → get_elem? bs i ≡ some c → has c bs ≡ true
has-get_elem? [] i c h = absurd (cc)
has-get_elem? (b ∷ bs) zero c h = ground (arith, eq_ℤ_iff c b)
has-get_elem? (b ∷ bs) (suc i) c h = ground (arith, has-get_elem? bs i c h)

get_elem?-lt : (bs : List ℤ) (i : ℕ) → i < length bs → (c : ℤ) × (get_elem? bs i ≡ some c)
get_elem?-lt [] i h = elim h [ ]
get_elem?-lt (b ∷ bs) zero h = (b, refl)
get_elem?-lt (b ∷ bs) (suc i) h = get_elem?-lt bs i (omega arith)

any_of-has : (c : ℤ) (m : BTreeMap ℤ) → has c (BTreeMap.values m) ≡ true → any (eq_ℤ c) m ≡ true
any_of-has c [] h = h
any_of-has c ((k, r) ∷ m) h = ground (arith, any_of-has c m)

length-retain-lt :
    (c : ℤ) (m : BTreeMap ℤ)
    → has c (BTreeMap.values m) ≡ true
    → length (BTreeMap.retain (λ _ r. ltb_ℤ c r) m) < length m
unfolding retain
length-retain-lt c [] h = absurd (cc)
length-retain-lt c ((k, r) ∷ m) h =
    ground (arith, length-retain-lt c m, length-retain-le (λ _ r. ltb_ℤ c r) m, eq_ℤ_iff c r)

-- The cutoff that the pruning finds: it exists, and it is the revision of some removal.
pub record Cutoff {F : Type 0} (s : State F) : Type 0 where
  pub cutoff : ℤ
  pub found : get_elem? (sort (BTreeMap.values s.removed)) (length s.removed / 2) ≡ some cutoff
  pub id : Text
  pub removal : BTreeMap.get id s.removed ≡ some cutoff
  pub shorter : length (BTreeMap.retain (λ _ r. ltb_ℤ cutoff r) s.removed) < length s.removed

length-values : {V : Type 0} (m : BTreeMap V) → length (BTreeMap.values m) ≡ length m
length-values [] = refl
length-values (e ∷ m) = ap suc (length-values m)

pub prune-Cutoff : {F : Type 0} (s : State F) → IsSorted s.removed → 0 < length s.removed → Cutoff s
prune-Cutoff s sorted some_removed =
    let values = BTreeMap.values s.removed in
    let (c, found) =
      get_elem?-lt (sort values) (length s.removed / 2)
        (omega (arith, length-sort values, length-values s.removed)) in
    let member : has c values ≡ true =
      ground
        (arith, has-get_elem? (sort values) (length s.removed / 2) c found, has-sort c values) in
    let (k, r, removal, same) =
      get_of-any (eq_ℤ c) s.removed sorted (any_of-has c s.removed member) in
    record {
      cutoff = c;
      found = found;
      id = k;
      removal = ground (arith, eq_ℤ_iff c r);
      shorter = length-retain-lt c s.removed member;
    }
