-- ===== src/BTreeMap/Order.antt =====
-- The order of the entries: every operation keeps the keys strictly ascending.
use spoti_flac_mobile.Prelude.{
  ◌≤◌, ◌≡◌, refl, Bool, Option, none, some, [], ◌∷◌, Ordering, arith, if◌then◌else◌, length, ◌+◌,
  false, true, ◌||◌, Bool-cases, inl, inr, ◌≢◌, sym, ◌∙◌, ap, subst,
}
use spoti_flac_mobile.Prelude.Text.{
  Text, text_cmp, text_cmp-gt, text_cmp_trans, eq_of_text_cmp, =ₜ_iff,
}
use spoti_flac_mobile.BTreeMap.{BTreeMap, get, insert, remove, retain}

module _ {ℓ} {V : Type ℓ} where
  -- Every key of the map comes after `k`.
  abbrev pub After : Text → BTreeMap V → Type 0
  After k [] = Unit
  After k ((j, w) ∷ m) = (text_cmp k j ≡ Ordering.lt) × After k m

  abbrev pub IsSorted : BTreeMap V → Type 0
  IsSorted [] = Unit
  IsSorted ((j, w) ∷ m) = After j m × IsSorted m

  After-trans : (k j : Text) (m : BTreeMap V) → text_cmp k j ≡ Ordering.lt → After j m → After k m
  After-trans k j [] h a = tt
  After-trans k j ((i, w) ∷ m) h a = (text_cmp_trans k j i h a.0, After-trans k j m h a.1)

  After-insert :
      (i k : Text) (v : V) (m : BTreeMap V)
      → text_cmp i k ≡ Ordering.lt
      → After i m
      → After i (insert k v m)
  unfolding insert
  After-insert i k v [] h a = (h, tt)
  After-insert i k v ((j, w) ∷ m) h a = ground (arith, After-insert i k v m)

  After-remove : (i k : Text) (m : BTreeMap V) → After i m → After i (remove k m)
  unfolding remove
  After-remove i k [] a = tt
  After-remove i k ((j, w) ∷ m) a = ground (arith, After-remove i k m)

  After-retain :
      (i : Text) (p : Text → V → Bool) (m : BTreeMap V) → After i m → After i (retain p m)
  unfolding retain
  After-retain i p [] a = tt
  After-retain i p ((j, w) ∷ m) a = ground (arith, After-retain i p m)

  pub insert-IsSorted : (k : Text) (v : V) (m : BTreeMap V) → IsSorted m → IsSorted (insert k v m)
  unfolding insert
  insert-IsSorted k v [] s = (tt, tt)
  insert-IsSorted k v ((j, w) ∷ m) s = ground (
    arith,
    insert-IsSorted k v m,
    After-insert j k v m,
    text_cmp-gt k j,
    After-trans k j m,
    eq_of_text_cmp k j,
  )

  pub remove-IsSorted : (k : Text) (m : BTreeMap V) → IsSorted m → IsSorted (remove k m)
  unfolding remove
  remove-IsSorted k [] s = tt
  remove-IsSorted k ((j, w) ∷ m) s = ground (arith, remove-IsSorted k m, After-remove j k m)

  pub retain-IsSorted : (p : Text → V → Bool) (m : BTreeMap V) → IsSorted m → IsSorted (retain p m)
  unfolding retain
  retain-IsSorted p [] s = tt
  retain-IsSorted p ((j, w) ∷ m) s = ground (arith, retain-IsSorted p m, After-retain j p m)

  pub get-After : (k : Text) (m : BTreeMap V) → After k m → get k m ≡ none
  unfolding get
  get-After k [] a = refl
  get-After k ((j, w) ∷ m) a = ground (arith, get-After k m)

  abbrev pub keep : (Text → V → Bool) → Text → Option V → Option V
  keep p k none = none
  keep p k (some v) = if p k v then some v else none

  pub get-retain :
      (p : Text → V → Bool) (k : Text) (m : BTreeMap V)
      → IsSorted m
      → get k (retain p m) ≡ keep p k (get k m)
  unfolding get retain
  get-retain p k [] s = refl
  get-retain p k ((j, w) ∷ m) s = ground (
    arith,
    get-retain p k m,
    get-After j m,
    get-After k m,
    After-retain j p m,
    get-After j (retain p m),
    =ₜ_iff k j,
  )

  pub length-retain-le : (p : Text → V → Bool) (m : BTreeMap V) → length (retain p m) ≤ length m
  unfolding retain
  length-retain-le p [] = omega arith
  length-retain-le p ((j, w) ∷ m) = ground (arith, length-retain-le p m)

  pub length-insert-le : (k : Text) (v : V) (m : BTreeMap V) → length (insert k v m) ≤ length m + 1
  unfolding insert
  length-insert-le k v [] = omega arith
  length-insert-le k v ((j, w) ∷ m) = ground (arith, length-insert-le k v m)

  pub length_le-insert : (k : Text) (v : V) (m : BTreeMap V) → length m ≤ length (insert k v m)
  unfolding insert
  length_le-insert k v [] = omega arith
  length_le-insert k v ((j, w) ∷ m) = ground (arith, length_le-insert k v m)

  pub length-remove-le : (k : Text) (m : BTreeMap V) → length (remove k m) ≤ length m
  unfolding remove
  length-remove-le k [] = omega arith
  length-remove-le k ((j, w) ∷ m) = ground (arith, length-remove-le k m)

  -- Whether some value passes a test.
  abbrev pub any : (V → Bool) → BTreeMap V → Bool
  any p [] = false
  any p ((j, w) ∷ m) = p w || any p m

  pub get_of-any :
      (p : V → Bool) (m : BTreeMap V)
      → IsSorted m
      → any p m ≡ true
      → (k : Text) × (v : V) × (get k m ≡ some v) × (p v ≡ true)
  unfolding get
  get_of-any p [] s h = absurd (cc)
  get_of-any p ((j, w) ∷ m) s h = elim (Bool-cases (p w)) [
    | inl passes ↦ (j, w, ground (arith, =ₜ_iff j j), passes)
    | inr fails ↦
        let (k, v, found, passes) = get_of-any p m s.1 (ground arith) in
        (k, v, ground (arith, =ₜ_iff k j, get-After j m s.0), passes)
  ]

  pub get_head : (i : Text) (v : V) (a : BTreeMap V) → get i ((i, v) ∷ a) ≡ some v
  unfolding get
  get_head i v a = ground (arith, =ₜ_iff i i)

  head-After :
      (i j : Text) (v w : V) (a b : BTreeMap V)
      → IsSorted ((j, w) ∷ b)
      → get i ((i, v) ∷ a) ≡ get i ((j, w) ∷ b)
      → text_cmp i j ≢ Ordering.lt
  head-After i j v w a b t h lt =
      let past : After i ((j, w) ∷ b) = (lt, After-trans i j b lt t.0) in
      let e : some v ≡ none = sym (get_head i v a) ∙ h ∙ get-After i _ past in absurd (cc)

  heads_eq :
      (i j : Text) (v w : V) (a b : BTreeMap V)
      → IsSorted ((i, v) ∷ a)
      → IsSorted ((j, w) ∷ b)
      → ((k : Text) → get k ((i, v) ∷ a) ≡ get k ((j, w) ∷ b))
      → (i ≡ j) × (v ≡ w)
  heads_eq i j v w a b s t h =
      let first = head-After i j v w a b t (h i) in
      let second = head-After j i w v b a s (sym (h j)) in
      let i≡j : i ≡ j = ground (arith, text_cmp-gt i j, eq_of_text_cmp i j) in
      let here : get i ((i, v) ∷ a) ≡ get i ((i, w) ∷ b) =
        h i ∙ ap (λ k. get i ((k, w) ∷ b)) (sym i≡j) in
      let e : some v ≡ some w = sym (get_head i v a) ∙ here ∙ get_head i w b in (i≡j, ground arith)

  tails_eq :
      (i : Text) (v : V) (a b : BTreeMap V)
      → After i a
      → After i b
      → ((k : Text) → get k ((i, v) ∷ a) ≡ get k ((i, v) ∷ b))
      → (k : Text) → get k a ≡ get k b
  unfolding get
  tails_eq i v a b s t h k = let e = h k in ground (arith, =ₜ_iff k i, get-After i a, get-After i b)

  -- Two maps with the same values are equal.
  pub ext : (a b : BTreeMap V) → IsSorted a → IsSorted b → ((k : Text) → get k a ≡ get k b) → a ≡ b
  unfolding get
  ext [] [] s t h = refl
  ext [] ((j, w) ∷ b) s t h = let e = h j ∙ get_head j w b in absurd (cc)
  ext ((i, v) ∷ a) [] s t h = let e = sym (h i) ∙ get_head i v a in absurd (cc)
  ext ((i, v) ∷ a) ((j, w) ∷ b) s t h =
      let (i≡j, v≡w) = heads_eq i j v w a b s t h in
      let head : (i, v) ≡ (j, w) = ap (λ k. (k, v)) i≡j ∙ ap (λ x. (j, x)) v≡w in
      let after_b : After i b = subst (λ k. After k b) (sym i≡j) t.0 in
      let same = tails_eq i v a b s.0 after_b (λ k. h k ∙ ap (λ e. get k (e ∷ b)) (sym head)) in
      ap (◌∷◌ (i, v)) (ext a b s.1 t.1 same) ∙ ap (λ e. e ∷ b) head
