-- ===== src/Prelude/Text.antt =====
-- Texts as lists of code points. Rust orders `String` by bytes of UTF-8, which is the order of the
-- code points.
use Prim.Native.Char.{code}
use Prim.Native.String.{String}
use spoti_flac_mobile.Prelude.{
  ℕ, ◌≡◌, refl, ◌↔◌, Bool, true, false, List, [], ◌∷◌, compare, Ordering, arith,
}

abbrev pub Text : Type 0
Text = List ℕ

abbrev pub codes : String → Text
codes String.[] = []
codes (String.◌∷◌ c s) = code c ∷ codes s

abbrev pub is_empty : Text → Bool
is_empty [] = true
is_empty (c ∷ s) = false

-- The comparison of `Ord for str`.
unfoldable pub text_cmp : Text → Text → Ordering
text_cmp [] [] = Ordering.eq
text_cmp [] (d ∷ t) = Ordering.lt
text_cmp (c ∷ s) [] = Ordering.gt
text_cmp (c ∷ s) (d ∷ t) =
    let rest = text_cmp s t in
    elim (compare c d) [
      | Ordering.lt ↦ Ordering.lt
      | Ordering.eq ↦ rest
      | Ordering.gt ↦ Ordering.gt
    ]

pub text_cmp_refl : (s : Text) → text_cmp s s ≡ Ordering.eq
unfolding text_cmp
text_cmp_refl [] = refl
text_cmp_refl (c ∷ s) = ground (arith, text_cmp_refl s)

pub eq_of_text_cmp : (s t : Text) → text_cmp s t ≡ Ordering.eq → s ≡ t
unfolding text_cmp
eq_of_text_cmp [] [] h = refl
eq_of_text_cmp (c ∷ s) (d ∷ t) h = ground (arith, eq_of_text_cmp s t)
eq_of_text_cmp s t h = ground arith

pub text_cmp-gt : (s t : Text) → text_cmp s t ≡ Ordering.gt → text_cmp t s ≡ Ordering.lt
unfolding text_cmp
text_cmp-gt (c ∷ s) (d ∷ t) h = ground (arith, text_cmp-gt s t)
text_cmp-gt [] [] h = ground arith
text_cmp-gt [] (d ∷ t) h = ground arith
text_cmp-gt (c ∷ s) [] h = ground arith

pub text_cmp_trans :
    (s t u : Text)
    → text_cmp s t ≡ Ordering.lt
    → text_cmp t u ≡ Ordering.lt
    → text_cmp s u ≡ Ordering.lt
unfolding text_cmp
text_cmp_trans (c ∷ s) (d ∷ t) (e ∷ u) h k = ground (arith, text_cmp_trans s t u)
text_cmp_trans [] [] u h k = ground arith
text_cmp_trans (c ∷ s) [] u h k = ground arith
text_cmp_trans s (d ∷ t) [] h k = ground arith
text_cmp_trans [] (d ∷ t) (e ∷ u) h k = ground arith

infix 50 ◌=ₜ◌
abbrev pub ◌=ₜ◌ : Text → Text → Bool
s =ₜ t = elim (text_cmp s t) [ Ordering.eq ↦ true | _ ↦ false ]

pub =ₜ_iff : (s t : Text) → ((s =ₜ t) ≡ true) ↔ (s ≡ t)
=ₜ_iff s t = (λ h. eq_of_text_cmp s t (ground arith), λ e. ground (arith, text_cmp_refl s))

pub is_empty_iff : (s : Text) → (is_empty s ≡ true) ↔ (s ≡ [])
is_empty_iff [] = ground arith
is_empty_iff (c ∷ s) = ground arith
