-- ===== src/Network/Query/Escapes.antt =====
-- rust_backend/crates/network/src/query.rs: the escapes.
use spoti_flac_mobile.Network.Query.{
  decode, escape, hex_byte, escape_byte, to_digit, push_byte, hex_digit, contains, is_unreserved,
}
use spoti_flac_mobile.Prelude.Text.{Text}
use spoti_flac_mobile.Prelude.{
  ℕ, ℕ, ◌∷◌, ◌<◌, ◌≡◌, ◌++◌, ap, some, [], refl, arith, ◌/◌, ◌%◌, Bool, true, false, ◌||◌, ◌==◌,
  Bool-cases, if_cases, inl, sym, ==_iff, ◌∙◌, inr,
}

abbrev pub IsBytes : Text → Type 0
IsBytes [] = Unit
IsBytes (b ∷ bytes) = (b < 256) × IsBytes bytes

hex_byte-hex_digit :
    (b : ℕ)
    → b < 256
    → hex_byte (to_digit (hex_digit (b / 16))) (to_digit (hex_digit (b % 16))) ≡ some b
hex_byte-hex_digit b h = ground arith

decode-append_byte :
    (b : ℕ) (rest : Text)
    → b < 256
    → decode (escape_byte b ++ rest) ≡ push_byte (some b) (decode rest)
unfolding decode
decode-append_byte b rest h = ground (arith, hex_byte-hex_digit b)

pub append_assoc : (a b c : Text) → (a ++ b) ++ c ≡ a ++ (b ++ c)
append_assoc [] b c = refl
append_assoc (x ∷ a) b c = ap (◌∷◌ x) (append_assoc a b c)

-- Any bytes are their escape, decoded.
pub decode-escape : (bytes : Text) → IsBytes bytes → decode (escape bytes) ≡ some bytes
unfolding escape decode
decode-escape [] h = refl
decode-escape (b ∷ bytes) h =
    ground (arith, decode-append_byte b (escape bytes), decode-escape bytes)

-- What an escape is made of.
abbrev pub is_written : ℕ → Bool
is_written c = is_unreserved c || c == 43 || c == 37

pub contains-append : (c : ℕ) (s t : Text) → contains c (s ++ t) ≡ (contains c s || contains c t)
unfolding contains
contains-append c [] t = refl
contains-append c (d ∷ s) t = ground (arith, contains-append c s t)

pub hex_digit-IsWritten : (n : ℕ) → n < 16 → is_written (hex_digit n) ≡ true
hex_digit-IsWritten n h = ground arith

pub written_ne : (c d : ℕ) → is_written c ≡ false → is_written d ≡ true → (d == c) ≡ false
written_ne c d n w = elim (Bool-cases (d == c)) [
  | inl e ↦ let w' = ap is_written (sym ((==_iff d c).0 e)) ∙ w in absurd (cc)
  | inr e ↦ e
]

contains-escape_byte :
    (c b : ℕ) → b < 256 → is_written c ≡ false → contains c (escape_byte b) ≡ false
unfolding contains
contains-escape_byte c b h n =
    if_cases (λ s. contains c s ≡ false) (is_unreserved b) (b ∷ []) _
      (λ e. rw (written_ne c b n (rw e)))
      (λ _.
        if_cases (λ s. contains c s ≡ false) (b == 32) (43 ∷ []) _
          (λ _. rw (written_ne c 43 n refl))
          (λ _. rw (
            written_ne c 37 n refl,
            written_ne c (hex_digit (b / 16)) n (hex_digit-IsWritten (b / 16) (omega arith)),
            written_ne c (hex_digit (b % 16)) n (hex_digit-IsWritten (b % 16) (omega arith)),
          )))

pub contains-escape :
    (c : ℕ) (bytes : Text)
    → IsBytes bytes
    → is_written c ≡ false
    → contains c (escape bytes) ≡ false
unfolding contains escape
contains-escape c [] h n = refl
contains-escape c (b ∷ bytes) h n = ground (
  arith,
  contains-append c (escape_byte b) (escape bytes),
  contains-escape_byte c b,
  contains-escape c bytes,
)
