-- ===== src/Usb/Control.antt =====
-- The `Control` trait of rust_backend/crates/mobile/src/usb_audio/volume.rs. The device is not code
-- of the repository: it is any function from the transfers so far and the next request to an
-- answer. A program over it threads the transfers, the newest first.
use spoti_flac_mobile.Prelude.{
  ℕ, ◌*◌, ◌+◌, ◌-◌, ◌/◌, ◌%◌, ◌^◌, List, [], ◌∷◌, Bool, get_or, ltb, if◌then◌else◌,
}
use spoti_flac_mobile.Prelude.Int.{ℤ, pos, negsuc, bits_i64}
use spoti_flac_mobile.Prelude.Text.{Text}
use spoti_flac_mobile.Prelude.Result.{Result, ok, err}

pub data VolumeError : Type 0 where
  control : Text → VolumeError
  invalid_range unsupported_ranges range_changed no_attenuation : VolumeError
  invalid_volume below_range readback_mismatch panicked : VolumeError

-- The arguments of `transfer`; `bytes` is what the buffer holds before.
pub record Request : Type 0 where
  pub input : Bool
  pub request : ℕ
  pub value : ℕ
  pub index : ℕ
  pub bytes : List ℕ

pub record Transfer : Type 0 where
  pub request : Request
  pub answer : Result (List ℕ) Text

abbrev pub Device : Type 0
Device = List Transfer → Request → Result (List ℕ) Text

-- A transfer writes bytes into the buffer and keeps its length.
unfoldable pub fill : List ℕ → List ℕ → List ℕ
fill [] answer = []
fill (d ∷ buffer) [] = d ∷ buffer
fill (d ∷ buffer) (b ∷ answer) = b % 256 ∷ fill buffer answer

abbrev pub Usb : Type 0 → Type 0
Usb A = List Transfer → Result A VolumeError × List Transfer

abbrev pub continue :
    {A B : Type 0}
    → Result A VolumeError
    → List Transfer
    → (A → Usb B)
    → Result B VolumeError × List Transfer
continue (ok a) h k = k a h
continue (err e) h k = (err e, h)

infixl 5 ◌>>=◌ ◌>>◌
abbrev pub ◌>>=◌ : {A B : Type 0} → Usb A → (A → Usb B) → Usb B
(m >>= k) h = continue ((m h).0) ((m h).1) k

abbrev pub ◌>>◌ : {A B : Type 0} → Usb A → Usb B → Usb B
m >> k = m >>= λ _. k

abbrev pub pure : {A : Type 0} → A → Usb A
pure a h = (ok a, h)

abbrev pub fail : {A : Type 0} → VolumeError → Usb A
fail e h = (err e, h)

abbrev pub answered : Request → Result (List ℕ) Text → Usb (List ℕ)
answered q (ok a) h = (ok (fill (q.bytes) a), record { request = q; answer = ok a } ∷ h)
answered q (err e) h = (err (control e), record { request = q; answer = err e } ∷ h)

abbrev pub request_of : Bool → ℕ → ℕ → ℕ → List ℕ → Request
request_of input request value index bytes = record {
  input = input;
  request = request;
  value = value;
  index = index;
  bytes = bytes;
}

unfoldable pub transfer : Device → Bool → ℕ → ℕ → ℕ → List ℕ → Usb (List ℕ)
transfer device input request value index bytes h =
    let q = request_of input request value index bytes in answered q (device h q) h

-- `i16::from_le_bytes` and `u16::from_le_bytes` of the two bytes at a place of a buffer.
abbrev pub u16_at : List ℕ → ℕ → ℕ
u16_at bytes i = (get_or bytes i 0 + 256 * get_or bytes (i + 1) 0) % 2 ^ 16

abbrev pub i16_of : ℕ → ℤ
i16_of m = if ltb m (2 ^ 15) then pos m else negsuc (2 ^ 16 - 1 - m)

abbrev pub i16_at : List ℕ → ℕ → ℤ
i16_at bytes i = i16_of (u16_at bytes i)

-- `as i16` and `i16::to_le_bytes`.
unfoldable pub wrap_i16 : ℤ → ℤ
wrap_i16 z = i16_of (bits_i64 z % 2 ^ 16)

unfoldable pub le_bytes : ℤ → List ℕ
le_bytes z = let m = bits_i64 z % 2 ^ 16 in m % 256 ∷ m / 256 ∷ []

abbrev pub i16_min : ℤ
i16_min = negsuc (2 ^ 15 - 1)

abbrev pub i16_max : ℤ
i16_max = pos (2 ^ 15 - 1)
