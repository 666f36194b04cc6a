-- ===== src/Usb/Descriptors/Fuel.antt =====
-- rust_backend/crates/mobile/src/usb_audio/descriptors.rs: the fuel of the loop of `parse`.
use spoti_flac_mobile.Prelude.{
  ℕ, zero, suc, Bool, true, false, List, [], ◌∷◌, ◌≡◌, refl, arith, ◌<◌, length, drop, take,
  length-drop, ltb, ◌||◌, if◌then◌else◌,
}
use spoti_flac_mobile.Prelude.Result.{Result, ok, err}
use spoti_flac_mobile.Usb.Descriptors.{parse_loop, Parser, Device, ParseError, step, and_then}

and_then_ext :
    (r : Result Parser ParseError) (f g : Parser → Result Device ParseError)
    → ((p : Parser) → f p ≡ g p)
    → and_then r f ≡ and_then r g
and_then_ext (ok p) f g h = h p
and_then_ext (err e) f g h = refl

if_ext :
    {A : Type 0} (b : Bool) (x y z : A)
    → (b ≡ false → y ≡ z)
    → (if b then x else y) ≡ (if b then x else z)
if_ext true x y z h = refl
if_ext false x y z h = h refl

-- Any two fuels above the number of bytes give the same result, so the one that `parse` takes is
-- never used up.
pub parse_loop_fuel :
    (n m : ℕ) (bytes : List ℕ) (p : Parser)
    → length bytes < n
    → length bytes < m
    → parse_loop n bytes p ≡ parse_loop m bytes p
unfolding parse_loop
parse_loop_fuel zero m bytes p h k = absurd (omega arith)
parse_loop_fuel (suc n) zero bytes p h k = absurd (omega arith)
parse_loop_fuel (suc n) (suc m) [] p h k = refl
parse_loop_fuel (suc n) (suc m) (len ∷ bytes) p h k =
    if_ext (ltb len 2 || ltb (length (len ∷ bytes)) len) (err ParseError.malformed) _ _ λ good.
      let d = length-drop len (len ∷ bytes) in
      let l : 1 < len = ground arith in
      and_then_ext (step (take len (len ∷ bytes)) p) _ _
        λ q. parse_loop_fuel n m (drop len (len ∷ bytes)) q (omega arith) (omega arith)
