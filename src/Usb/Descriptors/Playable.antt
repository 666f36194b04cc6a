-- ===== src/Usb/Descriptors/Playable.antt =====
-- rust_backend/crates/mobile/src/usb_audio/descriptors.rs: which formats `formats` offers, and in
-- which order.
use spoti_flac_mobile.Prelude.{
  ℕ, true, false, Option, none, some, List, [], ◌∷◌, ◌≡◌, ◌≢◌, ◌⊎◌, ◌↔◌, inl, inr, refl, arith, ◌*◌,
  ◌/◌, ◌<◌, ◌≤◌, In, leb, ap, ==_iff, sym, ◌∙◌, subst, if_cases, leb→le,
}
use spoti_flac_mobile.Usb.Descriptors.{Alternate, Device}
use spoti_flac_mobile.Usb.Descriptors.Formats.{
  Encoding, UsbOutputFormat, Stream, native_encoding, wire, format_of, in_rates, sort_key,
  insert_sorted, formats_of, formats, add_offer,
}

abbrev Offer : Type 0
Offer = Alternate × UsbOutputFormat

In-insert_sorted_self : (x : Offer) (ys : List Offer) → In x (insert_sorted x ys)
unfolding insert_sorted
In-insert_sorted_self x [] = inl refl
In-insert_sorted_self x (y ∷ ys) = ground (arith, In-insert_sorted_self x ys)

In-insert_sorted_of : (z x : Offer) (ys : List Offer) → In z ys → In z (insert_sorted x ys)
unfolding insert_sorted
In-insert_sorted_of z x [] h = absurd h
In-insert_sorted_of z x (y ∷ ys) h = ground (arith, In-insert_sorted_of z x ys)

insert_sorted-cases :
    (z x : Offer) (ys : List Offer) → In z (insert_sorted x ys) → (z ≡ x) ⊎ In z ys
unfolding insert_sorted
insert_sorted-cases z x [] h = h
insert_sorted-cases z x (y ∷ ys) h = ground (arith, insert_sorted-cases z x ys)

add_offer_iff :
    (a b : Alternate) (f : UsbOutputFormat) (o : Option UsbOutputFormat) (rest : List Offer)
    → In (a, f) (add_offer b o rest) ↔ (((a ≡ b) × (o ≡ some f)) ⊎ In (a, f) rest)
add_offer_iff a b f none rest =
    (λ h. inr h, λ h. elim h [ inl p ↦ absurd (ground arith) | inr q ↦ q ])
add_offer_iff a b f (some g) rest = (
  λ h. elim (insert_sorted-cases (a, f) (b, g) rest h) [
    | inl e ↦ inl (ap (λ x. x.0) e, ap (λ x. some (x.1)) (sym e))
    | inr q ↦ inr q
  ],
  λ h. elim h [
    | inl (p, e) ↦
        let same : (b, g) ≡ (a, f) = ground arith in
        subst (λ x. In x (insert_sorted (b, g) rest)) same (In-insert_sorted_self (b, g) rest)
    | inr q ↦ In-insert_sorted_of (a, f) (b, g) rest q
  ],
)

-- The alternates that are offered, with the format of each.
formats_of_iff :
    (device : Device) (s : Stream) (alternates : List Alternate) (a : Alternate)
    (f : UsbOutputFormat)
    → In (a, f) (formats_of device s alternates)
      ↔ (In a alternates × (format_of device s a ≡ some f))
unfolding formats_of
formats_of_iff device s [] a f = (λ h. absurd h, λ h. absurd (h.0))
formats_of_iff device s (b ∷ bs) a f =
    let i = add_offer_iff a b f (format_of device s b) (formats_of device s bs) in
    let j = formats_of_iff device s bs a f in
    (
      λ h. elim (i.0 h) [
        | inl (p, e) ↦ (inl p, ap (format_of device s) p ∙ e)
        | inr q ↦ (inr ((j.0 q).0), (j.0 q).1)
      ],
      λ (m, e). elim m [
        | inl p ↦ i.1 (inl (p, ap (format_of device s) (sym p) ∙ e))
        | inr q ↦ i.1 (inr (j.1 (q, e)))
      ],
    )

-- What a client relies on of an offer, without the order in which the code looks at it.
abbrev pub IsPlayable : Device → Stream → Alternate → UsbOutputFormat → Type 0
IsPlayable device s a f =
    (a.channels ≡ s.channels)
    × (f.channels ≡ s.channels)
    × ((s.channels ≡ 1) ⊎ (s.channels ≡ 2))
    × (f.subslot ≡ a.subslot)
    × (2 ≤ a.subslot)
    × (a.subslot ≤ 4)
    × (a.bits ≤ a.subslot * 8)
    × (0 < f.sample_rate)
    × (((a.uac2 ≡ true) × (a.clock ≢ 0))
        ⊎ ((a.uac2 ≡ false) × (in_rates f.sample_rate a.rates ≡ true)))

-- PCM goes unchanged to an alternate for PCM that is wide enough. A DSD stream goes as native DSD
-- exactly where the device is known to take it, and else, if that is allowed, as DoP.
abbrev pub Carries : Device → Stream → Alternate → UsbOutputFormat → Type 0
Carries device s a f =
    ((s.dsd ≡ false)
      × (f.encoding ≡ Encoding.pcm)
      × (f.sample_rate ≡ s.rate)
      × (f.bits ≡ a.bits)
      × (s.bits ≤ a.bits)
      × ((s.bits ≡ 16) ⊎ (s.bits ≡ 24) ⊎ (s.bits ≡ 32))
      × (a.pcm ≡ true)
      × (native_encoding device a ≡ none))
    ⊎ ((s.dsd ≡ true)
        × (((native_encoding device a ≡ some (f.encoding))
              × (f.sample_rate ≡ s.rate / 32)
              × (f.bits ≡ 1))
            ⊎ ((native_encoding device a ≡ none)
                × (f.encoding ≡ Encoding.dop)
                × (s.dop ≡ true)
                × (a.pcm ≡ true)
                × (24 ≤ a.bits)
                × (3 ≤ a.subslot)
                × (f.sample_rate ≡ s.rate / 16)
                × (f.bits ≡ 24))))

format_of-IsPlayable :
    (device : Device) (s : Stream) (a : Alternate) (f : UsbOutputFormat)
    → format_of device s a ≡ some f
    → IsPlayable device s a f
unfolding format_of
format_of-IsPlayable device s a f e = ground (arith, ==_iff a.channels s.channels)

format_of-Carries :
    (device : Device) (s : Stream) (a : Alternate) (f : UsbOutputFormat)
    → format_of device s a ≡ some f
    → Carries device s a f
unfolding format_of wire
format_of-Carries device s a f e = ground arith

format_of_complete :
    (device : Device) (s : Stream) (a : Alternate) (f : UsbOutputFormat)
    → IsPlayable device s a f
    → Carries device s a f
    → format_of device s a ≡ some f
unfolding format_of wire
format_of_complete device s a f p c = ground arith

-- `formats` offers an alternate of the device with a format exactly if the format is playable there
-- and carries the stream.
pub formats_iff :
    (device : Device) (s : Stream) (a : Alternate) (f : UsbOutputFormat)
    → In (a, f) (formats device s)
      ↔ (In a device.alternates × IsPlayable device s a f × Carries device s a f)
unfolding formats
formats_iff device s a f =
    let i = formats_of_iff device s device.alternates a f in
    (
      λ h.
          let (m, e) = i.0 h in
          (m, format_of-IsPlayable device s a f e, format_of-Carries device s a f e),
      λ (m, p, c). i.1 (m, format_of_complete device s a f p c),
    )

abbrev pub IsAbove : ℕ → List Offer → Type 0
IsAbove n [] = Unit
IsAbove n (x ∷ xs) = n ≤ sort_key x

abbrev pub IsSorted : List Offer → Type 0
IsSorted [] = Unit
IsSorted (x ∷ xs) = IsAbove (sort_key x) xs × IsSorted xs

insert_sorted-IsAbove :
    (n : ℕ) (x : Offer) (xs : List Offer)
    → n ≤ sort_key x
    → IsAbove n xs
    → IsAbove n (insert_sorted x xs)
unfolding insert_sorted
insert_sorted-IsAbove n x [] h k = h
insert_sorted-IsAbove n x (y ∷ ys) h k =
    if_cases (IsAbove n) (leb (sort_key x) (sort_key y)) (x ∷ y ∷ ys) (y ∷ insert_sorted x ys)
      (λ e. h) (λ e. k)

insert_sorted-IsSorted : (x : Offer) (xs : List Offer) → IsSorted xs → IsSorted (insert_sorted x xs)
unfolding insert_sorted
insert_sorted-IsSorted x [] h = (tt, tt)
insert_sorted-IsSorted x (y ∷ ys) h =
    if_cases IsSorted (leb (sort_key x) (sort_key y)) (x ∷ y ∷ ys) (y ∷ insert_sorted x ys)
      (λ e. (leb→le (sort_key x) (sort_key y) e, h))
      (λ e. (
        insert_sorted-IsAbove (sort_key y) x ys (ground arith) (h.0),
        insert_sorted-IsSorted x ys (h.1),
      ))

add_offer-IsSorted :
    (a : Alternate) (o : Option UsbOutputFormat) (rest : List Offer)
    → IsSorted rest
    → IsSorted (add_offer a o rest)
add_offer-IsSorted a none rest h = h
add_offer-IsSorted a (some f) rest h = insert_sorted-IsSorted (a, f) rest h

formats_of-IsSorted :
    (device : Device) (s : Stream) (alternates : List Alternate)
    → IsSorted (formats_of device s alternates)
unfolding formats_of
formats_of-IsSorted device s [] = tt
formats_of-IsSorted device s (a ∷ rest) =
    add_offer-IsSorted a (format_of device s a) (formats_of device s rest)
      (formats_of-IsSorted device s rest)

-- The offers come in the order of preference: native DSD first, then by the size of the subslot.
pub formats-IsSorted : (device : Device) (s : Stream) → IsSorted (formats device s)
unfolding formats
formats-IsSorted device s = formats_of-IsSorted device s device.alternates
