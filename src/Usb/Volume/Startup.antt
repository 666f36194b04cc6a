-- ===== src/Usb/Volume/Startup.antt =====
-- rust_backend/crates/mobile/src/usb_audio/volume.rs: what `Volume::open` writes before the first
-- audio transfer.
use spoti_flac_mobile.Prelude.Result.{Result-cases}
use spoti_flac_mobile.Usb.Volume.{selector, current_request, ok, index, Result}
use spoti_flac_mobile.Usb.Feature.{Feature}
use spoti_flac_mobile.Prelude.{
  ℕ, List, [], ◌∷◌, ◌++◌, Bool, true, false, ◌≡◌, refl, arith, subst, suc, take, drop, replicate,
  ◌+◌, zero, ◌*◌, if◌then◌else◌, inr, inl,
}
use spoti_flac_mobile.Prelude.Int.{ℤ, ◌≤ℤ◌}
use spoti_flac_mobile.Usb.Control.{
  ◌>>=◌, Device, Transfer, i16_at, request_of, VolumeError, Usb, transfer, u16_at, Request,
}
use spoti_flac_mobile.Usb.Range.{Range, parse-IsValid, IsValid}
use spoti_flac_mobile.Usb.Range
use spoti_flac_mobile.Usb.Volume.Open.{
  open_channels, open_channel, parse_chunks, read_ranges1, read_ranges2, startup_level, guard, lift,
}
use spoti_flac_mobile.Usb.Volume.Writes.{AllValid}
use spoti_flac_mobile.Usb.Volume.Emits.{
  IsMonotone, Triple, Triple-bind, Triple-read, Triple-pure, Triple-frame, HasRead,
  HasRead-IsMonotone,
}

abbrev Any : List Transfer → Type 0
Any h = Unit

-- A level that the history has read from a channel.
abbrev pub HasLevel : Feature → ℕ → ℤ → List Transfer → Type 0
HasLevel f channel level h =
    (bytes : List ℕ) × HasRead
      (request_of true (current_request f) (selector channel) (index f) (0 ∷ 0 ∷ [])) bytes h
    × (level ≡ i16_at bytes 0)

-- Each write has, before it, a reading of the same channel that is at least as loud, and is at
-- most -40 dB.
abbrev pub IsQuiet : Feature → List Transfer → Type 0
IsQuiet f [] = Unit
IsQuiet f (t ∷ h) =
    (t.request.input ≡ false
      → (channel : ℕ) × (level : ℤ) × (t.request.value ≡ selector channel)
        × HasLevel f channel level h
        × (i16_at (t.request.bytes) 0 ≤ℤ level)
        × (i16_at (t.request.bytes) 0 ≤ℤ startup_level))
    × IsQuiet f h

parse_chunks-AllValid :
    (n : ℕ) (bytes : List ℕ) (rs : List Range) → parse_chunks n bytes ≡ ok rs → AllValid rs
unfolding parse_chunks
parse_chunks-AllValid zero bytes rs e = subst AllValid {x = []} (ground arith) tt
parse_chunks-AllValid (suc n) bytes rs e = elim (Result-cases (Range.parse (take 6 bytes))) [
  | inr (x, f) ↦ absurd (ground arith)
  | inl (r, f) ↦ elim (Result-cases (parse_chunks n (drop 6 bytes))) [
    | inr (x, g) ↦ absurd (ground arith)
    | inl (rs', g) ↦
        subst AllValid {x = r ∷ rs'} (ground arith)
          (parse-IsValid (take 6 bytes) r f, parse_chunks-AllValid n (drop 6 bytes) rs' g)
  ]
]

module _ (f : Feature) where
  -- What `open` knows of the channels that it has read.
  abbrev pub Known : List ℕ → List (ℤ × List Range) → List Transfer → Type 0
  Known [] [] h = Unit
  Known (c ∷ cs) (x ∷ xs) h = HasLevel f c (x.0) h × AllValid (x.1) × Known cs xs h
  Known cs xs h = ⊥

  abbrev level_request : ℕ → Request
  level_request c = request_of true (current_request f) (selector c) (index f) (0 ∷ 0 ∷ [])

  pub HasLevel-IsMonotone : (c : ℕ) (level : ℤ) → IsMonotone (HasLevel f c level)
  HasLevel-IsMonotone c level new h (bytes, r, e) =
      (bytes, HasRead-IsMonotone (level_request c) bytes new h r, e)

if_rule : {A : Type 0} (P : A → Type 0) (b : Bool) {x y : A} → P x → P y → P (if b then x else y)
if_rule P true p q = p
if_rule P false p q = q

module _ (Q : ℕ → ℤ → Type 0) where
  guard-Triple : (b : Bool) (e : VolumeError) → Triple Q Any (guard b e) (λ u. Any)
  guard-Triple true e h p = (([], refl, tt), λ b f. tt)
  guard-Triple false e h p = (([], refl, tt), λ b f. tt)

  lift-Triple :
      {A : Type 0} (P : A → Type 0) (r : Result A VolumeError)
      → ((a : A) → r ≡ ok a → P a)
      → Triple Q Any (lift r) (λ a h. P a)
  lift-Triple P r t h p = (([], refl, tt), t)

module _ (Q : ℕ → ℤ → Type 0) (device : Device) (f : Feature) where
  abbrev read : ℕ → ℕ → List ℕ → Usb (List ℕ)
  read request c bytes = transfer device true request (selector c) (index f) bytes

  -- A reading, and then a program that needs nothing of it.
  read-then :
      {A : Type 0} (P : A → Type 0) (request c : ℕ) (bytes : List ℕ) (k : List ℕ → Usb A)
      → ((answer : List ℕ) → Triple Q Any (k answer) (λ a h. P a))
      → Triple Q Any (read request c bytes >>= k) (λ a h. P a)
  read-then P request c bytes k t =
      Triple-bind Q Any (λ a h. P a)
        {Mid = HasRead (request_of true request (selector c) (index f) bytes)}
        (read request c bytes) k (Triple-read Q device request (selector c) (index f) bytes)
        (λ answer h p. t answer h tt)

  read_ranges2-Triple :
      (c : ℕ) (bytes : List ℕ) → Triple Q Any (read_ranges2 device f c bytes) (λ rs h. AllValid rs)
  unfolding read_ranges2
  read_ranges2-Triple c bytes = read-then AllValid 2 c bytes _ λ answer.
      Triple-bind Q Any (λ rs h. AllValid rs) {Mid = λ u. Any} _ _
        (guard-Triple Q _ VolumeError.unsupported_ranges)
        λ u. read-then AllValid 2 c (replicate (2 + 6 * u16_at answer 0) 0) _ λ all.
          Triple-bind Q Any (λ rs h. AllValid rs) {Mid = λ u. Any} _ _
            (guard-Triple Q _ VolumeError.range_changed)
            λ u'.
              lift-Triple Q AllValid (parse_chunks (u16_at answer 0) (drop 2 all))
                (parse_chunks-AllValid (u16_at answer 0) (drop 2 all))

  read_ranges1-Triple : (c : ℕ) → Triple Q Any (read_ranges1 device f c) (λ rs h. AllValid rs)
  unfolding read_ranges1
  read_ranges1-Triple c = read-then AllValid 130 c (0 ∷ 0 ∷ []) _ λ lo.
      read-then AllValid 131 c (0 ∷ 0 ∷ []) _ λ hi. read-then AllValid 132 c (0 ∷ 0 ∷ []) _ λ step.
        Triple-bind Q Any (λ rs h. AllValid rs) {Mid = λ r h. IsValid r} _ _
          (lift-Triple Q IsValid (Range.parse (lo ++ hi ++ step))
            (parse-IsValid (lo ++ hi ++ step)))
          (λ r h v. Triple-pure Q Any (λ rs h. AllValid rs) (r ∷ []) (λ h p. (v, tt)) h tt)

  open_channel-Triple :
      (c : ℕ)
      → Triple Q Any (open_channel device f c) (λ x h. HasLevel f c (x.0) h × AllValid (x.1))
  unfolding open_channel
  open_channel-Triple c =
      let Post : ℤ × List Range → List Transfer → Type 0 =
        λ x h. HasLevel f c (x.0) h × AllValid (x.1) in
      Triple-bind Q Any Post {Mid = HasRead (level_request f c)} _ _
        (Triple-read Q device (current_request f) (selector c) (index f) (0 ∷ 0 ∷ []))
        λ bytes.
          let m : Usb (List Range) =
            if f.uac2 then read_ranges2 device f c bytes else read_ranges1 device f c in
          let t : Triple Q Any m (λ rs h. AllValid rs) =
            if_rule (λ m. Triple Q Any m (λ rs h. AllValid rs)) (f.uac2)
              (read_ranges2-Triple c bytes) (read_ranges1-Triple c) in
          Triple-bind Q (HasRead (level_request f c) bytes) Post
            {Mid = λ rs h. HasRead (level_request f c) bytes h × AllValid rs} m _
            (Triple-frame Q (HasRead (level_request f c) bytes) (λ rs h. AllValid rs) m
              (HasRead-IsMonotone (level_request f c) bytes) (λ h p. t h tt))
            (λ rs. Triple-pure Q _ Post (i16_at bytes 0, rs) (λ h p. ((bytes, p.0, refl), p.1)))

  pub open_channels-Triple : (cs : List ℕ) → Triple Q Any (open_channels device f cs) (Known f cs)
  unfolding open_channels
  open_channels-Triple [] = Triple-pure Q Any (Known f []) [] (λ h p. tt)
  open_channels-Triple (c ∷ cs) =
      Triple-bind Q Any (Known f (c ∷ cs)) {Mid = λ x h. HasLevel f c (x.0) h × AllValid (x.1)}
        (open_channel device f c) _ (open_channel-Triple c)
        λ x.
          Triple-bind Q (λ h. HasLevel f c (x.0) h × AllValid (x.1)) (Known f (c ∷ cs))
            {Mid = λ xs h. (HasLevel f c (x.0) h × AllValid (x.1)) × Known f cs xs h}
            (open_channels device f cs) _
            (Triple-frame Q (λ h. HasLevel f c (x.0) h × AllValid (x.1)) (Known f cs)
              (open_channels device f cs)
              (λ new h p. (HasLevel-IsMonotone f c (x.0) new h (p.0), p.1))
              (λ h p. open_channels-Triple cs h tt))
            (λ xs.
              Triple-pure Q (λ h. (HasLevel f c (x.0) h × AllValid (x.1)) × Known f cs xs h)
                (Known f (c ∷ cs)) (x ∷ xs) (λ h p. (p.0.0, p.0.1, p.1)))
