-- ===== src/Usb/Volume/Emits.antt =====
-- What a program over `Control` of rust_backend/crates/mobile/src/usb_audio/volume.rs writes: rules
-- for each construct, so that a function's proof follows its `do` block.
use spoti_flac_mobile.Prelude.Result.{Result-cases}
use spoti_flac_mobile.Prelude.Text.{Text}
use spoti_flac_mobile.Prelude.{
  ℕ, List, [], ◌∷◌, ◌++◌, true, false, ◌≡◌, refl, sym, arith, inl, inr, ◌∙◌, ap, subst, In,
  In-append,
}
use spoti_flac_mobile.Prelude.Int.{ℤ}
use spoti_flac_mobile.Prelude.Result.{Result, ok, err}
use spoti_flac_mobile.Usb.Control.{
  Usb, ◌>>=◌, pure, fail, transfer, fill, Device, Transfer, Request, VolumeError, i16_at, continue,
  request_of, answered,
}

pub append_assoc : {A : Type 0} (xs ys zs : List A) → (xs ++ ys) ++ zs ≡ xs ++ (ys ++ zs)
append_assoc [] ys zs = refl
append_assoc (x ∷ xs) ys zs = rw (append_assoc xs ys zs)

-- `Q` holds of the selector and the level of each write.
abbrev pub WritesOnly : (ℕ → ℤ → Type 0) → List Transfer → Type 0
WritesOnly Q [] = Unit
WritesOnly Q (t ∷ ts) =
    (t.request.input ≡ false → Q (t.request.value) (i16_at (t.request.bytes) 0)) × WritesOnly Q ts

abbrev pub Grows : (ℕ → ℤ → Type 0) → List Transfer → List Transfer → Type 0
Grows Q h h' = (new : List Transfer) × (h' ≡ new ++ h) × WritesOnly Q new

abbrev pub IsMonotone : (List Transfer → Type 0) → Type 0
IsMonotone P = (new h : List Transfer) → P h → P (new ++ h)

-- From a history with `Pre` the program writes what `Q` allows, and a result that is no error has
-- `Post` with the history that it leaves.
abbrev pub Triple :
    (ℕ → ℤ → Type 0)
    → {A : Type 0} → (List Transfer → Type 0)
    → Usb A
    → (A → List Transfer → Type 0)
    → Type 0
Triple Q {A = A} Pre m Post =
    (h : List Transfer)
    → Pre h
    → Grows Q h ((m h).1) × ((a : A) → (m h).0 ≡ ok a → Post a ((m h).1))

ok_inj : {A : Type 0} (a b : A) → ◌≡◌ {A = Result A VolumeError} (ok a) (ok b) → a ≡ b
ok_inj a b e = ground arith

err-ok :
    {A : Type 0} {G : Type 0} (x : VolumeError) (b : A)
    → ◌≡◌ {A = Result A VolumeError} (err x) (ok b)
    → G
err-ok x b e = absurd (ground arith)

bind-ok :
    {A B : Type 0} (m : Usb B) (k : B → Usb A) (h : List Transfer) (b : B)
    → (m h).0 ≡ ok b
    → (m >>= k) h ≡ k b ((m h).1)
bind-ok m k h b e = ap (λ r. continue r ((m h).1) k) e

bind-err :
    {A B : Type 0} (m : Usb B) (k : B → Usb A) (h : List Transfer) (x : VolumeError)
    → (m h).0 ≡ err x
    → (m >>= k) h ≡ (err x, (m h).1)
bind-err m k h x e = ap (λ r. continue r ((m h).1) k) e

module _ (Q : ℕ → ℤ → Type 0) where
  WritesOnly-append :
      (ts us : List Transfer) → WritesOnly Q ts → WritesOnly Q us → WritesOnly Q (ts ++ us)
  WritesOnly-append [] us p q = q
  WritesOnly-append (t ∷ ts) us p q = (p.0, WritesOnly-append ts us (p.1) q)

  Grows-refl : (h : List Transfer) → Grows Q h h
  Grows-refl h = ([], refl, tt)

  pub Grows-trans : (h i j : List Transfer) → Grows Q h i → Grows Q i j → Grows Q h j
  Grows-trans h i j (n, e, w) (m, f, v) =
      (m ++ n, f ∙ ap (◌++◌ m) e ∙ sym (append_assoc m n h), WritesOnly-append m n v w)

  module _ {A : Type 0} (Pre : List Transfer → Type 0) (Post : A → List Transfer → Type 0) where
    pub Triple-pure :
        (a : A) → ((h : List Transfer) → Pre h → Post a h) → Triple Q Pre (pure a) Post
    Triple-pure a k h p = (Grows-refl h, λ b e. subst (λ x. Post x h) (ok_inj a b e) (k h p))

    pub Triple-fail : (e : VolumeError) → Triple Q Pre (fail {A = A} e) Post
    Triple-fail e h p = (Grows-refl h, λ a e'. err-ok e a e')

    pub Triple-bind :
        {B : Type 0} {Mid : B → List Transfer → Type 0} (m : Usb B) (k : B → Usb A)
        → Triple Q Pre m Mid
        → ((b : B) → Triple Q (Mid b) (k b) Post)
        → Triple Q Pre (m >>= k) Post
    Triple-bind {Mid = Mid} m k t u h p =
        let (g, post) = t h p in
        elim (Result-cases ((m h).0)) [
          | inl (b, e) ↦
              let (g', post') = u b ((m h).1) (post b e) in
              let ee : (m >>= k) h ≡ k b ((m h).1) = bind-ok m k h b e in
              subst (λ r. Grows Q h (r.1) × ((a : A) → r.0 ≡ ok a → Post a (r.1))) (sym ee)
                (Grows-trans h ((m h).1) ((k b ((m h).1)).1) g g', post')
          | inr (x, e) ↦
              subst (λ r. Grows Q h (r.1) × ((a : A) → r.0 ≡ ok a → Post a (r.1)))
                (sym (bind-err m k h x e)) (g, λ a f. err-ok x a f)
        ]

    -- What is true of a history stays true as the history grows.
    pub Triple-frame :
        (m : Usb A)
        → IsMonotone Pre
        → Triple Q Pre m Post
        → Triple Q Pre m (λ a h. Pre h × Post a h)
    Triple-frame m mono t h p =
        let (g, post) = t h p in
        let (new, e, w) = g in (g, λ a f. (subst Pre (sym e) (mono new h p), post a f))

-- The history has a transfer with this request that brought these bytes.
abbrev pub HasRead : Request → List ℕ → List Transfer → Type 0
HasRead q bytes h =
    (t : Transfer) × In t h
    × (t.request ≡ q)
    × (a : List ℕ) × (t.answer ≡ ok a)
    × (bytes ≡ fill (q.bytes) a)

pub HasRead-IsMonotone : (q : Request) (bytes : List ℕ) → IsMonotone (HasRead q bytes)
HasRead-IsMonotone q bytes new h (t, i, e, a, f, g) = (t, In-append t new h i, e, a, f, g)

module _ (Q : ℕ → ℤ → Type 0) where
  answered-read :
      (q : Request) (r : Result (List ℕ) Text)
      → q.input ≡ true
      → Triple Q (λ h. Unit) (answered q r) (HasRead q)
  answered-read q (ok a) i h p =
      let t : Transfer = record { request = q; answer = ok a } in
      (
        (t ∷ [], refl, ((λ f. absurd (ground arith)), tt)),
        λ b e. (t, inl refl, refl, a, refl, sym (ok_inj (fill (q.bytes) a) b e)),
      )
  answered-read q (err x) i h p = (
    (record { request = q; answer = err x } ∷ [], refl, ((λ f. absurd (ground arith)), tt)),
    λ b e. err-ok (VolumeError.control x) b e,
  )

  answered-write :
      (q : Request) (r : Result (List ℕ) Text)
      → Q (q.value) (i16_at (q.bytes) 0)
      → Triple Q (λ h. Unit) (answered q r) (λ a h. Unit)
  answered-write q (ok a) i h p =
      ((record { request = q; answer = ok a } ∷ [], refl, ((λ f. i), tt)), λ b e. tt)
  answered-write q (err x) i h p =
      ((record { request = q; answer = err x } ∷ [], refl, ((λ f. i), tt)), λ b e. tt)

module _ (Q : ℕ → ℤ → Type 0) (device : Device) (request value index : ℕ) (bytes : List ℕ) where
  pub Triple-read :
      Triple Q
        (λ h. Unit)
        (transfer device true request value index bytes)
        (HasRead (request_of true request value index bytes))
  unfolding transfer
  Triple-read h p =
      let q = request_of true request value index bytes in answered-read Q q (device h q) refl h p

  pub Triple-write :
      Q value (i16_at bytes 0)
      → Triple Q (λ h. Unit) (transfer device false request value index bytes) (λ a h. Unit)
  unfolding transfer
  Triple-write w h p =
      let q = request_of false request value index bytes in answered-write Q q (device h q) w h p
