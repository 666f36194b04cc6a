-- ===== src/Usb/Framing/Markers.antt =====
-- rust_backend/crates/mobile/src/usb_audio/framing.rs: where the markers stand after
-- `finish_transfer`, and what it leaves.
use spoti_flac_mobile.Prelude.{
  List, ℕ, length, suc, ◌<◌, get_elem?, ◌≤◌, ◌≡◌, ◌*◌, zero, arith, ◌++◌, ◌-◌, ◌+◌, ◌∷◌, ap,
  length-set, length-append, some, ◌∙◌, set, take, get_elem?-set_self, [], drop, if_cases,
  length-take, refl, length-drop, ◌==◌, get_elem?-set_ne, ◌/◌, replicate, length-replicate, Bool,
  ltb, false, none, true, if◌then◌else◌, not,
}
use spoti_flac_mobile.Usb.Framing.{
  mark_sample, mark_frame, mark_frames, flip, finish_transfer, silence, is_dop,
}
use spoti_flac_mobile.Usb.Descriptors.Formats.{Encoding, UsbOutputFormat}

get_elem?-append_left :
    (xs ys : List ℕ) (i : ℕ) → i < length xs → get_elem? (xs ++ ys) i ≡ get_elem? xs i
get_elem?-append_left [] ys i h = absurd (omega arith)
get_elem?-append_left (x ∷ xs) ys zero h = refl
get_elem?-append_left (x ∷ xs) ys (suc i) h = get_elem?-append_left xs ys i (omega arith)

get_elem?-append_right :
    (xs ys : List ℕ) (i : ℕ) → length xs ≤ i → get_elem? (xs ++ ys) i ≡ get_elem? ys (i - length xs)
get_elem?-append_right [] ys i h = ap (get_elem? ys) (omega arith)
get_elem?-append_right (x ∷ xs) ys zero h = absurd (omega arith)
get_elem?-append_right (x ∷ xs) ys (suc i) h =
    get_elem?-append_right xs ys i (omega arith) ∙ ap (get_elem? ys) (omega arith)

length-mark_sample :
    (subslot marker : ℕ) (sample : List ℕ)
    → length (mark_sample subslot marker sample) ≡ length sample
unfolding mark_sample
length-mark_sample subslot marker sample = ground (
  arith,
  length-set sample (subslot - 1) marker,
  length-set (set sample (subslot - 1) marker) 0 0,
)

length-mark_frame :
    (n subslot marker : ℕ) (bytes : List ℕ)
    → length (mark_frame n subslot marker bytes) ≡ length bytes
unfolding mark_frame
length-mark_frame zero subslot marker bytes = refl
length-mark_frame (suc n) subslot marker bytes = omega (
  arith,
  length-append (mark_sample subslot marker (take subslot bytes))
      (mark_frame n subslot marker (drop subslot bytes)),
  length-mark_sample subslot marker (take subslot bytes),
  length-mark_frame n subslot marker (drop subslot bytes),
  length-take subslot bytes,
  length-drop subslot bytes,
)

-- The marker after a number of frames.
abbrev pub marker_after : ℕ → ℕ → ℕ
marker_after zero marker = marker
marker_after (suc n) marker = marker_after n (flip marker)

get_elem?-mark_sample :
    (subslot marker : ℕ) (sample : List ℕ)
    → 0 < subslot
    → length sample ≡ subslot
    → get_elem? (mark_sample subslot marker sample) (subslot - 1) ≡ some marker
unfolding mark_sample
get_elem?-mark_sample subslot marker sample h e =
    let s = get_elem?-set_self sample (subslot - 1) marker (omega arith) in
    if_cases (λ x. get_elem? x (subslot - 1) ≡ some marker) (subslot == 4)
      (set (set sample (subslot - 1) marker) 0 0) (set sample (subslot - 1) marker)
      (λ four.
        get_elem?-set_ne (set sample (subslot - 1) marker) {i = 0} {j = subslot - 1} 0
          (λ z. ground arith)
        ∙ s)
      (λ other. s)

get_elem?-mark_frame :
    (n subslot marker c : ℕ) (bytes : List ℕ)
    → 0 < subslot
    → c < n
    → n * subslot ≤ length bytes
    → get_elem? (mark_frame n subslot marker bytes) (c * subslot + (subslot - 1)) ≡ some marker
unfolding mark_frame
get_elem?-mark_frame zero subslot marker c bytes h k l = absurd (omega arith)
get_elem?-mark_frame (suc n) subslot marker zero bytes h k l =
    let t : length (take subslot bytes) ≡ subslot = omega (arith, length-take subslot bytes) in
    let first = mark_sample subslot marker (take subslot bytes) in
    let m = length-mark_sample subslot marker (take subslot bytes) in
    get_elem?-append_left first (mark_frame n subslot marker (drop subslot bytes))
      (0 * subslot + (subslot - 1)) (omega arith)
    ∙ ap (get_elem? first) (omega arith)
    ∙ get_elem?-mark_sample subslot marker (take subslot bytes) h t
get_elem?-mark_frame (suc n) subslot marker (suc c) bytes h k l =
    let t : length (take subslot bytes) ≡ subslot = omega (arith, length-take subslot bytes) in
    let m = length-mark_sample subslot marker (take subslot bytes) in
    let i = suc c * subslot + (subslot - 1) in
    get_elem?-append_right (mark_sample subslot marker (take subslot bytes))
      (mark_frame n subslot marker (drop subslot bytes)) i (omega arith)
    ∙ ap (get_elem? (mark_frame n subslot marker (drop subslot bytes))) (omega arith)
    ∙ get_elem?-mark_frame n subslot marker c (drop subslot bytes) h (omega arith)
        (omega (arith, length-drop subslot bytes))

-- A sample's last byte lies inside its frame.
place_lt :
    (subslot channels c : ℕ)
    → 0 < subslot
    → c < channels
    → c * subslot + (subslot - 1) < subslot * channels
place_lt subslot zero c h k = absurd (omega arith)
place_lt subslot (suc channels) zero h k = omega arith
place_lt subslot (suc channels) (suc c) h k =
    omega (arith, place_lt subslot channels c h (omega arith))

get_elem?-mark_frames :
    (n subslot channels marker i c : ℕ) (bytes : List ℕ)
    → 0 < subslot
    → i < n
    → c < channels
    → n * (subslot * channels) ≤ length bytes
    → get_elem?
        ((mark_frames n subslot channels marker bytes).0)
        (i * (subslot * channels) + c * subslot + (subslot - 1))
      ≡ some (marker_after i marker)
unfolding mark_frames
get_elem?-mark_frames zero subslot channels marker i c bytes h k j l = absurd (omega arith)
get_elem?-mark_frames (suc n) subslot channels marker zero c bytes h k j l =
    let frame = subslot * channels in
    let t : length (take frame bytes) ≡ frame = omega (arith, length-take frame bytes) in
    let first = mark_frame channels subslot marker (take frame bytes) in
    let m = length-mark_frame channels subslot marker (take frame bytes) in
    let p = place_lt subslot channels c h j in
    get_elem?-append_left first
      ((mark_frames n subslot channels (flip marker) (drop frame bytes)).0)
      (0 * frame + c * subslot + (subslot - 1)) (omega arith)
    ∙ ap (get_elem? first) (omega arith)
    ∙ get_elem?-mark_frame channels subslot marker c (take frame bytes) h j (omega arith)
get_elem?-mark_frames (suc n) subslot channels marker (suc i) c bytes h k j l =
    let frame = subslot * channels in
    let t : length (take frame bytes) ≡ frame = omega (arith, length-take frame bytes) in
    let first = mark_frame channels subslot marker (take frame bytes) in
    let rest = (mark_frames n subslot channels (flip marker) (drop frame bytes)).0 in
    let m = length-mark_frame channels subslot marker (take frame bytes) in
    get_elem?-append_right first rest (suc i * frame + c * subslot + (subslot - 1)) (omega arith)
    ∙ ap (get_elem? rest) (omega arith)
    ∙ get_elem?-mark_frames n subslot channels (flip marker) i c (drop frame bytes) h (omega arith)
        j (omega (arith, length-drop frame bytes))

length-mark_frames :
    (n subslot channels marker : ℕ) (bytes : List ℕ)
    → (length ((mark_frames n subslot channels marker bytes).0) ≡ length bytes)
      × ((mark_frames n subslot channels marker bytes).1 ≡ marker_after n marker)
unfolding mark_frames
length-mark_frames zero subslot channels marker bytes = (refl, refl)
length-mark_frames (suc n) subslot channels marker bytes =
    let frame = subslot * channels in
    let first = mark_frame channels subslot marker (take frame bytes) in
    let (l, m) = length-mark_frames n subslot channels (flip marker) (drop frame bytes) in
    (
      omega (
        arith,
        length-append first ((mark_frames n subslot channels (flip marker) (drop frame bytes)).0),
        length-mark_frame channels subslot marker (take frame bytes),
        l,
        length-take frame bytes,
        length-drop frame bytes,
      ),
      m,
    )

div_mul_le : (n d : ℕ) → 0 < d → n / d * d ≤ n
div_mul_le n d h = grind arith

positive_mul : (a b : ℕ) → 0 < a → 0 < b → 0 < a * b
positive_mul a b h k = grind arith

last_branch :
    {A : Type 0} (a b c : Bool) (x y z w : A)
    → a ≡ false
    → b ≡ true
    → c ≡ false
    → (if a then x else if not b then y else if c then z else w) ≡ w
last_branch a b c x y z w p q r = ground arith

-- A DoP transfer, full or not, returns with its length kept; the last byte of each sample of the
-- frame i is the marker after i flips, so the markers alternate through the silence, and the marker
-- left for the next transfer is the one after all the frames.
pub finish_transfer-dop :
    (bytes : List ℕ) (real_bytes marker i c : ℕ) (format : UsbOutputFormat)
    → format.encoding ≡ Encoding.dop
    → 0 < format.subslot
    → 0 < format.channels
    → real_bytes ≤ length bytes
    → i < length bytes / (format.subslot * format.channels)
    → c < format.channels
    → let frame = format.subslot * format.channels in
      (out : List ℕ) × (finish_transfer bytes real_bytes format marker
        ≡ some (out, marker_after (length bytes / frame) marker))
      × (length out ≡ length bytes)
      × (get_elem? out (i * frame + c * format.subslot + (format.subslot - 1))
          ≡ some (marker_after i marker))
unfolding finish_transfer
finish_transfer-dop bytes real_bytes marker i c format e h k real_le u v =
    let frame = format.subslot * format.channels in
    let frames = length bytes / frame in
    let fill = replicate (length bytes - real_bytes) (silence format.encoding) in
    let filled = take real_bytes bytes ++ fill in
    let l : length filled ≡ length bytes = omega (
      arith,
      length-append (take real_bytes bytes) fill,
      length-take real_bytes bytes,
      length-replicate (length bytes - real_bytes) (silence format.encoding),
    ) in
    let p = positive_mul format.subslot format.channels h k in
    let (n, m) = length-mark_frames frames format.subslot format.channels marker filled in
    let d = div_mul_le (length bytes) frame p in
    let r = mark_frames frames format.subslot format.channels marker filled in
    (
      r.0,
      last_branch (ltb (length bytes) real_bytes) (is_dop format.encoding) (frame == 0) none
            (some (filled, marker)) none (some r) (ground arith) (ap is_dop e) (ground arith)
          ∙ ap (λ z. some (r.0, z)) m,
      n ∙ l,
      get_elem?-mark_frames frames format.subslot format.channels marker i c filled h u v
          (omega arith),
    )
