-- ===== src/Usb/Descriptors.antt =====
-- rust_backend/crates/mobile/src/usb_audio/descriptors.rs: the parser of the descriptors of a USB
-- audio device. A descriptor is a list of bytes; the guards of each branch keep its reads in range.
pub mod Fuel
pub mod Formats
pub mod Playable
use spoti_flac_mobile.Prelude.{
  ℕ, zero, suc, Bool, false, Option, none, some, List, [], ◌∷◌, ◌++◌, ◌&&◌, ◌||◌, not, ◌==◌, ltb,
  leb, get_or, take, drop, length, ◌+◌, ◌*◌, ◌/◌, ◌%◌, if◌then◌else◌,
}
use spoti_flac_mobile.Prelude.Result.{Result, ok, err}
use spoti_flac_mobile.HashMap.{HashMap, insert, get}

pub data ParseError : Type 0 where
  malformed multiple_configurations : ParseError

pub record Endpoint : Type 0 where
  pub address : ℕ
  pub attributes : ℕ
  pub max_packet : ℕ
  pub interval : ℕ
  pub sync_address : ℕ
  pub rate_control : Bool

pub record Alternate : Type 0 where
  pub control : ℕ
  pub interface : ℕ
  pub alternate : ℕ
  pub uac2 : Bool
  pub terminal : ℕ
  pub clock : ℕ
  pub channels : ℕ
  pub bits : ℕ
  pub subslot : ℕ
  pub pcm : Bool
  pub rates : List (ℕ × ℕ)
  pub endpoints : List Endpoint

pub record Device : Type 0 where
  pub vendor : ℕ
  pub product : ℕ
  pub revision : ℕ
  pub alternates : List Alternate

-- The locals of the loop.
pub record Parser : Type 0 where
  pub device : Device
  pub current : Option Alternate
  pub control : ℕ
  pub is_control : Bool
  pub clocks : HashMap (ℕ × ℕ) ℕ
  pub configurations : ℕ

abbrev pub at : List ℕ → ℕ → ℕ
at d i = get_or d i 0

abbrev pub u16le : List ℕ → ℕ → ℕ
u16le d i = at d i + 256 * at d (i + 1)

abbrev pub u24le : List ℕ → ℕ → ℕ
u24le d i = at d i + 256 * at d (i + 1) + 65536 * at d (i + 2)

abbrev pub push_current : Parser → Parser
push_current p = elim p.current [
  | none ↦ p
  | some a ↦ record p {
    current = none;
    device = record (p.device) { alternates = p.device.alternates ++ (a ∷ []) };
  }
]

abbrev pub new_alternate : ℕ → List ℕ → Alternate
new_alternate control d = record {
  control = control;
  interface = at d 2;
  alternate = at d 3;
  uac2 = at d 7 == 32;
  terminal = 0;
  clock = 0;
  channels = 0;
  bits = 0;
  subslot = 0;
  pcm = false;
  rates = [];
  endpoints = [];
}

-- The branch for an interface descriptor.
unfoldable pub on_interface : List ℕ → Parser → Parser
on_interface d p =
    let q = push_current p in
    let audio = at d 5 == 1 in
    let control = if audio && at d 6 == 1 then at d 2 else q.control in
    let streaming = audio && at d 6 == 2 && ltb 0 (at d 3) && (at d 7 == 0 || at d 7 == 32) in
    record q {
      is_control = audio && at d 6 == 1 && at d 7 == 32;
      control = control;
      current = if streaming then some (new_alternate control d) else q.current;
    }

-- The format and the terminal of a class-specific descriptor.
unfoldable pub on_general : List ℕ → Alternate → Alternate
on_general d a =
    let b : Alternate = record a { terminal = at d 3 } in
    if leb 7 (length d) && at d 2 == 1
    then (if a.uac2 && leb 16 (length d) && at d 5 == 1
        then record b { pcm = at d 6 % 2 == 1; channels = at d 10 }
        else if not a.uac2
        then record b { pcm = u16le d 5 == 1 }
        else b)
    else a

-- The rates that follow one another, three bytes each, from place 8.
abbrev pub discrete_rates : ℕ → ℕ → List ℕ → List (ℕ × ℕ)
discrete_rates zero i d = []
discrete_rates (suc n) i d = (u24le d i, u24le d i) ∷ discrete_rates n (i + 3) d

unfoldable pub on_format : List ℕ → Alternate → Alternate
on_format d a =
    let b : Alternate = record a { channels = at d 4; subslot = at d 5; bits = at d 6 } in
    let count = at d 7 in
    if leb 6 (length d) && at d 2 == 2 && at d 3 == 1
    then (if a.uac2
        then record a { subslot = at d 4; bits = at d 5 }
        else if leb 8 (length d)
        then (if count == 0 && leb 14 (length d)
            then record b { rates = a.rates ++ ((u24le d 8, u24le d 11) ∷ []) }
            else if leb (8 + count * 3) (length d)
            then record b { rates = a.rates ++ discrete_rates count 8 d }
            else b)
        else a)
    else a

unfoldable pub on_endpoint : List ℕ → Alternate → Alternate
on_endpoint d a =
    let packet = u16le d 4 in
    record a {
      endpoints =
          a.endpoints
          ++ (record {
            address = at d 2;
            attributes = at d 3;
            max_packet = packet % 2048 * (1 + packet / 2048 % 4);
            interval = at d 6;
            sync_address = at d 8;
            rate_control = false;
          }
              ∷ []);
    }

-- `last_mut`.
abbrev pub set_rate_control : Bool → List Endpoint → List Endpoint
set_rate_control b [] = []
set_rate_control b (e ∷ []) = record e { rate_control = b } ∷ []
set_rate_control b (e ∷ f ∷ es) = e ∷ set_rate_control b (f ∷ es)

unfoldable pub on_rate_control : List ℕ → Alternate → Alternate
on_rate_control d a =
    if a.uac2 then a else record a { endpoints = set_rate_control (at d 3 % 2 == 1) a.endpoints }

abbrev pub with_current : (Alternate → Alternate) → Parser → Parser
with_current f p = elim p.current [ none ↦ p | some a ↦ record p { current = some (f a) } ]

-- The body of the loop, for one descriptor.
unfoldable pub step : List ℕ → Parser → Result Parser ParseError
step d p =
    let kind = at d 1 in
    let n = length d in
    if kind == 2
    then (if ltb 1 (p.configurations + 1)
        then err multiple_configurations
        else ok (record p { configurations = p.configurations + 1 }))
    else if kind == 1 && leb 18 n
    then ok (record p {
      device = record (p.device) {
        vendor = u16le d 8;
        product = u16le d 10;
        revision = u16le d 12;
      };
    })
    else if kind == 4 && leb 9 n
    then ok (on_interface d p)
    else if kind == 36 && p.is_control && leb 9 n && at d 2 == 2
    then ok (record p { clocks = insert (p.control, at d 3) (at d 7) p.clocks })
    else if kind == 36
    then ok (with_current (λ a. on_format d (on_general d a)) p)
    else if kind == 5 && leb 7 n
    then ok (with_current (on_endpoint d) p)
    else if kind == 37 && leb 4 n && at d 2 == 1
    then ok (with_current (on_rate_control d) p)
    else ok p

abbrev eq_pair : ℕ × ℕ → ℕ × ℕ → Bool
eq_pair x y = x.0 == y.0 && x.1 == y.1

-- The clock of each alternate, 0 when its terminal has none.
unfoldable pub resolve_clocks : HashMap (ℕ × ℕ) ℕ → List Alternate → List Alternate
resolve_clocks clocks [] = []
resolve_clocks clocks (a ∷ alternates) =
    record a { clock = elim (get eq_pair (a.control, a.terminal) clocks) [ none ↦ 0 | some c ↦ c ] }
    ∷ resolve_clocks clocks alternates

-- What follows the loop.
unfoldable pub finish : Parser → Device
finish p =
    let q = push_current p in
    record (q.device) { alternates = resolve_clocks q.clocks q.device.alternates }

abbrev pub and_then :
    Result Parser ParseError → (Parser → Result Device ParseError) → Result Device ParseError
and_then (ok p) k = k p
and_then (err e) k = err e

-- The loop over the bytes that are left; each descriptor has two bytes or more.
unfoldable pub parse_loop : ℕ → List ℕ → Parser → Result Device ParseError
parse_loop zero bytes p = err malformed
parse_loop (suc fuel) [] p = ok (finish p)
parse_loop (suc fuel) (len ∷ bytes) p =
    let rest : Parser → Result Device ParseError =
      λ q. parse_loop fuel (drop len (len ∷ bytes)) q in
    if ltb len 2 || ltb (length (len ∷ bytes)) len
    then err malformed
    else and_then (step (take len (len ∷ bytes)) p) rest

abbrev pub new_parser : Parser
new_parser = record {
  device = record { vendor = 0; product = 0; revision = 0; alternates = [] };
  current = none;
  control = 0;
  is_control = false;
  clocks = [];
  configurations = 0;
}

unfoldable pub parse : List ℕ → Result Device ParseError
parse bytes = parse_loop (length bytes + 1) bytes new_parser
