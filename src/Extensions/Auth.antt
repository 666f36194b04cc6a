-- ===== src/Extensions/Auth.antt =====
-- rust_backend/crates/extensions/src/auth.rs: the authentications of the extensions; `Auth/Callbacks` is
-- the callbacks that are pending. Times are nanoseconds; what the clock reads, and the random state, are arguments.
pub mod Callbacks
pub mod Owners
pub mod Keeps
pub mod Calls
pub mod Used
pub mod Once
pub mod Answers
pub mod Exchange
pub mod Flow
use spoti_flac_mobile.Prelude.{[], ◌∷◌}
use spoti_flac_mobile.Prelude.Result.{Result, err, ok, try}
use spoti_flac_mobile.Prelude.Text.{Text, is_empty, ◌=ₜ◌, codes}
use spoti_flac_mobile.Prelude.{
  ℕ, [], ℕ, ◌*◌, [], Option, Bool, List, true, false, some, ◌+◌, if◌then◌else◌, not, none, ◌%◌,
  ◌&&◌, ◌||◌, ◌^◌,
}
use spoti_flac_mobile.Prelude.Int.{ℤ, pos, ltb_ℤ, eq_ℤ, ◌-ℤ◌, ◌+ℤ◌, ◌*ℤ◌, wrap_i64}
use spoti_flac_mobile.Prelude.Trim.{trim}
use spoti_flac_mobile.BTreeMap
use spoti_flac_mobile.BTreeMap.{BTreeMap}

abbrev pub second : ℕ
second = 1000000000

abbrev pub pending_ttl : ℤ
pending_ttl = pos (180 * second)

pub record PendingAuthRequest : Type 0 where
  pub extension_id : Text
  pub auth_url : Text
  pub callback_url : Text
  pub nonce : Text
  pub created_at : ℤ

pub record Record : Type 0 where
  pub code : Text
  pub access_token : Text
  pub refresh_token : Text
  pub verifier : Text
  pub challenge : Text
  pub is_authenticated : Bool
  pub expires_at : Option ℤ

pub record State : Type 0 where
  pub records : BTreeMap Record
  pub generations : BTreeMap ℕ
  pub requests : BTreeMap PendingAuthRequest
  pub owners : BTreeMap Text
  pub closed : Bool

abbrev pub no_record : Record
no_record = record {
  code = [];
  access_token = [];
  refresh_token = [];
  verifier = [];
  challenge = [];
  is_authenticated = false;
  expires_at = none;
}

abbrev pub default : State
default = record { records = []; generations = []; requests = []; owners = []; closed = false }

abbrev pub unwrap_or {ℓ} : {A : Type ℓ} → A → Option A → A
unwrap_or d none = d
unwrap_or d (some a) = a

-- `generations.entry(id).or_default()`, and one more, as a `u64`.
unfoldable pub next_generation : Text → BTreeMap ℕ → BTreeMap ℕ
next_generation id m = BTreeMap.insert id ((unwrap_or 0 (BTreeMap.get id m) + 1) % 2 ^ 64) m

unfoldable pub edit : Text → (Record → Record) → State → Result (Unit {0}) Text × State
edit id f s = if s.closed then (err (codes "extension environment closed"), s) else (
  ok tt,
  record s {
    generations = next_generation id s.generations;
    records = BTreeMap.insert id (f (unwrap_or no_record (BTreeMap.get id s.records))) s.records;
  },
)

unfoldable pub set_code : Text → Text → State → Result (Unit {0}) Text × State
set_code id code s = edit id (λ r. record r { code = code }) s

-- Seconds that a token lives, after `wrapping_mul` in an `i64`.
abbrev pub expiry_in : ℤ → ℤ → Option ℤ
expiry_in now expires_in =
    if ltb_ℤ (pos 0) expires_in then some (now +ℤ wrap_i64 (expires_in *ℤ pos second)) else none

unfoldable pub set_tokens : Text → Text → Text → ℤ → ℤ → State → Result (Unit {0}) Text × State
set_tokens id access refresh expires_in now s =
    edit id
      (λ r. record r {
        access_token = access;
        refresh_token = refresh;
        is_authenticated = not (is_empty access);
        expires_at = expiry_in now expires_in;
      })
      s

abbrev pub code_of : Option Record → Option Text
code_of none = none
code_of (some r) = if is_empty r.code then none else some r.code

unfoldable pub get_code : Text → State → Option Text
get_code id s = code_of (BTreeMap.get id s.records)

abbrev pub is_current : ℤ → Option ℤ → Bool
is_current now none = true
is_current now (some expires) = not (ltb_ℤ expires now)

abbrev pub authenticated_by : ℤ → Option Record → Bool
authenticated_by now none = false
authenticated_by now (some r) = r.is_authenticated && is_current now r.expires_at

unfoldable pub authenticated : Text → ℤ → State → Bool
authenticated id now s = authenticated_by now (BTreeMap.get id s.records)

abbrev pub shutdown : State → State
shutdown s = record default { closed = true }
