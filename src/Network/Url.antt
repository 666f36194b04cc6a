-- ===== src/Network/Url.antt =====
-- rust_backend/crates/network/src/url.rs: the parts of a URL, and how they are written. A `String`
-- is its bytes of UTF-8; all that is written is ASCII.
pub mod Written
use spoti_flac_mobile.Prelude.{
  ℕ, Bool, Option, none, some, List, [], ◌∷◌, ◌++◌, ◌&&◌, ◌||◌, ◌+◌, ◌*◌, ◌/◌, ◌%◌, if◌then◌else◌,
  leb, ◌==◌, not, true, false,
}
use spoti_flac_mobile.Prelude.Text.{Text, is_empty, codes, ◌=ₜ◌}
use spoti_flac_mobile.Prelude.Result.{Result, ok, err, ◌>>=◌}
use spoti_flac_mobile.Network.Query.{hex_digit, to_digit, hex_byte, push_byte, contains}

pub record UrlParts : Type 0 where
  pub scheme : Text
  pub hostname : Text
  pub path : Text
  pub raw_path : Text
  pub raw_query : Text
  pub force_query : Bool
  pub fragment : Text
  pub port : Option Text
  pub has_credentials : Bool
  pub host : Text
  pub username : Text
  pub password : Option Text
  pub opaque : Text
  pub omit_host : Bool

-- `u8::is_ascii_alphanumeric`.
abbrev pub is_alphanumeric : ℕ → Bool
is_alphanumeric b = leb 48 b && leb b 57 || leb 65 b && leb b 90 || leb 97 b && leb b 122

abbrev pub is_host_byte : ℕ → Bool
is_host_byte b = is_alphanumeric b || contains b (codes "-._~!$&'()*+,;=:[]")

abbrev pub is_fragment_byte : ℕ → Bool
is_fragment_byte b = is_host_byte b || contains b (codes "/%@?")

-- What a path that is kept is made of, and what its encoding keeps.
abbrev pub is_raw_byte : ℕ → Bool
is_raw_byte b = is_alphanumeric b || contains b (codes "-._~!$&'()*+,;=:[]/%@")

abbrev pub is_path_byte : ℕ → Bool
is_path_byte b = is_alphanumeric b || contains b (codes "-._~$&+,/:;=@")

abbrev pub percent_byte : Bool → ℕ → Text
percent_byte true b = b ∷ []
percent_byte false b = 37 ∷ hex_digit (b / 16) ∷ hex_digit (b % 16) ∷ []

-- The loops of `escape` and `escaped_path`: what is not allowed is `%{byte:02X}`.
unfoldable pub percent : (ℕ → Bool) → Text → Text
percent allowed [] = []
percent allowed (b ∷ bytes) = percent_byte (allowed b) b ++ percent allowed bytes

-- `decode` with `Escape::Path`.
unfoldable mutual
  pub decode_path : Text → Option Text
  decode_path [] = some []
  decode_path (b ∷ bytes) =
      let rest = decode_path bytes in
      let escaped = decode_percent bytes in if b == 37 then escaped else push_byte (some b) rest

  -- After a `%`.
  pub decode_percent : Text → Option Text
  decode_percent [] = none
  decode_percent (h ∷ []) = none
  decode_percent (h ∷ l ∷ bytes) =
      push_byte (hex_byte (to_digit h) (to_digit l)) (decode_path bytes)

unfoldable pub all_raw : Text → Bool
all_raw [] = true
all_raw (b ∷ bytes) = is_raw_byte b && all_raw bytes

abbrev pub unwrap_or_default : Option Text → Text
unwrap_or_default none = []
unwrap_or_default (some s) = s

unfoldable pub escaped_path : UrlParts → Text
escaped_path u =
    if all_raw u.raw_path
    then u.raw_path
    else percent is_path_byte (unwrap_or_default (decode_path u.raw_path))

abbrev pub with_port : Text → Option Text → Text
with_port host none = host
with_port host (some port) = if is_empty port then host else host ++ (58 ∷ port)

unfoldable pub authority : UrlParts → Text
authority u =
    with_port (if contains 58 u.hostname then 91 ∷ u.hostname ++ (93 ∷ []) else u.hostname) u.port

-- The scheme, the authority and the path.
unfoldable pub display_base : UrlParts → Text
display_base u = u.scheme ++ (codes "://" ++ (percent is_host_byte (authority u) ++ escaped_path u))

unfoldable pub display_url : UrlParts → Text
display_url u =
    display_base u
    ++ ((if u.force_query || not (is_empty u.raw_query) then 63 ∷ u.raw_query else [])
        ++ (if is_empty u.fragment then [] else 35 ∷ percent is_fragment_byte u.fragment))

-- `NetworkSession::validate_auth_url` (client.rs): `checked` is what `check` says, `parsed` what
-- `UrlParts::parse` gives of the input, `private` what the look-ups of the host say.
unfoldable pub validate_auth_url :
    Result (Unit {0}) Text → Option UrlParts → Bool → Result Bool Text → Result UrlParts Text
validate_auth_url (err e) parsed allow private = err e
validate_auth_url (ok passed) none allow private = err (codes "invalid auth URL")
validate_auth_url (ok passed) (some url) allow private =
    if not (url.scheme =ₜ codes "https")
    then err (codes "invalid auth URL: only https is allowed")
    else if is_empty url.hostname
    then err (codes "invalid auth URL: hostname is required")
    else if url.has_credentials
    then err (codes "invalid auth URL: embedded credentials are not allowed")
    else if allow
    then ok url
    else private >>= λ p.
        if p then err (codes "invalid auth URL: private/local network is not allowed") else ok url
