-- ===== src/Extensions/Auth/Exchange.antt =====
-- rust_backend/crates/extensions/src/auth/client.rs: the exchange of a code for tokens, which reads
-- the verifier, asks the server, and then writes the tokens. The strings are those of the document
-- of the call; the answer of the server is that of the network.
pub mod Unchanged
pub mod Guard
use spoti_flac_mobile.Extensions.Auth.{next_generation, second, no_record}
use spoti_flac_mobile.Prelude.{
  Option, Bool, some, ℕ, [], true, if◌then◌else◌, ◌||◌, none, not, ◌==◌,
}
use spoti_flac_mobile.Prelude.Result.{Result, ok, err}
use spoti_flac_mobile.Prelude.Int.{ℤ, wrap_i64, pos, ◌+ℤ◌, ◌*ℤ◌}
use spoti_flac_mobile.BTreeMap
use spoti_flac_mobile.Extensions.Auth.{
  unwrap_or, edit, Text, State, Record, second, is_empty, codes, no_record, next_generation,
}

-- `pkce_challenge` is a hash, an argument.
unfoldable pub store_pkce :
    (Text → Text) → Text → Text → Bool → State → Result (Unit {0}) Text × State
store_pkce pkce_challenge id verifier clear_code s =
    edit id
      (λ r. record r {
        verifier = verifier;
        challenge = pkce_challenge verifier;
        code = if clear_code then [] else r.code;
      })
      s

abbrev pub generation_of : Text → State → ℕ
generation_of id s = unwrap_or 0 (BTreeMap.get id s.generations)

abbrev pub verifier_of : Option Record → Text
verifier_of none = []
verifier_of (some r) = r.verifier

-- What `exchange` reads before it asks the server: the verifier and the generation.
unfoldable pub exchange_start : Text → Text → Text → Text → State → Result (Text × ℕ) Text
exchange_start id token_url client code s =
    let verifier = verifier_of (BTreeMap.get id s.records) in
    if is_empty token_url || is_empty client || is_empty code
    then err (codes "tokenUrl, clientId, and code are required")
    else if is_empty verifier
    then err (codes "no PKCE verifier found - call generatePKCE or startOAuthWithPKCE first")
    else ok (verifier, generation_of id s)

-- The expiry that a positive number of seconds sets.
abbrev pub expiry_after : ℤ → Option ℤ → Option ℤ → Option ℤ
expiry_after now none old = old
expiry_after now (some expires) old = some (now +ℤ wrap_i64 (expires *ℤ pos second))

abbrev pub with_tokens : Text → Text → ℤ → Option ℤ → Record → Record
with_tokens access refresh now expires r = record r {
  access_token = access;
  refresh_token = refresh;
  is_authenticated = true;
  expires_at = expiry_after now expires r.expires_at;
  verifier = [];
  challenge = [];
}

-- The end of `exchange`, under the lock: `generation` was read at the start, `expires` is there if
-- the server sent more than 0.0 seconds, as an `i64`.
unfoldable pub commit :
    Text → ℕ → Text → Text → ℤ → Option ℤ → State → Result (Unit {0}) Text × State
commit id generation access refresh now expires s =
    if s.closed || not (generation_of id s == generation)
    then (err (codes "authentication state changed during token exchange"), s)
    else (
      ok tt,
      record s {
        records =
            BTreeMap.insert id
              (with_tokens access refresh now expires
                (unwrap_or no_record (BTreeMap.get id s.records)))
              s.records;
        generations = next_generation id s.generations;
      },
    )
