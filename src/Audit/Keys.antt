-- ===== src/Audit/Keys.antt =====
-- Keys, hashes, and the encryption that the package `cryptography` gives.
use delta_protocol.Prelude.{◌≡◌, true, false, Option, some, ◌++◌, all, length, drop, ◌==◌}
use delta_protocol.Text.{Text, Bytes, lit, starts_with, non_empty}
use delta_protocol.Utf8.{encode}
use delta_protocol.Base64.{b64url_encode, b64url_decode}
use delta_protocol.Base64.RoundTrip.{is_byte}
use delta_protocol.Json.{Value, ℤ, str, as_text}
use delta_protocol.Json.Dump.{dump_int}
use delta_protocol.Json.Bytes.{json_bytes}
use delta_protocol.Result.{Result, ok, ◌>>=◌, ◌>>◌, require, or_raise}
use delta_protocol.Crypto.{Crypto, sha256_prefixed}

-- The exceptions, by their cause. `unhashable` is the `TypeError` of a list or dict that is looked
-- up in a set, `attribute_error` the call of `get` on what is no dict, `not_an_integer` what `int`
-- raises, and `no_shared_secret` the `ValueError` of an exchange.
pub data AuditError : Type 0 where
  unencodable unhashable attribute_error not_an_integer : AuditError
  empty_value not_base64url wrong_prefix wrong_length no_shared_secret : AuditError
  public_key_not_object missing_evidence_file evidence_hash_mismatch : AuditError
  record_hash_mismatch : AuditError

abbrev pub Outcome : Type 0 → Type 0
Outcome A = Result AuditError A

-- X25519, HKDF with SHA-256, and AES-GCM. A key is its raw bytes.
pub record Sealing : Type 0 where
  -- `hashlib.sha256(data).digest()`
  pub digest : Bytes → Bytes
  -- `private_key.public_key()`
  pub public_of : Bytes → Bytes
  -- `private_key.exchange(public_key)`; `none` where the shared secret is zero.
  pub exchange : Bytes → Bytes → Option Bytes
  -- `HKDF(..., salt=salt, info=HKDF_INFO).derive(secret)`
  pub derive : Bytes → Bytes → Bytes
  -- `AESGCM(key).encrypt(nonce, plaintext, aad)`
  pub seal : Bytes → Bytes → Bytes → Bytes → Bytes
  -- `AESGCM(key).decrypt(nonce, ciphertext, aad)`; `none` is `InvalidTag`.
  pub unseal : Bytes → Bytes → Bytes → Bytes → Option Bytes

-- What the package documents: both sides of an exchange get one secret, and what was sealed is
-- opened with the same key, nonce and associated data.
pub record IsSound (s : Sealing) : Type 0 where
  pub agrees :
      (private other : Bytes)
      → s.exchange private (s.public_of other) ≡ s.exchange other (s.public_of private)
  pub length-public_of : (private : Bytes) → length (s.public_of private) ≡ 32
  pub bytes-public_of : (private : Bytes) → all is_byte (s.public_of private) ≡ true
  pub opens :
      (key nonce plaintext aad : Bytes)
      → s.unseal key nonce (s.seal key nonce plaintext aad) aad ≡ some plaintext
  pub bytes-seal :
      (key nonce plaintext aad : Bytes) → all is_byte (s.seal key nonce plaintext aad) ≡ true
  pub non_empty-seal :
      (key nonce plaintext aad : Bytes) → non_empty (s.seal key nonce plaintext aad) ≡ true

-- `canonical_json_bytes`
unfoldable pub canonical_json_bytes : Value → Outcome Bytes
canonical_json_bytes v = or_raise (json_bytes false v) unencodable

-- `canonical_sha256`
unfoldable pub canonical_sha256 : Crypto → Value → Outcome Text
canonical_sha256 c v = do b ← canonical_json_bytes v; ok (sha256_prefixed c b)

-- `hash_text`
unfoldable pub hash_text : Crypto → Text → Outcome Text
hash_text c t = do b ← or_raise (encode t) unencodable; ok (sha256_prefixed c b)

-- `b64url_decode_unpadded`
unfoldable pub b64url_decode_unpadded : Value → Outcome Bytes
b64url_decode_unpadded v = do
  t ← or_raise (as_text v) empty_value
  require (non_empty t) empty_value
  or_raise (b64url_decode t) not_base64url

-- A key behind its prefix: `parse_public_key` and `parse_private_key`.
unfoldable pub parse_key : Text → Value → Outcome Bytes
parse_key prefix v = do
  t ← or_raise (as_text v) wrong_prefix
  require (starts_with t prefix) wrong_prefix
  raw ← b64url_decode_unpadded (str (drop (length prefix) t))
  require (length raw == 32) wrong_length
  ok raw

unfoldable pub parse_public_key : Value → Outcome Bytes
parse_public_key v = parse_key (lit "x25519:") v

unfoldable pub parse_private_key : Value → Outcome Bytes
parse_private_key v = parse_key (lit "x25519seed:") v

-- `public_key_text`
unfoldable pub public_key_text : Bytes → Text
public_key_text raw = lit "x25519:" ++ b64url_encode raw

-- `derive_key`, where `record_hash` is printed into an f-string.
unfoldable pub derive_key : Sealing → Bytes → Text → ℤ → Outcome Bytes
derive_key s shared record_hash entry_index = do
  b ← or_raise (encode (record_hash ++ lit "|" ++ dump_int entry_index)) unencodable
  ok (s.derive (s.digest b) shared)

-- The private key of the sender and the public key of the recipient, or the other way around.
unfoldable pub shared_key : Sealing → Bytes → Bytes → Text → ℤ → Outcome Bytes
shared_key s private public record_hash entry_index = do
  shared ← or_raise (s.exchange private public) no_shared_secret
  derive_key s shared record_hash entry_index
