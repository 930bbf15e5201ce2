-- ===== src/Genesis/Envelope.antt =====
-- `verify_signature_envelope`, with the formats of hashes, keys and signatures.
use delta_protocol.Prelude.{ℕ, Bool, false, ◌==◌, drop, length}
use delta_protocol.Text.{Text, Bytes, lit, text_eq, starts_with, lower}
use delta_protocol.Base64.{b64url_decode}
use delta_protocol.Json.{Value, Fields, str, as_text, as_dict}
use delta_protocol.Json.Bytes.{json_bytes}
use delta_protocol.Result.{ok, ◌>>=◌, ◌>>◌, require, or_raise}
use delta_protocol.Crypto.{Crypto}
use delta_protocol.Sdk.Format.{is_int16}
use delta_protocol.Genesis.Chain.{
  Outcome, not_object, bad_format, unencodable, signature_invalid, sha256_object, require_field,
  require_field_equal,
}

-- `assert_hash_format`; `wide` tells the decimal digits that `int` takes beside those of ASCII.
unfoldable pub assert_hash_format : (ℕ → Bool) → Text → Value → Outcome (Unit {0})
assert_hash_format wide name value = do
  t ← or_raise (as_text value) (bad_format name)
  require (starts_with t (lit "sha256:")) (bad_format name)
  let digest = drop (length (lit "sha256:")) t
  require (length digest == 64) (bad_format name)
  require (text_eq (lower digest) digest) (bad_format name)
  require (is_int16 wide digest) (bad_format name)

-- The bytes behind a prefix, in the number that the format asks for.
unfoldable pub prefixed_bytes : Text → ℕ → Text → Value → Outcome Bytes
prefixed_bytes prefix size name value = do
  t ← or_raise (as_text value) (bad_format name)
  require (starts_with t prefix) (bad_format name)
  raw ← or_raise (b64url_decode (drop (length prefix) t)) (bad_format name)
  require (length raw == size) (bad_format name)
  ok raw

-- `public_key_from_delta` and `signature_from_delta`
unfoldable pub public_key_from_delta : Value → Outcome Bytes
public_key_from_delta value = prefixed_bytes (lit "ed25519:") 32 (lit "public_key") value

unfoldable pub signature_from_delta : Value → Outcome Bytes
signature_from_delta value = prefixed_bytes (lit "ed25519sig:") 64 (lit "signature") value

-- `verify_signature`
unfoldable pub verify_signature : Crypto → Value → Value → Value → Outcome (Unit {0})
verify_signature c public_key_value target signature_value = do
  public_key ← public_key_from_delta public_key_value
  signature ← signature_from_delta signature_value
  message ← or_raise (json_bytes false target) unencodable
  require (c.verifies public_key signature message) signature_invalid

-- What an envelope is checked against.
pub record EnvelopeExpected : Type 0 where
  pub role : Text
  pub target_type : Text
  pub target_hash : Text
  pub public_key : Text
  pub target : Value

-- The seven fields in front of the signature.
unfoldable pub check_envelope_header : Fields → EnvelopeExpected → Outcome (Unit {0})
check_envelope_header e x = do
  require_field_equal e (lit "type") (lit "delta_signature")
  require_field_equal e (lit "protocol_version") (lit "DELTA-0")
  require_field_equal e (lit "role") x.role
  require_field_equal e (lit "alg") (lit "Ed25519")
  require_field_equal e (lit "target_type") x.target_type
  require_field_equal e (lit "target_hash") x.target_hash
  require_field_equal e (lit "public_key") x.public_key

-- `verify_signature_envelope`: the hash of the envelope.
unfoldable pub verify_signature_envelope :
    Crypto → (ℕ → Bool) → Value → EnvelopeExpected → Outcome Text
verify_signature_envelope c wide envelope x = do
  e ← or_raise (as_dict envelope) (not_object (lit "envelope"))
  check_envelope_header e x
  signature ← require_field e (lit "signature")
  checked ← signature_from_delta signature
  verify_signature c (str x.public_key) x.target signature
  h ← sha256_object c envelope
  assert_hash_format wide (lit "envelope_hash") (str h)
  ok h
