-- ===== src/BundleSign/Keys.antt =====
-- Keys and hashes of the signing tool.
use delta_protocol.Prelude.{◌≡◌, true, false, Option, ◌++◌, all, length, drop, ◌==◌, if◌then◌else◌}
use delta_protocol.Text.{Text, Bytes, lit, starts_with, strip}
use delta_protocol.Utf8.{encode}
use delta_protocol.Base64.{b64url_encode, b64url_decode}
use delta_protocol.Base64.RoundTrip.{is_byte}
use delta_protocol.Json.{Value, Fields, str, get, as_text, as_dict, truthy}
use delta_protocol.Json.Bytes.{json_bytes}
use delta_protocol.Result.{Result, ok, ◌>>=◌, ◌>>◌, require, or_raise}
use delta_protocol.Crypto.{Crypto, sha256_prefixed}

-- `DeltaSignedBundleError` by its message, and the exceptions that the tool does not catch:
-- `unencodable`, `attribute_error` and `not_json`.
pub data SignError : Type 0 where
  bundle_missing signature_missing not_an_object missing_signature_body : SignError
  not_base64url private_key_format private_key_length : SignError
  public_key_format public_key_length : SignError
  unencodable attribute_error not_json : SignError

abbrev pub Outcome : Type 0 → Type 0
Outcome A = Result SignError A

-- Ed25519 signing. A key is its raw bytes.
pub record Signer : Type 0 where
  -- `private_key.public_key()`
  pub public_of : Bytes → Bytes
  -- `private_key.sign(message)`
  pub sign : Bytes → Bytes → Bytes

-- What the package documents: a signature verifies under the public key.
pub record SignsFor (c : Crypto) (s : Signer) : Type 0 where
  pub verifies-sign :
      (private message : Bytes)
      → c.verifies (s.public_of private) (s.sign private message) message ≡ true
  pub length-public_of : (private : Bytes) → length (s.public_of private) ≡ 32
  pub bytes-public_of : (private : Bytes) → all is_byte (s.public_of private) ≡ true
  pub bytes-sign : (private message : Bytes) → all is_byte (s.sign private message) ≡ true

-- `canonical_json_bytes`
unfoldable pub canonical_json_bytes : Value → Outcome Bytes
canonical_json_bytes v = or_raise (json_bytes false v) unencodable

-- `public_key_text`
unfoldable pub public_key_text : Bytes → Text
public_key_text raw = lit "ed25519:" ++ b64url_encode raw

-- `public_key_hash`
unfoldable pub public_key_hash : Crypto → Text → Outcome Text
public_key_hash c t = do b ← or_raise (encode t) unencodable; ok (sha256_prefixed c b)

-- The bytes of a key or a signature behind its prefix.
unfoldable pub after_prefix : SignError → Text → Value → Outcome Bytes
after_prefix e prefix v = do
  t ← or_raise (as_text v) e
  require (starts_with t prefix) e
  or_raise (b64url_decode (drop (length prefix) t)) not_base64url

-- `load_public_key`
unfoldable pub load_public_key : Value → Outcome Bytes
load_public_key v = do
  raw ← after_prefix public_key_format (lit "ed25519:") v
  require (length raw == 32) public_key_length
  ok raw

-- `data.get("private_key") or data.get("ed25519_private_key")`
abbrev private_value : Fields → Value
private_value data_ =
    let v = get (lit "private_key") data_ in
    if truthy v then v else get (lit "ed25519_private_key") data_

-- The text of the key file, or what the JSON object in it holds; `loads` is `json.loads`.
unfoldable pub key_value : (Text → Option Value) → Text → Outcome Value
key_value loads content = elim (starts_with (strip content) (lit "{")) [
  | false ↦ ok (str (strip content))
  | true ↦ (do
    v ← or_raise (loads (strip content)) not_json
    data_ ← or_raise (as_dict v) attribute_error
    ok (private_value data_))
]

-- `load_private_key`
unfoldable pub load_private_key : (Text → Option Value) → Text → Outcome Bytes
load_private_key loads content = do
  v ← key_value loads content
  raw ← after_prefix private_key_format (lit "ed25519priv:") v
  require (length raw == 32) private_key_length
  ok raw
