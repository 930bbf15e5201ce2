-- ===== src/Canonical/Api.antt =====
-- The functions that canonicalise and hash, and the commands of the tool.
use delta_protocol.Text.{Text, Bytes}
use delta_protocol.Json.{Value}
use delta_protocol.Json.Dump.{dump}
use delta_protocol.Json.Sort.{sort_keys}
use delta_protocol.Result.{ok, ◌>>=◌, ◌>>◌, or_raise}
use delta_protocol.Utf8.{encode, decode}
use delta_protocol.Crypto.{Crypto, sha256_prefixed}
use delta_protocol.Canonical.Load.{Outcome, unicode_error, load_json_text, validate_value}

-- `canonical_json_bytes`
unfoldable pub canonical_json_bytes : Value → Outcome Bytes
canonical_json_bytes v = do validate_value v; or_raise (encode (dump (sort_keys v))) unicode_error

-- `canonicalize_text`
unfoldable pub canonicalize_text : Text → Outcome Text
canonicalize_text t = do
  v ← load_json_text t
  b ← canonical_json_bytes v
  or_raise (decode b) unicode_error

-- `canonical_sha256`
unfoldable pub canonical_sha256 : Crypto → Value → Outcome Text
canonical_sha256 c v = do b ← canonical_json_bytes v; ok (sha256_prefixed c b)
