-- ===== src/Cli/Validate.antt =====
-- The validators of `delta_cli.py`, the canonical bytes and the prefixed values.
use delta_protocol.Prelude.{
  ℕ, Bool, false, ◌&&◌, ◌||◌, all, [], ◌∷◌, length, drop, leb, ltb, ◌==◌, if◌then◌else◌,
}
use delta_protocol.Text.{Text, Bytes, lit, starts_with, strip, non_empty}
use delta_protocol.Json.{Value, ℤ, pos, negsuc, as_text, as_int, is_text, truthy}
use delta_protocol.Json.Bytes.{json_bytes}
use delta_protocol.Base64.{b64url_decode}
use delta_protocol.Result.{Result, ok, ◌>>=◌, ◌>>◌, require, or_raise}
use delta_protocol.Crypto.{is_hex}

-- The exceptions, by their message or cause. `type_error` is a regular expression on what is no
-- text, `attribute_error` the call of `strip` on what is no text.
pub data CliError : Type 0 where
  invalid : Text → CliError
  mismatch : Text → CliError
  missing : Text → CliError
  type_error attribute_error unencodable : CliError
  key_length key_mismatch target_mismatch verification_failed : CliError

abbrev pub Outcome : Type 0 → Type 0
Outcome A = Result CliError A

-- `canonical_json_bytes`
unfoldable pub canonical_json_bytes : Value → Outcome Bytes
canonical_json_bytes v = or_raise (json_bytes false v) unencodable

-- `decode_prefixed_b64url`: the text is encoded in ASCII.
unfoldable pub decode_prefixed_b64url : Text → Value → Text → Outcome Bytes
decode_prefixed_b64url label v prefix = do
  t ← or_raise (as_text v) (invalid label)
  require (starts_with t prefix) (invalid label)
  let encoded = drop (length prefix) t
  require (non_empty encoded) (invalid label)
  require (all (λ x. ltb x 128) encoded) (invalid label)
  or_raise (b64url_decode encoded) (invalid label)

-- `public_key_from_value`
unfoldable pub public_key_from_value : Value → Outcome Bytes
public_key_from_value v = do
  raw ← decode_prefixed_b64url (lit "public_key") v (lit "ed25519:")
  require (length raw == 32) key_length
  ok raw

-- A text without the newline that `$` allows at its end.
unfoldable pub drop_newline : Text → Text
drop_newline [] = []
drop_newline (x ∷ []) = if x == 10 then [] else x ∷ []
drop_newline (x ∷ y ∷ t) = x ∷ drop_newline (y ∷ t)

-- `re.match("^[...]{low,high}$", t)`, for a class without the newline.
unfoldable pub class_match : (ℕ → Bool) → ℕ → ℕ → Text → Bool
class_match test low high t =
    let u = drop_newline t in all test u && (leb low (length u) && leb (length u) high)

abbrev is_upper : ℕ → Bool
is_upper x = leb 65 x && leb x 90

abbrev is_lower : ℕ → Bool
is_lower x = leb 97 x && leb x 122

abbrev is_decimal : ℕ → Bool
is_decimal x = leb 48 x && leb x 57

abbrev is_alphanumeric : ℕ → Bool
is_alphanumeric x = is_upper x || (is_lower x || is_decimal x)

-- `KEY_NAME_RE`
unfoldable pub key_name_re : Text → Bool
key_name_re t =
    class_match (λ x. is_alphanumeric x || (x == b'.' || (x == b'_' || x == b'-'))) 1 80 t

-- `SHA256_RE`
unfoldable pub sha256_re : Text → Bool
sha256_re t = starts_with t (lit "sha256:") && class_match is_hex 64 64 (drop 7 t)

-- `validate_key_name`
unfoldable pub validate_key_name : Text → Outcome (Unit {0})
validate_key_name name = require (key_name_re name) (invalid (lit "key name"))

-- `validate_sha256_hash`
unfoldable pub validate_sha256_hash : Text → Value → Outcome (Unit {0})
validate_sha256_hash label v = do
  t ← or_raise (as_text v) type_error
  require (sha256_re t) (invalid label)

-- `value.strip()`, after the test `not value`.
unfoldable pub stripped : Text → Value → Outcome Text
stripped label v = do
  require (truthy v) (invalid label)
  t ← or_raise (as_text v) attribute_error
  require (non_empty (strip t)) (invalid label)
  ok (strip t)

-- `validate_action`
unfoldable pub validate_action : Value → Outcome (Unit {0})
validate_action v = stripped (lit "action") v >>= λ t. ok tt

-- `validate_attestation_result`
unfoldable pub validate_attestation_result : Value → Outcome (Unit {0})
validate_attestation_result v = do
  t ← stripped (lit "result") v
  require (class_match (λ x. is_upper x || (is_decimal x || (x == b'_' || x == b'-'))) 1 64 t)
      (invalid (lit "result"))

-- `validate_publication_mode`
unfoldable pub validate_publication_mode : Value → Outcome (Unit {0})
validate_publication_mode v =
    require (is_text v (lit "ledger_required")) (invalid (lit "publication-mode"))

abbrev is_ledger_char : ℕ → Bool
is_ledger_char x =
    is_alphanumeric x || (x == b'.' || (x == b'_' || (x == b':' || (x == b'/' || x == b'-'))))

-- `validate_ledger_id`
unfoldable pub validate_ledger_id : Value → Outcome (Unit {0})
validate_ledger_id v = do
  t ← stripped (lit "ledger-id") v
  require (class_match is_ledger_char 1 120 t) (invalid (lit "ledger-id"))

abbrev at_least : ℕ → ℤ → Bool
at_least n (pos k) = leb n k
at_least n (negsuc k) = false

-- `validate_ledger_seq`, `validate_checkpoint_seq` and `validate_entry_count`: an integer that is
-- not below the bound.
unfoldable pub validate_int : Text → ℕ → Value → Outcome (Unit {0})
validate_int label bound v = do
  i ← or_raise (as_int v) (invalid label)
  require (at_least bound i) (invalid label)

abbrev pub validate_ledger_seq : Value → Outcome (Unit {0})
validate_ledger_seq v = validate_int (lit "seq") 0 v

abbrev pub validate_checkpoint_seq : Value → Outcome (Unit {0})
validate_checkpoint_seq v = validate_int (lit "checkpoint-seq") 0 v

abbrev pub validate_entry_count : Value → Outcome (Unit {0})
validate_entry_count v = validate_int (lit "entry-count") 1 v
