-- ===== src/Sdk/Format.antt =====
-- The checks of single fields, and the canonical bytes of the SDK.
use delta_protocol.Prelude.{
  ℕ, Bool, true, false, ◌&&◌, ◌||◌, [], ◌∷◌, length, drop, leb, ◌==◌, if◌then◌else◌,
}
use delta_protocol.Text.{Text, Bytes, lit, starts_with, strip, lower, text_eq, non_empty}
use delta_protocol.Json.{
  Value, Items, Fields, null, bool, int, float, str, arr, obj, other, no_items, item, no_fields,
  field, get, as_text, as_dict,
}
use delta_protocol.Json.Dump.{dump}
use delta_protocol.Json.Sort.{sort_keys}
use delta_protocol.Utf8.{encode}
use delta_protocol.Base64.{b64url_decode}
use delta_protocol.Result.{Result, ok, err, ◌>>◌, require, or_raise}

-- `DELTAProtocolError` by its message. `unicode_error` is the `UnicodeEncodeError` of
-- `encoded.encode("utf-8")`, which is no `DELTAProtocolError`.
pub data SdkError : Type 0 where
  float_not_allowed unsupported_type unicode_error : SdkError
  not_an_object missing_string : Text → SdkError
  mismatch : Text → SdkError
  not_base64url bad_prefix : Text → SdkError
  no_hash_prefix hash_length hash_case hash_digits : SdkError
  key_length signature_length verification_failed : SdkError

abbrev pub Outcome : Type 0 → Type 0
Outcome A = Result SdkError A

-- `_reject_float_values`. Keys are texts in every value of the model.
unfoldable mutual
  pub reject_float_values : Value → Outcome (Unit {0})
  reject_float_values null = ok tt
  reject_float_values (bool b) = ok tt
  reject_float_values (int i) = ok tt
  reject_float_values (float r i) = err float_not_allowed
  reject_float_values (str t) = ok tt
  reject_float_values (arr xs) = reject_float_items xs
  reject_float_values (obj fs) = reject_float_fields fs
  reject_float_values (other n) = err unsupported_type

  pub reject_float_items : Items → Outcome (Unit {0})
  reject_float_items no_items = ok tt
  reject_float_items (item v xs) = reject_float_values v >> reject_float_items xs

  pub reject_float_fields : Fields → Outcome (Unit {0})
  reject_float_fields no_fields = ok tt
  reject_float_fields (field k v fs) = reject_float_values v >> reject_float_fields fs

-- `canonical_json_bytes`. After the check `json.dumps` has nothing to refuse.
unfoldable pub canonical_json_bytes : Value → Outcome Bytes
canonical_json_bytes v = do
  reject_float_values v
  or_raise (encode (dump (sort_keys v))) unicode_error

-- `_require_dict`
unfoldable pub require_dict : Value → Text → Outcome Fields
require_dict v name = or_raise (as_dict v) (not_an_object name)

-- `_require_string`
unfoldable pub require_string : Fields → Text → Outcome Text
require_string o name = or_raise (as_text (get name o)) (missing_string name)

-- `_decode_prefixed_base64url` with `_decode_unpadded_base64url`
unfoldable pub decode_prefixed_base64url : Text → Text → Text → Outcome Bytes
decode_prefixed_base64url value prefix name = do
  require (starts_with value prefix) (bad_prefix name)
  let encoded = drop (length prefix) value
  require (non_empty encoded) (not_base64url name)
  or_raise (b64url_decode encoded) (not_base64url name)

-- The rest of `int(digits, 16)`, behind a sign and a prefix: digits with single underscores
-- between them.
unfoldable pub grouped_digits : (ℕ → Bool) → Bool → Text → Bool
grouped_digits digit after_digit [] = after_digit
grouped_digits digit after_digit (c ∷ t) =
    let more = grouped_digits digit true t in
    let gap = grouped_digits digit false t in
    if digit c then more else if c == b'_' && after_digit then gap else false

unfoldable pub drop_sign : Text → Text
drop_sign [] = []
drop_sign (c ∷ t) = if c == b'+' || c == b'-' then t else c ∷ t

abbrev drop_underscore : Text → Text
drop_underscore [] = []
drop_underscore (c ∷ t) = if c == b'_' then t else c ∷ t

unfoldable pub drop_0x : Text → Text
drop_0x (z ∷ x ∷ t) = if z == b'0' && (x == b'x' || x == b'X') then drop_underscore t else z ∷ x ∷ t
drop_0x t = t

-- A digit of base 16, in ASCII; `wide` tells the decimal digits of other scripts, which `int` takes.
unfoldable pub base16_digit : (ℕ → Bool) → ℕ → Bool
base16_digit wide c =
    leb 48 c && leb c 57 || (leb 97 c && leb c 102 || (leb 65 c && leb c 70 || leb 128 c && wide c))

-- `int(digits, 16)` raises no `ValueError`.
unfoldable pub is_int16 : (ℕ → Bool) → Text → Bool
is_int16 wide t = grouped_digits (base16_digit wide) false (drop_0x (drop_sign (strip t)))

-- `_validate_sha256_prefixed`
unfoldable pub validate_sha256_prefixed : (ℕ → Bool) → Text → Outcome (Unit {0})
validate_sha256_prefixed wide value = do
  require (starts_with value (lit "sha256:")) no_hash_prefix
  let digest = drop 7 value
  require (length digest == 64) hash_length
  require (text_eq (lower digest) digest) hash_case
  require (is_int16 wide digest) hash_digits
