-- ===== src/Tests/Sdk.antt =====
-- A claim with its signature, as the SDK verifies it.
use delta_protocol.Prelude.{ℕ, ◌≡◌, refl, Bool, false, ◌++◌}
use delta_protocol.Text.{Text}
use delta_protocol.Json.{Value, str, obj, no_fields, field}
use delta_protocol.Result.{ok}
use delta_protocol.Sdk.Signature.{Verified, verified, claim_expected}
use delta_protocol.Sdk.Accepted.{Accepted, verify_signature-Accepted}
use delta_protocol.Tests.Toy.{toy, repeat}
use delta_protocol.Text.{
  lit, text_eq, starts_with, one_of, is_white, strip_left, strip_right, strip, lower,
}
use delta_protocol.Json.{lookup, get_or, get, has_key, insert, erase, distinct_keys}
use delta_protocol.Json.Dump.{
  digits, decimal, dump_int, hex_digit, short_escape, escape_char, escape, quote, dump, dump_items,
  dump_fields,
}
use delta_protocol.Json.Sort.{
  text_leb, insert_sorted, sort_keys, sort_items, sort_fields, sorted, sorted_items, sorted_fields,
}
use delta_protocol.Utf8.{encodable, encode_char, encode, decode}
use delta_protocol.Crypto.{is_hex, sha256_prefixed}
use delta_protocol.Base64.{digit_char, b64url_encode, char_digit, a2b, padding, b64url_decode}
use delta_protocol.Sdk.Format.{
  reject_float_values, reject_float_items, reject_float_fields, canonical_json_bytes, require_dict,
  require_string, decode_prefixed_base64url, grouped_digits, drop_sign, drop_0x, base16_digit,
  is_int16, validate_sha256_prefixed,
}
use delta_protocol.Sdk.Signature.{
  matches, check_payload_type, read_header, check_signature, run_checks, catch_protocol_error,
  verify_signature, verify_claim_data, verify_attestation_data, verify_checkpoint_data,
}

abbrev claim : Value
claim = obj (field (lit "type") (str (lit "delta_claim")) no_fields)

abbrev claim_hash : Text
claim_hash = sha256_prefixed toy (lit "{\"type\":\"delta_claim\"}")

abbrev envelope : Value
envelope = obj (
    field (lit "type") (str (lit "delta_signature")) (
      field (lit "protocol_version") (str (lit "DELTA-0")) (
        field (lit "role") (str (lit "executor")) (
          field (lit "alg") (str (lit "Ed25519")) (
            field (lit "target_type") (str (lit "delta_claim")) (
              field (lit "target_hash") (str claim_hash) (
                field (lit "public_key") (str (lit "ed25519:" ++ repeat 43 65)) (
                  field (lit "signature") (str (lit "ed25519sig:" ++ repeat 86 65))
                    no_fields))))))))

abbrev wide : ℕ → Bool
wide x = false

abbrev accepted_claim : Verified
accepted_claim = record {
  payload_hash = claim_hash;
  target_hash = claim_hash;
  role = lit "executor";
  target_type = lit "delta_claim";
  public_key = lit "ed25519:" ++ repeat 43 65;
}

verifies_claim :
    verify_signature toy wide claim_expected claim envelope ≡ ok (verified accepted_claim)
unfolding lit text_eq starts_with one_of is_white strip_left strip_right strip lower lookup get_or
    get has_key insert erase distinct_keys digits decimal dump_int hex_digit short_escape
    escape_char escape quote dump dump_items dump_fields text_leb insert_sorted sort_keys sort_items
    sort_fields sorted sorted_items sorted_fields encodable encode_char encode decode is_hex
    sha256_prefixed digit_char b64url_encode char_digit a2b padding b64url_decode
    reject_float_values reject_float_items reject_float_fields canonical_json_bytes require_dict
    require_string decode_prefixed_base64url grouped_digits drop_sign drop_0x base16_digit is_int16
    validate_sha256_prefixed matches check_payload_type read_header check_signature run_checks
    catch_protocol_error verify_signature verify_claim_data verify_attestation_data
    verify_checkpoint_data
verifies_claim = refl

verify_signature-Accepted_example : Accepted toy wide claim_expected claim envelope accepted_claim
verify_signature-Accepted_example =
    verify_signature-Accepted toy wide claim_expected claim envelope accepted_claim verifies_claim
