-- ===== src/Tests/BundleSign.antt =====
-- A bundle of three bytes, signed and verified.
use delta_protocol.Prelude.{◌≡◌, refl, true, ◌⊎◌, ◌++◌, none, some, []}
use delta_protocol.Text.{Text}
use delta_protocol.Json.{Value, Fields, obj, no_fields}
use delta_protocol.Result.{ok, err}
use delta_protocol.Crypto.{Collision}
use delta_protocol.BundleSign.Keys.{Outcome, Signer, SignsFor}
use delta_protocol.BundleSign.Sign.{SignArgs}
use delta_protocol.BundleSign.Verify.{Checks}
use delta_protocol.BundleSign.Accepted.{BundleSigned, verify-BundleSigned, verify-binds}
use delta_protocol.BundleSign.Signed.{sign-verifies}
use delta_protocol.Tests.Toy.{toy, repeat}
use delta_protocol.Text.{
  lit, text_eq, starts_with, one_of, is_white, strip_left, strip_right, strip, lower,
}
use delta_protocol.Json.{lookup, get_or, get, has_key, insert, erase, distinct_keys}
use delta_protocol.Json.Dump.{
  digits, decimal, dump_int, hex_digit, short_escape, escape_char, escape, quote, dump, dump_items,
  dump_fields,
}
use delta_protocol.Json.Sort.{
  text_leb, insert_sorted, sort_keys, sort_items, sort_fields, sorted, sorted_items, sorted_fields,
}
use delta_protocol.Utf8.{encodable, encode_char, encode, decode}
use delta_protocol.Crypto.{is_hex, sha256_prefixed}
use delta_protocol.Json.Bytes.{is_finite, serializable, json_bytes}
use delta_protocol.Base64.{
  digit_char, b64url_encode, char_digit, a2b, padding, is_ascii, b64url_decode,
}
use delta_protocol.BundleSign.Keys.{
  canonical_json_bytes, public_key_text, public_key_hash, after_prefix, load_public_key, key_value,
  load_private_key,
}
use delta_protocol.BundleSign.Sign.{
  sign_boundary, signature_body, make_signature_body, signature_doc, sign_bundle, sign,
}
use delta_protocol.BundleSign.Verify.{or_empty, signature_verifies, check_signature, verify, all_ok}

abbrev repr : Value → Text
repr v = []

abbrev toy_signer : Signer
toy_signer = record { public_of = λ private. repeat 32 1; sign = λ private message. repeat 64 2 }

toy_signer-SignsFor : SignsFor toy toy_signer
toy_signer-SignsFor = record {
  verifies-sign = λ private message. refl;
  length-public_of = λ private. refl;
  bytes-public_of = λ private. refl;
  bytes-sign = λ private message. refl;
}

abbrev args : SignArgs
args = record {
  path_hint = lit "b";
  bundle = some (lit "abc");
  private_key = lit "ed25519priv:" ++ b64url_encode (repeat 32 5);
  signer = lit "s";
  purpose = lit "p";
  created_at = lit "t";
  loads = λ t. none;
}

abbrev fields_or_none : Outcome Fields → Fields
fields_or_none (ok fs) = fs
fields_or_none (err e) = no_fields

abbrev doc : Fields
doc = fields_or_none (sign toy toy_signer args)

signs : sign toy toy_signer args ≡ ok doc
unfolding lit text_eq starts_with one_of is_white strip_left strip_right strip lower lookup get_or
    get has_key insert erase distinct_keys digits decimal dump_int hex_digit short_escape
    escape_char escape quote dump dump_items dump_fields text_leb insert_sorted sort_keys sort_items
    sort_fields sorted sorted_items sorted_fields encodable encode_char encode decode is_hex
    sha256_prefixed is_finite serializable json_bytes digit_char b64url_encode char_digit a2b
    padding is_ascii b64url_decode canonical_json_bytes public_key_text public_key_hash after_prefix
    load_public_key key_value load_private_key sign_boundary signature_body make_signature_body
    signature_doc sign_bundle sign or_empty signature_verifies check_signature verify all_ok
signs = refl

abbrev checks : Checks
checks = record {
  profile_ok = true;
  body_hash_ok = true;
  self_check_ok = true;
  bundle_hash_ok = true;
  public_key_hash_ok = true;
  signature_target_hash_ok = true;
  signature_shape_ok = true;
  signature_ok = true;
}

verifies_signature : verify toy repr (some (lit "abc")) (some (obj doc)) ≡ ok checks
unfolding lit text_eq starts_with one_of is_white strip_left strip_right strip lower lookup get_or
    get has_key insert erase distinct_keys digits decimal dump_int hex_digit short_escape
    escape_char escape quote dump dump_items dump_fields text_leb insert_sorted sort_keys sort_items
    sort_fields sorted sorted_items sorted_fields encodable encode_char encode decode is_hex
    sha256_prefixed is_finite serializable json_bytes digit_char b64url_encode char_digit a2b
    padding is_ascii b64url_decode canonical_json_bytes public_key_text public_key_hash after_prefix
    load_public_key key_value load_private_key sign_boundary signature_body make_signature_body
    signature_doc sign_bundle sign or_empty signature_verifies check_signature verify all_ok
verifies_signature = refl

sign-verifies_example :
    (k : Checks) × (verify toy repr (some (lit "abc")) (some (obj doc)) ≡ ok k) × (all_ok k ≡ true)
sign-verifies_example = sign-verifies toy toy_signer repr args doc toy_signer-SignsFor signs

verify-BundleSigned_example : BundleSigned toy (lit "abc") doc
unfolding all_ok
verify-BundleSigned_example =
    verify-BundleSigned toy repr (lit "abc") doc checks verifies_signature refl

verify-binds_example : (lit "abc" ≡ lit "abc") ⊎ Collision toy
unfolding all_ok
verify-binds_example =
    verify-binds toy repr (lit "abc") (lit "abc") doc checks checks verifies_signature refl
      verifies_signature refl
