-- ===== src/Tests/Genesis.antt =====
-- A chain proof of two entries.
use delta_protocol.Prelude.{◌≡◌, refl, []}
use delta_protocol.Text.{Text}
use delta_protocol.Json.{Value, Fields, str, arr, obj, no_items, item, no_fields, field}
use delta_protocol.Result.{ok, err}
use delta_protocol.Genesis.Chain.{Outcome, ChainExpected}
use delta_protocol.Genesis.Linked.{ChainAccepted, verify_chain_proof-ChainAccepted}
use delta_protocol.Tests.Toy.{toy}
use delta_protocol.Prelude.{false, ◌++◌}
use delta_protocol.Tests.Toy.{repeat}
use delta_protocol.Base64.{
  digit_char, b64url_encode, char_digit, a2b, padding, is_ascii, b64url_decode,
}
use delta_protocol.Sdk.Format.{base16_digit, grouped_digits, drop_sign, drop_0x, is_int16}
use delta_protocol.Genesis.Envelope.{
  EnvelopeExpected, assert_hash_format, prefixed_bytes, public_key_from_delta, signature_from_delta,
  verify_signature, check_envelope_header, verify_signature_envelope,
}
use delta_protocol.Genesis.Signed.{EnvelopeAccepted, verify_signature_envelope-EnvelopeAccepted}
use delta_protocol.Genesis.Evidence.{
  Release, expected_hashes_by_path, hash_at, expected_hash, check_item, check_items, filled_list,
  verify_evidence_manifest,
}
use delta_protocol.Genesis.Listed.{ManifestAccepted, verify_evidence_manifest-ManifestAccepted}
use delta_protocol.Text.{
  lit, text_eq, starts_with, one_of, is_white, strip_left, strip_right, strip, lower,
}
use delta_protocol.Json.{lookup, get_or, get, has_key, insert, erase, distinct_keys}
use delta_protocol.Json.Dump.{
  digits, decimal, dump_int, hex_digit, short_escape, escape_char, escape, quote, dump, dump_items,
  dump_fields,
}
use delta_protocol.Json.Sort.{
  text_leb, insert_sorted, sort_keys, sort_items, sort_fields, sorted, sorted_items, sorted_fields,
}
use delta_protocol.Utf8.{encodable, encode_char, encode, decode}
use delta_protocol.Crypto.{is_hex, sha256_prefixed}
use delta_protocol.Json.Bytes.{is_finite, serializable, json_bytes}
use delta_protocol.Genesis.Chain.{
  sha256_object, require_field, require_field_equal, first_entry, follow_entries,
  check_chain_header, verify_chain_proof,
}

abbrev text_or_none : Outcome Text → Text
text_or_none (ok t) = t
text_or_none (err e) = []

abbrev first : Value
first = obj (field (lit "seq") (str (lit "first")) no_fields)

abbrev target : Text
target = text_or_none (sha256_object toy first)

abbrev second : Value
second = obj (field (lit "prev_entry_hash") (str target) no_fields)

abbrev head : Text
head = text_or_none (sha256_object toy second)

abbrev proof : Fields
proof = field (lit "type") (str (lit "delta_chain_proof")) (
    field (lit "protocol_version") (str (lit "DELTA-0")) (
      field (lit "ledger_id") (str (lit "delta-ledger:genesis-local")) (
        field (lit "target_entry_hash") (str target) (
          field (lit "checkpoint_hash") (str (lit "checkpoint")) (
            field (lit "head_entry_hash") (str head)
              (field (lit "entries") (arr (item first (item second no_items))) no_fields))))))

abbrev expected : ChainExpected
expected = record {
  target_entry_hash = target;
  checkpoint_hash = lit "checkpoint";
  head_entry_hash = head;
}

verifies_proof : verify_chain_proof toy proof expected ≡ ok tt
unfolding lit text_eq starts_with one_of is_white strip_left strip_right strip lower lookup get_or
    get has_key insert erase distinct_keys digits decimal dump_int hex_digit short_escape
    escape_char escape quote dump dump_items dump_fields text_leb insert_sorted sort_keys sort_items
    sort_fields sorted sorted_items sorted_fields encodable encode_char encode decode is_hex
    sha256_prefixed is_finite serializable json_bytes sha256_object require_field
    require_field_equal first_entry follow_entries check_chain_header verify_chain_proof
verifies_proof = refl

verify_chain_proof-ChainAccepted_example : ChainAccepted toy proof expected
verify_chain_proof-ChainAccepted_example =
    verify_chain_proof-ChainAccepted toy proof expected verifies_proof

abbrev key_text : Text
key_text = lit "ed25519:" ++ b64url_encode (repeat 32 1)

abbrev envelope : Value
envelope = obj (
    field (lit "type") (str (lit "delta_signature")) (
      field (lit "protocol_version") (str (lit "DELTA-0")) (
        field (lit "role") (str (lit "executor")) (
          field (lit "alg") (str (lit "Ed25519")) (
            field (lit "target_type") (str (lit "entry")) (
              field (lit "target_hash") (str target) (
                field (lit "public_key") (str key_text) (
                  field (lit "signature") (str (lit "ed25519sig:" ++ b64url_encode (repeat 64 2)))
                    no_fields))))))))

abbrev envelope_expected : EnvelopeExpected
envelope_expected = record {
  role = lit "executor";
  target_type = lit "entry";
  target_hash = target;
  public_key = key_text;
  target = first;
}

abbrev envelope_hash : Text
envelope_hash = text_or_none (sha256_object toy envelope)

verifies_envelope :
    verify_signature_envelope toy (λ d. false) envelope envelope_expected ≡ ok envelope_hash
unfolding lit text_eq starts_with one_of is_white strip_left strip_right strip lower lookup get_or
    get has_key insert erase distinct_keys digits decimal dump_int hex_digit short_escape
    escape_char escape quote dump dump_items dump_fields text_leb insert_sorted sort_keys sort_items
    sort_fields sorted sorted_items sorted_fields encodable encode_char encode decode is_hex
    sha256_prefixed is_finite serializable json_bytes sha256_object require_field
    require_field_equal first_entry follow_entries check_chain_header verify_chain_proof
    base16_digit grouped_digits drop_sign drop_0x is_int16 digit_char b64url_encode char_digit a2b
    padding is_ascii b64url_decode assert_hash_format prefixed_bytes public_key_from_delta
    signature_from_delta verify_signature check_envelope_header verify_signature_envelope
verifies_envelope = refl

verify_signature_envelope-EnvelopeAccepted_example :
    EnvelopeAccepted toy envelope envelope_expected envelope_hash
verify_signature_envelope-EnvelopeAccepted_example =
    verify_signature_envelope-EnvelopeAccepted toy (λ d. false) envelope envelope_expected
      envelope_hash verifies_envelope

abbrev document : Text → Value
document t = obj (field (lit "k") (str t) no_fields)

abbrev release : Release
release = record {
  spec = lit "a";
  generator = lit "ab";
  before_statement = document (lit "x");
  after_statement = document (lit "xy");
  verification_policy = document (lit "xyz");
}

abbrev manifest_item : Text → Text → Value
manifest_item path h = obj (field (lit "path") (str path) (field (lit "hash") (str h) no_fields))

abbrev manifest : Fields
manifest = field (lit "type") (str (lit "delta_evidence_manifest")) (
    field (lit "protocol_version") (str (lit "DELTA-0")) (
      field (lit "items")
        (arr (
          item
            (manifest_item (lit "spec/DELTA-0-v0.5.2-core-structures.md")
              (sha256_prefixed toy (lit "a")))
            (item (manifest_item (lit "src/genesis_generator.py") (sha256_prefixed toy (lit "ab")))
              (item
                (manifest_item (lit "genesis/before_statement.json")
                  (text_or_none (sha256_object toy (document (lit "x")))))
                (item
                  (manifest_item (lit "genesis/after_statement.json")
                    (text_or_none (sha256_object toy (document (lit "xy")))))
                  (item
                    (manifest_item (lit "genesis/verification_policy.json")
                      (text_or_none (sha256_object toy (document (lit "xyz")))))
                    no_items))))))
        no_fields))

abbrev manifest_hash : Text
manifest_hash = text_or_none (sha256_object toy (obj manifest))

verifies_manifest : verify_evidence_manifest toy (λ d. false) manifest release ≡ ok manifest_hash
unfolding lit text_eq starts_with one_of is_white strip_left strip_right strip lower lookup get_or
    get has_key insert erase distinct_keys digits decimal dump_int hex_digit short_escape
    escape_char escape quote dump dump_items dump_fields text_leb insert_sorted sort_keys sort_items
    sort_fields sorted sorted_items sorted_fields encodable encode_char encode decode is_hex
    sha256_prefixed is_finite serializable json_bytes sha256_object require_field
    require_field_equal first_entry follow_entries check_chain_header verify_chain_proof
    base16_digit grouped_digits drop_sign drop_0x is_int16 digit_char b64url_encode char_digit a2b
    padding is_ascii b64url_decode assert_hash_format prefixed_bytes public_key_from_delta
    signature_from_delta verify_signature check_envelope_header verify_signature_envelope
    expected_hashes_by_path hash_at expected_hash check_item check_items filled_list
    verify_evidence_manifest
verifies_manifest = refl

verify_evidence_manifest-ManifestAccepted_example :
    ManifestAccepted toy manifest release manifest_hash
verify_evidence_manifest-ManifestAccepted_example =
    verify_evidence_manifest-ManifestAccepted toy (λ d. false) manifest release manifest_hash
      verifies_manifest
