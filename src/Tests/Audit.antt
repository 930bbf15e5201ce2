-- ===== src/Tests/Audit.antt =====
-- A package of one piece of evidence, encrypted, verified and decrypted.
use delta_protocol.Prelude.{◌++◌, ◌≡◌, refl, true, false, all, none, some, List, [], ◌∷◌}
use delta_protocol.Text.{Text, Bytes}
use delta_protocol.Json.{Value, Fields, bool, str, arr, obj, pos, no_items, item, no_fields, field}
use delta_protocol.Result.{ok, err}
use delta_protocol.Audit.Keys.{Outcome}
use delta_protocol.Audit.Encrypt.{EncryptArgs}
use delta_protocol.Audit.Verify.{Checks, all_set}
use delta_protocol.Audit.Decrypt.{Env, Disclosed}
use delta_protocol.Audit.Names.{disclosed_name-chars}
use delta_protocol.Audit.Accepted.{PackageAccepted, verify_package-PackageAccepted}
use delta_protocol.Audit.Opens.{b64url_decode_unpadded-b64url_encode}
use delta_protocol.Audit.Evidence.{Delivered}
use delta_protocol.Audit.Delivered.{encrypt_evidence-opens}
use delta_protocol.Tests.Toy.{toy, repeat, toy_sealing, toy_sealing-IsSound}
use delta_protocol.Text.{
  lit, text_eq, starts_with, one_of, is_white, strip_left, strip_right, strip, lower,
}
use delta_protocol.Json.{lookup, get_or, get, has_key, insert, erase, distinct_keys}
use delta_protocol.Json.Dump.{
  digits, decimal, dump_int, hex_digit, short_escape, escape_char, escape, quote, dump, dump_items,
  dump_fields,
}
use delta_protocol.Json.Sort.{
  text_leb, insert_sorted, sort_keys, sort_items, sort_fields, sorted, sorted_items, sorted_fields,
}
use delta_protocol.Utf8.{encodable, encode_char, encode, decode}
use delta_protocol.Crypto.{is_hex, sha256_prefixed}
use delta_protocol.Json.Bytes.{is_finite, serializable, json_bytes}
use delta_protocol.Json.Same.{same_number, same_value}
use delta_protocol.Base64.{
  digit_char, b64url_encode, char_digit, a2b, padding, is_ascii, b64url_decode,
}
use delta_protocol.Audit.Keys.{
  canonical_json_bytes, canonical_sha256, hash_text, b64url_decode_unpadded, parse_key,
  parse_public_key, parse_private_key, public_key_text, derive_key, shared_key,
}
use delta_protocol.Audit.Commitments.{
  Commitment, commitment_of, commitments_of, collect_sections, collect_evidence_commitments,
  enriched, build_aad,
}
use delta_protocol.Audit.Names.{is_name_char, replace_runs, safe_name, padded_index, disclosed_name}
use delta_protocol.Audit.Encrypt.{
  evidence_fields, encryption_fields, entry_fields, encrypt_entry, encrypt_entries, recipient_hash,
  recipient_fields, summary_fields, audit_boundary, package_fields, encrypt_evidence,
}
use delta_protocol.Audit.Verify.{
  in_known, encryption_shape, hash_of_decoded, ciphertext_ok, next_flags, check_entry,
  check_entries, recipient_ok, check_recipient, verify_package, flags_ok, all_ok,
}
use delta_protocol.Audit.Decrypt.{
  to_int, write_plaintext, opened_of, wrong_ciphertext, open_ciphertext, decrypt_entry,
  decrypt_entries, all_opened, disclosure_entry, declared_record_hash, record_hash_of,
  disclosure_fields, decrypt_package,
}

abbrev repr : Value → Text
repr v = []

abbrev record_fields : Fields
record_fields =
    field (lit "record_body")
      (obj (
        field (lit "private_evidence_commitments")
          (arr (
            item
              (obj (
                field (lit "hash") (str (sha256_prefixed toy (lit "abc")))
                  (field (lit "path") (str (lit "p")) no_fields)))
              no_items))
          no_fields))
      no_fields

abbrev auditor : Bytes
auditor = repeat 32 5

abbrev auditor_doc : Fields
auditor_doc =
    field (lit "public_key") (str (public_key_text (toy_sealing.public_of auditor))) no_fields

abbrev args : EncryptArgs
args = record {
  include_ = lit "private";
  package_id = lit "A";
  auditor_key_id = [];
  publisher = lit "p";
  allow_missing_evidence = false;
  require_hash_match = true;
  created_at = lit "t";
  record_path = lit "r";
  resolve = λ t. some (record { basename = lit "p"; plaintext = lit "abc" });
  ephemeral = λ i. repeat 32 6;
  nonce = λ i. repeat 12 4;
}

abbrev env : Env
env = record { repr = repr; int_of = λ v. none; name_of = λ t. t; place = λ t. t; now = lit "t" }

abbrev fields_or_none : Outcome Fields → Fields
fields_or_none (ok fs) = fs
fields_or_none (err e) = no_fields

abbrev text_or_none : Outcome Text → Text
text_or_none (ok t) = t
text_or_none (err e) = []

abbrev package_written : Fields
package_written =
    fields_or_none (encrypt_evidence toy toy_sealing args (obj record_fields) (obj auditor_doc))

encrypts :
    encrypt_evidence toy toy_sealing args (obj record_fields) (obj auditor_doc) ≡ ok package_written
unfolding lit text_eq starts_with one_of is_white strip_left strip_right strip lower lookup get_or
    get has_key insert erase distinct_keys digits decimal dump_int hex_digit short_escape
    escape_char escape quote dump dump_items dump_fields text_leb insert_sorted sort_keys sort_items
    sort_fields sorted sorted_items sorted_fields encodable encode_char encode decode is_hex
    sha256_prefixed is_finite serializable json_bytes same_number same_value digit_char
    b64url_encode char_digit a2b padding is_ascii b64url_decode canonical_json_bytes
    canonical_sha256 hash_text b64url_decode_unpadded parse_key parse_public_key parse_private_key
    public_key_text derive_key shared_key commitment_of commitments_of collect_sections
    collect_evidence_commitments enriched build_aad is_name_char replace_runs safe_name padded_index
    disclosed_name evidence_fields encryption_fields entry_fields encrypt_entry encrypt_entries
    recipient_hash recipient_fields summary_fields audit_boundary package_fields encrypt_evidence
    in_known encryption_shape hash_of_decoded ciphertext_ok next_flags check_entry check_entries
    recipient_ok check_recipient verify_package flags_ok all_ok to_int write_plaintext opened_of
    wrong_ciphertext open_ciphertext decrypt_entry decrypt_entries all_opened disclosure_entry
    declared_record_hash record_hash_of disclosure_fields decrypt_package
encrypts = refl

abbrev package_hash : Text
package_hash = text_or_none (canonical_sha256 toy (obj package_written))

hashes_package : canonical_sha256 toy (obj package_written) ≡ ok package_hash
unfolding lit text_eq starts_with one_of is_white strip_left strip_right strip lower lookup get_or
    get has_key insert erase distinct_keys digits decimal dump_int hex_digit short_escape
    escape_char escape quote dump dump_items dump_fields text_leb insert_sorted sort_keys sort_items
    sort_fields sorted sorted_items sorted_fields encodable encode_char encode decode is_hex
    sha256_prefixed is_finite serializable json_bytes same_number same_value digit_char
    b64url_encode char_digit a2b padding is_ascii b64url_decode canonical_json_bytes
    canonical_sha256 hash_text b64url_decode_unpadded parse_key parse_public_key parse_private_key
    public_key_text derive_key shared_key commitment_of commitments_of collect_sections
    collect_evidence_commitments enriched build_aad is_name_char replace_runs safe_name padded_index
    disclosed_name evidence_fields encryption_fields entry_fields encrypt_entry encrypt_entries
    recipient_hash recipient_fields summary_fields audit_boundary package_fields encrypt_evidence
    in_known encryption_shape hash_of_decoded ciphertext_ok next_flags check_entry check_entries
    recipient_ok check_recipient verify_package flags_ok all_ok to_int write_plaintext opened_of
    wrong_ciphertext open_ciphertext decrypt_entry decrypt_entries all_opened disclosure_entry
    declared_record_hash record_hash_of disclosure_fields decrypt_package
hashes_package = refl

abbrev private_key : Value
private_key = str (lit "x25519seed:" ++ b64url_encode auditor)

reads_key : parse_private_key private_key ≡ ok auditor
unfolding lit text_eq starts_with one_of is_white strip_left strip_right strip lower lookup get_or
    get has_key insert erase distinct_keys digits decimal dump_int hex_digit short_escape
    escape_char escape quote dump dump_items dump_fields text_leb insert_sorted sort_keys sort_items
    sort_fields sorted sorted_items sorted_fields encodable encode_char encode decode is_hex
    sha256_prefixed is_finite serializable json_bytes same_number same_value digit_char
    b64url_encode char_digit a2b padding is_ascii b64url_decode canonical_json_bytes
    canonical_sha256 hash_text b64url_decode_unpadded parse_key parse_public_key parse_private_key
    public_key_text derive_key shared_key commitment_of commitments_of collect_sections
    collect_evidence_commitments enriched build_aad is_name_char replace_runs safe_name padded_index
    disclosed_name evidence_fields encryption_fields entry_fields encrypt_entry encrypt_entries
    recipient_hash recipient_fields summary_fields audit_boundary package_fields encrypt_evidence
    in_known encryption_shape hash_of_decoded ciphertext_ok next_flags check_entry check_entries
    recipient_ok check_recipient verify_package flags_ok all_ok to_int write_plaintext opened_of
    wrong_ciphertext open_ciphertext decrypt_entry decrypt_entries all_opened disclosure_entry
    declared_record_hash record_hash_of disclosure_fields decrypt_package
reads_key = refl

names_key :
    get (lit "public_key") auditor_doc ≡ str (public_key_text (toy_sealing.public_of auditor))
unfolding lit text_eq starts_with one_of is_white strip_left strip_right strip lower lookup get_or
    get has_key insert erase distinct_keys digits decimal dump_int hex_digit short_escape
    escape_char escape quote dump dump_items dump_fields text_leb insert_sorted sort_keys sort_items
    sort_fields sorted sorted_items sorted_fields encodable encode_char encode decode is_hex
    sha256_prefixed is_finite serializable json_bytes same_number same_value digit_char
    b64url_encode char_digit a2b padding is_ascii b64url_decode canonical_json_bytes
    canonical_sha256 hash_text b64url_decode_unpadded parse_key parse_public_key parse_private_key
    public_key_text derive_key shared_key commitment_of commitments_of collect_sections
    collect_evidence_commitments enriched build_aad is_name_char replace_runs safe_name padded_index
    disclosed_name evidence_fields encryption_fields entry_fields encrypt_entry encrypt_entries
    recipient_hash recipient_fields summary_fields audit_boundary package_fields encrypt_evidence
    in_known encryption_shape hash_of_decoded ciphertext_ok next_flags check_entry check_entries
    recipient_ok check_recipient verify_package flags_ok all_ok to_int write_plaintext opened_of
    wrong_ciphertext open_ciphertext decrypt_entry decrypt_entries all_opened disclosure_entry
    declared_record_hash record_hash_of disclosure_fields decrypt_package
names_key = refl

abbrev private_commitment : Commitment
private_commitment = record {
  item =
      field (lit "hash") (str (sha256_prefixed toy (lit "abc")))
        (field (lit "path") (str (lit "p")) no_fields);
  section = lit "private_evidence_commitments";
  path_hint = lit "p";
  evidence_hash = sha256_prefixed toy (lit "abc");
}

encrypt_evidence-opens_example :
    (ds : List Disclosed) × (disclosure : Fields) × (decrypt_package toy toy_sealing env
        (obj package_written)
        private_key
        (some (obj record_fields))
      ≡ ok (ds, disclosure))
    × Delivered toy args 0 (private_commitment ∷ []) ds
    × (get (lit "ok") disclosure ≡ bool true)
unfolding lit text_eq starts_with lookup get_or get sha256_prefixed commitment_of commitments_of
    collect_sections collect_evidence_commitments
encrypt_evidence-opens_example =
    encrypt_evidence-opens toy toy_sealing args env auditor toy_sealing-IsSound (λ i. refl)
      (λ i. refl) record_fields auditor_doc package_written private_key package_hash names_key
      reads_key encrypts hashes_package

abbrev checks : Checks
checks = record {
  shape_ok = true;
  record_binding_ok = true;
  recipient_ok = true;
  entries_ok = all_set;
  present_ok = true;
}

verifies_package :
    verify_package toy repr (obj record_fields) (obj package_written) (some (obj auditor_doc))
    ≡ ok checks
unfolding lit text_eq starts_with one_of is_white strip_left strip_right strip lower lookup get_or
    get has_key insert erase distinct_keys digits decimal dump_int hex_digit short_escape
    escape_char escape quote dump dump_items dump_fields text_leb insert_sorted sort_keys sort_items
    sort_fields sorted sorted_items sorted_fields encodable encode_char encode decode is_hex
    sha256_prefixed is_finite serializable json_bytes same_number same_value digit_char
    b64url_encode char_digit a2b padding is_ascii b64url_decode canonical_json_bytes
    canonical_sha256 hash_text b64url_decode_unpadded parse_key parse_public_key parse_private_key
    public_key_text derive_key shared_key commitment_of commitments_of collect_sections
    collect_evidence_commitments enriched build_aad is_name_char replace_runs safe_name padded_index
    disclosed_name evidence_fields encryption_fields entry_fields encrypt_entry encrypt_entries
    recipient_hash recipient_fields summary_fields audit_boundary package_fields encrypt_evidence
    in_known encryption_shape hash_of_decoded ciphertext_ok next_flags check_entry check_entries
    recipient_ok check_recipient verify_package flags_ok all_ok to_int write_plaintext opened_of
    wrong_ciphertext open_ciphertext decrypt_entry decrypt_entries all_opened disclosure_entry
    declared_record_hash record_hash_of disclosure_fields decrypt_package
verifies_package = refl

verify_package-PackageAccepted_example :
    PackageAccepted toy (obj record_fields) (obj package_written)
unfolding lit text_eq starts_with one_of is_white strip_left strip_right strip lower lookup get_or
    get has_key insert erase distinct_keys digits decimal dump_int hex_digit short_escape
    escape_char escape quote dump dump_items dump_fields text_leb insert_sorted sort_keys sort_items
    sort_fields sorted sorted_items sorted_fields encodable encode_char encode decode is_hex
    sha256_prefixed is_finite serializable json_bytes same_number same_value digit_char
    b64url_encode char_digit a2b padding is_ascii b64url_decode canonical_json_bytes
    canonical_sha256 hash_text b64url_decode_unpadded parse_key parse_public_key parse_private_key
    public_key_text derive_key shared_key commitment_of commitments_of collect_sections
    collect_evidence_commitments enriched build_aad is_name_char replace_runs safe_name padded_index
    disclosed_name evidence_fields encryption_fields entry_fields encrypt_entry encrypt_entries
    recipient_hash recipient_fields summary_fields audit_boundary package_fields encrypt_evidence
    in_known encryption_shape hash_of_decoded ciphertext_ok next_flags check_entry check_entries
    recipient_ok check_recipient verify_package flags_ok all_ok to_int write_plaintext opened_of
    wrong_ciphertext open_ciphertext decrypt_entry decrypt_entries all_opened disclosure_entry
    declared_record_hash record_hash_of disclosure_fields decrypt_package
verify_package-PackageAccepted_example =
    verify_package-PackageAccepted toy repr (obj record_fields) (obj package_written)
      (some (obj auditor_doc)) checks verifies_package refl

disclosed_name-chars_example :
    all is_name_char (disclosed_name (λ t. t) (pos 3) (lit "../x")) ≡ true
disclosed_name-chars_example = disclosed_name-chars (λ t. t) (pos 3) (lit "../x")

b64url_decode_unpadded-b64url_encode_example :
    b64url_decode_unpadded (str (b64url_encode (1 ∷ 255 ∷ []))) ≡ ok (1 ∷ 255 ∷ [])
b64url_decode_unpadded-b64url_encode_example =
    b64url_decode_unpadded-b64url_encode (1 ∷ 255 ∷ []) refl refl
