-- ===== src/Tests/Cli.antt =====
-- A claim with its signature, and a ledger entry, as the command line checks them.
use delta_protocol.Prelude.{◌≡◌, refl, true, [], ◌++◌}
use delta_protocol.Text.{Text, Bytes}
use delta_protocol.Json.{pos, Fields, str, obj}
use delta_protocol.Result.{ok, err}
use delta_protocol.Cli.Validate.{Outcome}
use delta_protocol.Cli.Build.{LedgerEntryArgs, build_executor_signature}
use delta_protocol.Cli.Verify.{executor_signing}
use delta_protocol.Cli.Accepted.{
  SignedAccepted, verify_signed_or_raise-SignedAccepted,
  verify_ledger_entry_or_raise-build_ledger_entry,
}
use delta_protocol.Tests.Toy.{toy, repeat}
use delta_protocol.Text.{
  lit, text_eq, starts_with, one_of, is_white, strip_left, strip_right, strip, lower,
}
use delta_protocol.Json.{lookup, get_or, get, has_key, insert, erase, distinct_keys}
use delta_protocol.Json.Dump.{
  digits, decimal, dump_int, hex_digit, short_escape, escape_char, escape, quote, dump, dump_items,
  dump_fields,
}
use delta_protocol.Json.Sort.{
  text_leb, insert_sorted, sort_keys, sort_items, sort_fields, sorted, sorted_items, sorted_fields,
}
use delta_protocol.Utf8.{encodable, encode_char, encode, decode}
use delta_protocol.Crypto.{is_hex, sha256_prefixed}
use delta_protocol.Json.Bytes.{is_finite, serializable, json_bytes}
use delta_protocol.Base64.{digit_char, b64url_encode, char_digit, a2b, padding, b64url_decode}
use delta_protocol.Cli.Validate.{
  canonical_json_bytes, decode_prefixed_b64url, public_key_from_value, drop_newline, class_match,
  key_name_re, sha256_re, validate_key_name, validate_sha256_hash, stripped, validate_action,
  validate_attestation_result, validate_publication_mode, validate_ledger_id, validate_int,
}
use delta_protocol.Cli.Build.{
  build_public_key_record, build_claim, build_signature, build_attestation, build_ledger_entry,
  build_checkpoint,
}
use delta_protocol.Cli.Verify.{
  require_equal, signing_key, check_signed_bytes, verify_signed_or_raise, validate_hashes,
  verify_ledger_entry_or_raise,
}

abbrev bytes_or_none : Outcome Bytes → Bytes
bytes_or_none (ok b) = b
bytes_or_none (err e) = []

abbrev key : Text
key = lit "ed25519:" ++ repeat 43 65

abbrev claim : Fields
claim = build_claim (lit "b") (lit "act") (lit "a") (lit "e") key (lit "t")

abbrev claim_hash : Text
claim_hash = sha256_prefixed toy (bytes_or_none (canonical_json_bytes (obj claim)))

abbrev signature : Fields
signature = build_executor_signature key claim_hash (repeat 64 0) (lit "t")

abbrev hashes : Text × Text
hashes = (claim_hash, sha256_prefixed toy (bytes_or_none (canonical_json_bytes (obj signature))))

verifies_claim : verify_signed_or_raise toy executor_signing claim signature ≡ ok hashes
unfolding lit text_eq starts_with one_of is_white strip_left strip_right strip lower lookup get_or
    get has_key insert erase distinct_keys digits decimal dump_int hex_digit short_escape
    escape_char escape quote dump dump_items dump_fields text_leb insert_sorted sort_keys sort_items
    sort_fields sorted sorted_items sorted_fields encodable encode_char encode decode is_hex
    sha256_prefixed is_finite serializable json_bytes digit_char b64url_encode char_digit a2b
    padding b64url_decode canonical_json_bytes decode_prefixed_b64url public_key_from_value
    drop_newline class_match key_name_re sha256_re validate_key_name validate_sha256_hash stripped
    validate_action validate_attestation_result validate_publication_mode validate_ledger_id
    validate_int build_public_key_record build_claim build_signature build_attestation
    build_ledger_entry build_checkpoint require_equal signing_key check_signed_bytes
    verify_signed_or_raise validate_hashes verify_ledger_entry_or_raise
verifies_claim = refl

verify_signed_or_raise-SignedAccepted_example :
    SignedAccepted toy executor_signing claim signature hashes
verify_signed_or_raise-SignedAccepted_example =
    verify_signed_or_raise-SignedAccepted toy executor_signing claim signature hashes verifies_claim

abbrev hash_text : Text
hash_text = lit "sha256:" ++ repeat 64 97

abbrev entry_args : LedgerEntryArgs
entry_args = record {
  ledger_id = lit "main";
  seq = pos 3;
  prev_entry_hash = hash_text;
  claim_hash = hash_text;
  executor_sig_hash = hash_text;
  attestation_hash = hash_text;
  verifier_sig_hash = hash_text;
  included_at = lit "t";
}

abbrev entry_bytes : Bytes
entry_bytes = bytes_or_none (canonical_json_bytes (obj (build_ledger_entry entry_args)))

valid_id : validate_ledger_id (str (lit "main")) ≡ ok tt
unfolding lit text_eq starts_with one_of is_white strip_left strip_right strip lower
    canonical_json_bytes decode_prefixed_b64url public_key_from_value drop_newline class_match
    key_name_re sha256_re validate_key_name validate_sha256_hash stripped validate_action
    validate_attestation_result validate_publication_mode validate_ledger_id validate_int
valid_id = refl

valid_hash : sha256_re hash_text ≡ true
unfolding lit text_eq starts_with one_of is_white strip_left strip_right strip lower is_hex
    sha256_prefixed canonical_json_bytes decode_prefixed_b64url public_key_from_value drop_newline
    class_match key_name_re sha256_re validate_key_name validate_sha256_hash stripped
    validate_action validate_attestation_result validate_publication_mode validate_ledger_id
    validate_int
valid_hash = refl

has_bytes : canonical_json_bytes (obj (build_ledger_entry entry_args)) ≡ ok entry_bytes
unfolding lit text_eq starts_with one_of is_white strip_left strip_right strip lower lookup get_or
    get has_key insert erase distinct_keys digits decimal dump_int hex_digit short_escape
    escape_char escape quote dump dump_items dump_fields text_leb insert_sorted sort_keys sort_items
    sort_fields sorted sorted_items sorted_fields encodable encode_char encode decode is_hex
    sha256_prefixed is_finite serializable json_bytes canonical_json_bytes decode_prefixed_b64url
    public_key_from_value drop_newline class_match key_name_re sha256_re validate_key_name
    validate_sha256_hash stripped validate_action validate_attestation_result
    validate_publication_mode validate_ledger_id validate_int build_public_key_record build_claim
    build_signature build_attestation build_ledger_entry build_checkpoint
has_bytes = refl

verify_ledger_entry_or_raise-build_ledger_entry_example :
    verify_ledger_entry_or_raise toy (build_ledger_entry entry_args)
    ≡ ok (sha256_prefixed toy entry_bytes)
verify_ledger_entry_or_raise-build_ledger_entry_example =
    verify_ledger_entry_or_raise-build_ledger_entry toy entry_args entry_bytes 3 valid_id refl
      valid_hash valid_hash valid_hash valid_hash valid_hash has_bytes
