-- ===== src/Tests/Commitment.antt =====
-- A commitment to three bytes, created, verified and opened.
use delta_protocol.Prelude.{◌≡◌, refl, ◌⊎◌, none, some, [], ◌∷◌}
use delta_protocol.Json.{Fields, no_fields}
use delta_protocol.Result.{ok, err}
use delta_protocol.Crypto.{Collision}
use delta_protocol.EvidenceSet.Hashes.{Outcome}
use delta_protocol.EvidenceSet.Disclose.{content}
use delta_protocol.Commitment.Package.{CreateArgs}
use delta_protocol.Commitment.Disclosed.{Disclosed, disclose_commitment-Disclosed}
use delta_protocol.Commitment.Binds.{disclose_commitment-binds}
use delta_protocol.Commitment.Opens.{create_commitment-opens}
use delta_protocol.Tests.Toy.{toy, toy-IsLawful}
use delta_protocol.Text.{
  lit, text_eq, starts_with, one_of, is_white, strip_left, strip_right, strip, lower,
}
use delta_protocol.Json.{lookup, get_or, get, has_key, insert, erase, distinct_keys}
use delta_protocol.Json.Dump.{
  digits, decimal, dump_int, hex_digit, short_escape, escape_char, escape, quote, dump, dump_items,
  dump_fields,
}
use delta_protocol.Json.Sort.{
  text_leb, insert_sorted, sort_keys, sort_items, sort_fields, sorted, sorted_items, sorted_fields,
}
use delta_protocol.Utf8.{encodable, encode_char, encode, decode}
use delta_protocol.Crypto.{is_hex, sha256_prefixed}
use delta_protocol.Json.Bytes.{is_finite, serializable, json_bytes}
use delta_protocol.Json.Same.{same_number, same_value}
use delta_protocol.Base64.{digit_char, b64url_encode, char_digit, a2b, padding, b64url_decode}
use delta_protocol.EvidenceSet.Hashes.{
  canonical_json, hash_json, normalize_sha256, validate_sha256, package_body_hash, leaf_hash_for,
  node_hash,
}
use delta_protocol.EvidenceSet.Disclose.{
  evidence_hash_of, find_entry, computed_leaf, public_errors, proof_errors, disclose,
}
use delta_protocol.EvidenceSet.Verify.{
  hash_errors, expected_leaf, leaf_errors, leaves_of, computed_root, verify_public,
}
use delta_protocol.Commitment.Package.{
  commitment_for, commitment_entry, package_body, self_check_of, opening_of, create_commitment,
}
use delta_protocol.Commitment.Verify.{
  commitment_errors, entry_errors, all_entry_errors, entries_errors, self_check_errors,
  package_errors, verify_package,
}
use delta_protocol.Commitment.Disclose.{
  first_match, evidence_errors, opened_commitment, mismatch, entry_mismatch, opening_errors,
  disclose_commitment,
}

abbrev args : CreateArgs
args = record {
  label = lit "l";
  salt = 1 ∷ 2 ∷ 3 ∷ [];
  created_at = lit "t";
  opening_created_at = lit "t";
  record_hash = none;
  policy_id = none;
  out_public = lit "p";
}

abbrev written_or_none : Outcome (Fields × Fields) → Fields × Fields
written_or_none (ok p) = p
written_or_none (err e) = (no_fields, no_fields)

abbrev written : Fields × Fields
written = written_or_none (create_commitment toy args (content (lit "abc")))

creates : create_commitment toy args (content (lit "abc")) ≡ ok (written.0, written.1)
unfolding lit text_eq starts_with one_of is_white strip_left strip_right strip lower lookup get_or
    get has_key insert erase distinct_keys digits decimal dump_int hex_digit short_escape
    escape_char escape quote dump dump_items dump_fields text_leb insert_sorted sort_keys sort_items
    sort_fields sorted sorted_items sorted_fields encodable encode_char encode decode is_hex
    sha256_prefixed is_finite serializable json_bytes same_number same_value digit_char
    b64url_encode char_digit a2b padding b64url_decode canonical_json hash_json normalize_sha256
    validate_sha256 package_body_hash commitment_for leaf_hash_for node_hash evidence_hash_of
    find_entry computed_leaf opening_errors public_errors proof_errors disclose hash_errors
    expected_leaf leaf_errors entry_errors all_entry_errors leaves_of computed_root verify_public
    commitment_entry package_body self_check_of opening_of create_commitment commitment_errors
    entries_errors self_check_errors package_errors verify_package first_match evidence_errors
    opened_commitment mismatch entry_mismatch disclose_commitment
creates = refl

discloses :
    disclose_commitment toy written.0 written.1 (content (lit "abc")) (some (lit "l")) ≡ ok []
unfolding lit text_eq starts_with one_of is_white strip_left strip_right strip lower lookup get_or
    get has_key insert erase distinct_keys digits decimal dump_int hex_digit short_escape
    escape_char escape quote dump dump_items dump_fields text_leb insert_sorted sort_keys sort_items
    sort_fields sorted sorted_items sorted_fields encodable encode_char encode decode is_hex
    sha256_prefixed is_finite serializable json_bytes same_number same_value digit_char
    b64url_encode char_digit a2b padding b64url_decode canonical_json hash_json normalize_sha256
    validate_sha256 package_body_hash commitment_for leaf_hash_for node_hash evidence_hash_of
    find_entry computed_leaf opening_errors public_errors proof_errors disclose hash_errors
    expected_leaf leaf_errors entry_errors all_entry_errors leaves_of computed_root verify_public
    commitment_entry package_body self_check_of opening_of create_commitment commitment_errors
    entries_errors self_check_errors package_errors verify_package first_match evidence_errors
    opened_commitment mismatch entry_mismatch disclose_commitment
discloses = refl

create_commitment-opens_example :
    (verify_package toy written.0 ≡ ok [])
    × (disclose_commitment toy written.0 written.1 (content (lit "abc")) none ≡ ok [])
unfolding lit
create_commitment-opens_example =
    create_commitment-opens toy args (lit "abc") written.0 written.1 toy-IsLawful refl refl creates

disclose_commitment-Disclosed_example :
    Disclosed toy written.0 written.1 (content (lit "abc")) (some (lit "l"))
disclose_commitment-Disclosed_example =
    disclose_commitment-Disclosed toy written.0 written.1 (content (lit "abc")) (some (lit "l"))
      discloses

disclose_commitment-binds_example : (lit "abc" ≡ lit "abc") ⊎ Collision toy
unfolding lit
disclose_commitment-binds_example =
    disclose_commitment-binds toy written.0 written.1 written.1 (lit "abc") (lit "abc") 108 []
      discloses discloses
