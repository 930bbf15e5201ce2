-- ===== src/Tests/Intent.antt =====
-- An approval, verified against a registry.
use delta_protocol.Prelude.{◌≡◌, refl, true, none, some, [], ◌∷◌, ◌++◌, length}
use delta_protocol.Text.{Text}
use delta_protocol.Json.{Value, Fields, bool, str, obj, arr, no_fields, field, items_of}
use delta_protocol.Result.{ok, err}
use delta_protocol.Intent.Keys.{Outcome, Env}
use delta_protocol.Intent.Approve.{ApproveArgs}
use delta_protocol.Intent.Verify.{Checks}
use delta_protocol.Intent.Accepted.{Approved, verify-Approved}
use delta_protocol.Tests.Toy.{toy, repeat}
use delta_protocol.Text.{
  lit, text_eq, starts_with, one_of, is_white, strip_left, strip_right, strip, lower,
}
use delta_protocol.Json.{lookup, get_or, get, has_key, insert, erase, distinct_keys}
use delta_protocol.Json.Dump.{
  digits, decimal, dump_int, hex_digit, short_escape, escape_char, escape, quote, dump, dump_items,
  dump_fields,
}
use delta_protocol.Json.Sort.{
  text_leb, insert_sorted, sort_keys, sort_items, sort_fields, sorted, sorted_items, sorted_fields,
}
use delta_protocol.Utf8.{encodable, encode_char, encode, decode}
use delta_protocol.Crypto.{is_hex, sha256_prefixed}
use delta_protocol.Json.Bytes.{is_finite, serializable, json_bytes}
use delta_protocol.Intent.Keys.{
  canonical_json_bytes, canonical_sha256, b64d, parse_prefixed_b64, public_key_hash, parse_iso_z,
  time_of, make_registry_entry, load_registry, without_id, setdefault, update_registry,
  registry_matches,
}
use delta_protocol.Intent.Policy.{
  active_at, names_key, active_entry, select_match, find_registry_key, intent_policy_ok,
  before_deadline, record_intent_policy_ok,
}
use delta_protocol.Intent.Approve.{
  nested, first_true, extract_sensor_method, first_text, extract_commit_after, attestation_of,
  signature_doc_of,
}
use delta_protocol.Intent.Verify.{
  check_signature, check_key_hash, all_ok, record_policy, make_checks, verify,
}

-- Base64 that changes nothing, a longer time stamp as a later instant, and a clock that stands still.
abbrev env : Env
env = record {
  b64decode = λ t. some t;
  b64encode = λ b. b;
  instant = λ t. some (length t);
  now = 30;
}

abbrev args : ApproveArgs
args = record {
  sensor_method = none;
  commit_after = none;
  ticket = lit "T-1";
  approver = lit "me";
  role = lit "owner";
  reason = lit "because";
  requires_mfa = true;
  valid_from = some (lit "2026-01-01T00:00:00Z");
  valid_until = some (lit "2026-01-01T00:00:00.123456Z");
  created_at = lit "2026-01-01T00:00:00Z";
}

abbrev text_or_none : Outcome Text → Text
text_or_none (ok t) = t
text_or_none (err e) = []

abbrev approved_record : Fields
approved_record =
    field (lit "intent_required") (bool true)
      (field (lit "intent_deadline") (str (lit "2026-01-01T00:00:00.123Z")) no_fields)

abbrev attestation : Fields
attestation =
    attestation_of (λ v. []) args approved_record
      (text_or_none (canonical_sha256 toy (obj approved_record)))

abbrev public_key : Text
public_key = lit "ed25519:" ++ repeat 32 65

abbrev signature_doc : Fields
signature_doc =
    signature_doc_of (text_or_none (canonical_sha256 toy (obj attestation))) public_key
      (sha256_prefixed toy (repeat 32 65)) (lit "ed25519sig:" ++ repeat 64 65) [] []

abbrev entry : Fields
entry = field (lit "public_key") (str public_key) (
    field (lit "active_from") (str (lit "2026-01-01"))
      (field (lit "revoked_at") (str (lit "2026-01-01T00:00:00.1Z")) no_fields))

abbrev registry : Value
registry = obj (field (lit "keys") (arr (items_of (obj entry ∷ []))) no_fields)

abbrev checks : Checks
checks =
    make_checks toy env (some (obj entry ∷ [])) attestation signature_doc (obj approved_record)
      (text_or_none (canonical_sha256 toy (obj attestation)))
      (text_or_none (canonical_sha256 toy (obj approved_record)))

verifies_approval :
    verify toy env (obj attestation) (obj signature_doc) (obj approved_record) (some registry)
    ≡ ok checks
unfolding lit text_eq starts_with one_of is_white strip_left strip_right strip lower lookup get_or
    get has_key insert erase distinct_keys digits decimal dump_int hex_digit short_escape
    escape_char escape quote dump dump_items dump_fields text_leb insert_sorted sort_keys sort_items
    sort_fields sorted sorted_items sorted_fields encodable encode_char encode decode is_hex
    sha256_prefixed is_finite serializable json_bytes canonical_json_bytes canonical_sha256 b64d
    parse_prefixed_b64 public_key_hash parse_iso_z time_of make_registry_entry load_registry
    without_id setdefault update_registry registry_matches active_at names_key active_entry
    select_match find_registry_key intent_policy_ok before_deadline record_intent_policy_ok nested
    first_true extract_sensor_method first_text extract_commit_after attestation_of signature_doc_of
    check_signature check_key_hash all_ok record_policy make_checks verify
verifies_approval = refl

passes : all_ok checks ≡ true
unfolding lit text_eq starts_with one_of is_white strip_left strip_right strip lower lookup get_or
    get has_key insert erase distinct_keys digits decimal dump_int hex_digit short_escape
    escape_char escape quote dump dump_items dump_fields text_leb insert_sorted sort_keys sort_items
    sort_fields sorted sorted_items sorted_fields encodable encode_char encode decode is_hex
    sha256_prefixed is_finite serializable json_bytes canonical_json_bytes canonical_sha256 b64d
    parse_prefixed_b64 public_key_hash parse_iso_z time_of make_registry_entry load_registry
    without_id setdefault update_registry registry_matches active_at names_key active_entry
    select_match find_registry_key intent_policy_ok before_deadline record_intent_policy_ok nested
    first_true extract_sensor_method first_text extract_commit_after attestation_of signature_doc_of
    check_signature check_key_hash all_ok record_policy make_checks verify
passes = refl

verify-Approved_example :
    Approved toy env (obj attestation) (obj signature_doc) (obj approved_record) (some registry)
verify-Approved_example =
    verify-Approved toy env (obj attestation) (obj signature_doc) (obj approved_record)
      (some registry) checks verifies_approval passes
