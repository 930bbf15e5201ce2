-- ===== src/Tests/Trust.antt =====
-- A ledger of one entry, verified.
use delta_protocol.Prelude.{◌≡◌, refl, true, none, List, [], ◌∷◌}
use delta_protocol.Text.{Text}
use delta_protocol.Json.{Value, Fields, int, str, arr, obj, pos, no_items, item, no_fields, field}
use delta_protocol.Result.{ok, err}
use delta_protocol.Trust.Entry.{Outcome}
use delta_protocol.Trust.Verify.{Report, Loop, start, list_or_empty}
use delta_protocol.Json.{dict_or_empty}
use delta_protocol.Trust.Chain.{LedgerAccepted, verify_ledger-LedgerAccepted}
use delta_protocol.Tests.Toy.{toy}
use delta_protocol.Prelude.{all, ◌⊎◌}
use delta_protocol.Crypto.{Collision}
use delta_protocol.Canonical.Load.{is_safe}
use delta_protocol.Canonical.Plain.{is_plain, plain_items, plain_fields}
use delta_protocol.Trust.Binds.{SameBodies, plain_body, ledger_entries, verify_ledger-binds}
use delta_protocol.Text.{
  lit, text_eq, starts_with, one_of, is_white, strip_left, strip_right, strip, lower,
}
use delta_protocol.Json.{lookup, get_or, get, has_key, insert, erase, distinct_keys}
use delta_protocol.Json.Dump.{
  digits, decimal, dump_int, hex_digit, short_escape, escape_char, escape, quote, dump, dump_items,
  dump_fields,
}
use delta_protocol.Json.Sort.{
  text_leb, insert_sorted, sort_keys, sort_items, sort_fields, sorted, sorted_items, sorted_fields,
}
use delta_protocol.Utf8.{encodable, encode_char, encode, decode}
use delta_protocol.Crypto.{is_hex, sha256_prefixed}
use delta_protocol.Json.Bytes.{is_finite, serializable, json_bytes}
use delta_protocol.Trust.Entry.{
  canonical_sha256, normalize_role, normalize_event_type, load_record, record_type, record_target,
  actor_fields, entry_boundary, make_entry_body, integrity_fields, wrap_entry,
}
use delta_protocol.Trust.Ledger.{
  ledger_boundary, ledger_body, ledger_of, make_ledger, load_ledger, create_ledger, last_entry_hash,
  previous_hash_of, keep_created_at, append_entry,
}
use delta_protocol.Trust.Verify.{
  in_set, is_prefixed, linked_proof_ok, all_linked_proofs_ok, linked_proofs_list_ok, binding_ok,
  matches_record, check_entry, step, run, entry_flags_ok, report_ok, supplied_hash, found_record,
  make_report, verify_ledger, next_loop,
}
use delta_protocol.Trust.Entry.{EntryArgs}
use delta_protocol.Trust.Linked.{
  Paths, file, split_at_equals, type_and_path, node_exists, file_hash_fields, linked_proof,
  linked_proof_from_args,
}
use delta_protocol.Trust.Passing.{Passes}
use delta_protocol.Trust.Reached.{created, appended, with_items, Reached-Passes}

abbrev repr : Value → Text
repr v = []

abbrev entry_body : Value
entry_body = obj (
    field (lit "previous_entry_hash") (str (lit "GENESIS")) (
      field (lit "sequence") (int (pos 0)) (
        field (lit "actor") (obj (field (lit "role") (str (lit "auditor")) no_fields)) (
          field (lit "event") (obj (field (lit "type") (str (lit "record_observed")) no_fields))
            (field (lit "linked_proofs") (arr no_items) no_fields)))))

abbrev text_or_none : Outcome Text → Text
text_or_none (ok t) = t
text_or_none (err e) = []

abbrev entry_hash : Text
entry_hash = text_or_none (canonical_sha256 toy entry_body)

abbrev body : Value
body = obj (
    field (lit "type") (str (lit "delta_trust_ledger_body")) (
      field (lit "protocol") (str (lit "DELTA-0")) (
        field (lit "entries")
          (arr (
            item
              (obj (
                field (lit "entry_body_hash") (str entry_hash)
                  (field (lit "entry_body") entry_body no_fields)))
              no_items))
          no_fields)))

abbrev body_hash : Text
body_hash = text_or_none (canonical_sha256 toy body)

abbrev ledger : Fields
ledger = field (lit "type") (str (lit "delta_trust_ledger")) (
    field (lit "protocol") (str (lit "DELTA-0"))
      (field (lit "ledger_body_hash") (str body_hash) (field (lit "ledger_body") body no_fields)))

-- The loop after the one entry.
abbrev final : Loop
final = record start { previous_hash = entry_hash; last_hash = entry_hash }

abbrev report : Report
report = make_report repr ledger body_hash none final

reports : verify_ledger toy repr ledger none ≡ ok report
unfolding lit text_eq starts_with one_of is_white strip_left strip_right strip lower lookup get_or
    get has_key insert erase distinct_keys digits decimal dump_int hex_digit short_escape
    escape_char escape quote dump dump_items dump_fields text_leb insert_sorted sort_keys sort_items
    sort_fields sorted sorted_items sorted_fields encodable encode_char encode decode is_hex
    sha256_prefixed is_finite serializable json_bytes canonical_sha256 normalize_role
    normalize_event_type load_record record_type record_target actor_fields entry_boundary
    make_entry_body integrity_fields wrap_entry ledger_boundary ledger_body ledger_of make_ledger
    load_ledger create_ledger last_entry_hash previous_hash_of keep_created_at append_entry in_set
    is_prefixed linked_proof_ok all_linked_proofs_ok linked_proofs_list_ok binding_ok matches_record
    check_entry step run entry_flags_ok report_ok supplied_hash found_record make_report
    verify_ledger next_loop
reports = refl

passes : report_ok report ≡ true
unfolding lit text_eq starts_with one_of is_white strip_left strip_right strip lower lookup get_or
    get has_key insert erase distinct_keys digits decimal dump_int hex_digit short_escape
    escape_char escape quote dump dump_items dump_fields text_leb insert_sorted sort_keys sort_items
    sort_fields sorted sorted_items sorted_fields encodable encode_char encode decode is_hex
    sha256_prefixed is_finite serializable json_bytes canonical_sha256 normalize_role
    normalize_event_type load_record record_type record_target actor_fields entry_boundary
    make_entry_body integrity_fields wrap_entry ledger_boundary ledger_body ledger_of make_ledger
    load_ledger create_ledger last_entry_hash previous_hash_of keep_created_at append_entry in_set
    is_prefixed linked_proof_ok all_linked_proofs_ok linked_proofs_list_ok binding_ok matches_record
    check_entry step run entry_flags_ok report_ok supplied_hash found_record make_report
    verify_ledger next_loop
passes = refl

verify_ledger-LedgerAccepted_example : LedgerAccepted toy ledger report
verify_ledger-LedgerAccepted_example =
    verify_ledger-LedgerAccepted toy repr ledger none report reports passes

bodies_plain : all plain_body (ledger_entries ledger) ≡ true
unfolding plain_body is_safe lit text_eq starts_with one_of is_white strip_left strip_right strip
    lower lookup get_or get has_key insert erase distinct_keys digits decimal dump_int hex_digit
    short_escape escape_char escape quote dump dump_items dump_fields text_leb insert_sorted
    sort_keys sort_items sort_fields sorted sorted_items sorted_fields encodable encode_char encode
    decode is_hex sha256_prefixed is_finite serializable json_bytes canonical_sha256 normalize_role
    normalize_event_type load_record record_type record_target actor_fields entry_boundary
    make_entry_body integrity_fields wrap_entry ledger_boundary ledger_body ledger_of make_ledger
    load_ledger create_ledger last_entry_hash previous_hash_of keep_created_at append_entry in_set
    is_prefixed linked_proof_ok all_linked_proofs_ok linked_proofs_list_ok binding_ok matches_record
    check_entry step run entry_flags_ok report_ok supplied_hash found_record make_report
    verify_ledger next_loop is_plain plain_items plain_fields
bodies_plain = refl

verify_ledger-binds_example :
    SameBodies (ledger_entries ledger) (ledger_entries ledger) ⊎ Collision toy
verify_ledger-binds_example =
    verify_ledger-binds toy repr ledger ledger report report reports passes reports passes refl refl
      bodies_plain bodies_plain

abbrev some_paths : Paths
some_paths = record { resolve = λ t. t; at = λ t. file t }

abbrev first_args : EntryArgs
first_args = record {
  chain_id = lit "c";
  sequence = 0;
  entry_id = lit "e";
  previous_entry_hash = [];
  target = no_fields;
  path = lit "r";
  actor = lit "a";
  role = lit "auditor";
  event_type = lit "record_observed";
  note = [];
  linked_proofs = [];
  created_at = lit "t";
}

abbrev fields_or_none : Outcome Fields → Fields
fields_or_none (ok fs) = fs
fields_or_none (err e) = no_fields

abbrev first_ledger : Fields
first_ledger =
    fields_or_none (create_ledger toy repr (lit "t") (with_items toy some_paths first_args []))

creates :
    create_ledger toy repr (lit "t") (with_items toy some_paths first_args []) ≡ ok first_ledger
unfolding plain_body is_safe lit text_eq starts_with one_of is_white strip_left strip_right strip
    lower lookup get_or get has_key insert erase distinct_keys digits decimal dump_int hex_digit
    short_escape escape_char escape quote dump dump_items dump_fields text_leb insert_sorted
    sort_keys sort_items sort_fields sorted sorted_items sorted_fields encodable encode_char encode
    decode is_hex sha256_prefixed is_finite serializable json_bytes canonical_sha256 normalize_role
    normalize_event_type load_record record_type record_target actor_fields entry_boundary
    make_entry_body integrity_fields wrap_entry ledger_boundary ledger_body ledger_of make_ledger
    load_ledger create_ledger last_entry_hash previous_hash_of keep_created_at append_entry in_set
    is_prefixed linked_proof_ok all_linked_proofs_ok linked_proofs_list_ok binding_ok matches_record
    check_entry step run entry_flags_ok report_ok supplied_hash found_record make_report
    verify_ledger next_loop is_plain plain_items plain_fields split_at_equals type_and_path
    node_exists file_hash_fields linked_proof linked_proof_from_args
creates = refl

abbrev dict_at : Text → Fields → Fields
dict_at k fs = dict_or_empty (get k fs)

abbrev first_body : Fields
first_body = dict_at (lit "ledger_body") first_ledger

abbrev first_entries : List Value
first_entries = list_or_empty (get (lit "entries") first_body)

loads : load_ledger (obj first_ledger) ≡ ok (first_ledger, first_body, first_entries)
unfolding plain_body is_safe lit text_eq starts_with one_of is_white strip_left strip_right strip
    lower lookup get_or get has_key insert erase distinct_keys digits decimal dump_int hex_digit
    short_escape escape_char escape quote dump dump_items dump_fields text_leb insert_sorted
    sort_keys sort_items sort_fields sorted sorted_items sorted_fields encodable encode_char encode
    decode is_hex sha256_prefixed is_finite serializable json_bytes canonical_sha256 normalize_role
    normalize_event_type load_record record_type record_target actor_fields entry_boundary
    make_entry_body integrity_fields wrap_entry ledger_boundary ledger_body ledger_of make_ledger
    load_ledger create_ledger last_entry_hash previous_hash_of keep_created_at append_entry in_set
    is_prefixed linked_proof_ok all_linked_proofs_ok linked_proofs_list_ok binding_ok matches_record
    check_entry step run entry_flags_ok report_ok supplied_hash found_record make_report
    verify_ledger next_loop is_plain plain_items plain_fields split_at_equals type_and_path
    node_exists file_hash_fields linked_proof linked_proof_from_args
loads = refl

abbrev second_ledger : Fields
second_ledger = fields_or_none (
    append_entry toy repr (lit "u") (with_items toy some_paths first_args (lit "a=b" ∷ []))
      first_body first_entries)

appends :
    append_entry toy repr
      (lit "u")
      (with_items toy some_paths first_args (lit "a=b" ∷ []))
      first_body
      first_entries
    ≡ ok second_ledger
unfolding plain_body is_safe lit text_eq starts_with one_of is_white strip_left strip_right strip
    lower lookup get_or get has_key insert erase distinct_keys digits decimal dump_int hex_digit
    short_escape escape_char escape quote dump dump_items dump_fields text_leb insert_sorted
    sort_keys sort_items sort_fields sorted sorted_items sorted_fields encodable encode_char encode
    decode is_hex sha256_prefixed is_finite serializable json_bytes canonical_sha256 normalize_role
    normalize_event_type load_record record_type record_target actor_fields entry_boundary
    make_entry_body integrity_fields wrap_entry ledger_boundary ledger_body ledger_of make_ledger
    load_ledger create_ledger last_entry_hash previous_hash_of keep_created_at append_entry in_set
    is_prefixed linked_proof_ok all_linked_proofs_ok linked_proofs_list_ok binding_ok matches_record
    check_entry step run entry_flags_ok report_ok supplied_hash found_record make_report
    verify_ledger next_loop is_plain plain_items plain_fields split_at_equals type_and_path
    node_exists file_hash_fields linked_proof linked_proof_from_args
appends = refl

Reached-Passes_example : Passes toy repr second_ledger
Reached-Passes_example = Reached-Passes toy repr some_paths second_ledger (
    appended (lit "u") first_args (lit "a=b" ∷ []) (created (lit "t") first_args [] creates) loads
      appends)
