-- ===== src/Tests/Canonical.antt =====
-- Runs of the canonicaliser, and its theorems at concrete inputs.
use delta_protocol.Prelude.{◌≡◌, refl, ◌⊎◌, true}
use delta_protocol.Text.{Text}
use delta_protocol.Json.{Value, int, str, obj, no_fields, field, pos}
use delta_protocol.Result.{ok}
use delta_protocol.Crypto.{Collision}
use delta_protocol.Canonical.Laws.{
  canonicalize_text-canonicalize_text, canonical_json_bytes-injective, canonical_sha256-binds,
}
use delta_protocol.Canonical.RoundTrip.{load-dump}
use delta_protocol.Canonical.Sound.{load-plain}
use delta_protocol.Tests.Toy.{toy}
use delta_protocol.Text.{
  lit, text_eq, starts_with, one_of, is_white, strip_left, strip_right, strip, lower,
}
use delta_protocol.Json.{lookup, get_or, get, has_key, insert, erase, distinct_keys}
use delta_protocol.Canonical.Scan.{
  is_space, skip_space, hex_value, backslash, scan_pieces, join_pieces, scan_string, is_digit,
  span_digits, scan_natural, digits_value, float_follows,
}
use delta_protocol.Canonical.Load.{
  is_safe, parse_int, object_pairs_no_duplicates, parse_number, start, expect_word, reject_constant,
  parse_minus, array_at, items_after, object_at, fields_after, colon_at, entry_at, value_at,
  parse_value, parse_items, parse_fields, load_json_text, validate_value, validate_items,
  validate_fields,
}
use delta_protocol.Json.Dump.{
  digits, decimal, dump_int, hex_digit, short_escape, escape_char, escape, quote, dump, dump_items,
  dump_fields,
}
use delta_protocol.Json.Sort.{
  text_leb, insert_sorted, sort_keys, sort_items, sort_fields, sorted, sorted_items, sorted_fields,
}
use delta_protocol.Utf8.{encodable, encode_char, encode, decode}
use delta_protocol.Canonical.Plain.{is_plain, plain_items, plain_fields}
use delta_protocol.Canonical.Api.{canonical_json_bytes, canonicalize_text, canonical_sha256}
use delta_protocol.Crypto.{is_hex, sha256_prefixed}

-- `{"b": 1, "a": "x"}` in the order of its text, and sorted.
abbrev two_fields : Value
two_fields = obj (field (lit "b") (int (pos 1)) (field (lit "a") (str (lit "x")) no_fields))

abbrev swapped : Value
swapped = obj (field (lit "a") (str (lit "x")) (field (lit "b") (int (pos 1)) no_fields))

abbrev source : Text
source = lit "{ \"b\" : 1, \"a\": \"x\" }"

abbrev canonical : Text
canonical = lit "{\"a\":\"x\",\"b\":1}"

canonicalize_source : canonicalize_text source ≡ ok canonical
unfolding lit text_eq starts_with one_of is_white strip_left strip_right strip lower lookup get_or
    get has_key insert erase distinct_keys is_space skip_space hex_value backslash scan_pieces
    join_pieces scan_string is_digit span_digits scan_natural digits_value float_follows is_safe
    parse_int object_pairs_no_duplicates parse_number start expect_word reject_constant parse_minus
    array_at items_after object_at fields_after colon_at entry_at value_at parse_value parse_items
    parse_fields load_json_text validate_value validate_items validate_fields digits decimal
    dump_int hex_digit short_escape escape_char escape quote dump dump_items dump_fields text_leb
    insert_sorted sort_keys sort_items sort_fields sorted sorted_items sorted_fields encodable
    encode_char encode decode is_plain plain_items plain_fields canonical_json_bytes
    canonicalize_text canonical_sha256 is_hex sha256_prefixed
canonicalize_source = refl

canonicalize_text-canonicalize_text_example : canonicalize_text canonical ≡ ok canonical
canonicalize_text-canonicalize_text_example =
    canonicalize_text-canonicalize_text source canonical canonicalize_source

loads_source : load_json_text source ≡ ok two_fields
unfolding lit text_eq starts_with one_of is_white strip_left strip_right strip lower lookup get_or
    get has_key insert erase distinct_keys is_space skip_space hex_value backslash scan_pieces
    join_pieces scan_string is_digit span_digits scan_natural digits_value float_follows is_safe
    parse_int object_pairs_no_duplicates parse_number start expect_word reject_constant parse_minus
    array_at items_after object_at fields_after colon_at entry_at value_at parse_value parse_items
    parse_fields load_json_text validate_value validate_items validate_fields
loads_source = refl

load-plain_example : is_plain two_fields ≡ true
load-plain_example = load-plain source two_fields loads_source

two_fields-plain : is_plain two_fields ≡ true
unfolding lit text_eq starts_with one_of is_white strip_left strip_right strip lower lookup get_or
    get has_key insert erase distinct_keys is_safe parse_int object_pairs_no_duplicates parse_number
    start expect_word reject_constant parse_minus array_at items_after object_at fields_after
    colon_at entry_at value_at parse_value parse_items parse_fields load_json_text validate_value
    validate_items validate_fields is_plain plain_items plain_fields
two_fields-plain = refl

swapped-plain : is_plain swapped ≡ true
unfolding lit text_eq starts_with one_of is_white strip_left strip_right strip lower lookup get_or
    get has_key insert erase distinct_keys is_safe parse_int object_pairs_no_duplicates parse_number
    start expect_word reject_constant parse_minus array_at items_after object_at fields_after
    colon_at entry_at value_at parse_value parse_items parse_fields load_json_text validate_value
    validate_items validate_fields is_plain plain_items plain_fields
swapped-plain = refl

load-dump_example : load_json_text (dump two_fields) ≡ ok two_fields
load-dump_example = load-dump two_fields two_fields-plain

two_fields-bytes : canonical_json_bytes two_fields ≡ ok canonical
unfolding lit text_eq starts_with one_of is_white strip_left strip_right strip lower lookup get_or
    get has_key insert erase distinct_keys digits decimal dump_int hex_digit short_escape
    escape_char escape quote dump dump_items dump_fields text_leb insert_sorted sort_keys sort_items
    sort_fields sorted sorted_items sorted_fields encodable encode_char encode decode is_safe
    parse_int object_pairs_no_duplicates parse_number start expect_word reject_constant parse_minus
    array_at items_after object_at fields_after colon_at entry_at value_at parse_value parse_items
    parse_fields load_json_text validate_value validate_items validate_fields canonical_json_bytes
    canonicalize_text canonical_sha256
two_fields-bytes = refl

swapped-bytes : canonical_json_bytes swapped ≡ ok canonical
unfolding lit text_eq starts_with one_of is_white strip_left strip_right strip lower lookup get_or
    get has_key insert erase distinct_keys digits decimal dump_int hex_digit short_escape
    escape_char escape quote dump dump_items dump_fields text_leb insert_sorted sort_keys sort_items
    sort_fields sorted sorted_items sorted_fields encodable encode_char encode decode is_safe
    parse_int object_pairs_no_duplicates parse_number start expect_word reject_constant parse_minus
    array_at items_after object_at fields_after colon_at entry_at value_at parse_value parse_items
    parse_fields load_json_text validate_value validate_items validate_fields canonical_json_bytes
    canonicalize_text canonical_sha256
swapped-bytes = refl

canonical_json_bytes-injective_example : sort_keys two_fields ≡ sort_keys swapped
canonical_json_bytes-injective_example =
    canonical_json_bytes-injective two_fields swapped canonical two_fields-plain swapped-plain
      two_fields-bytes swapped-bytes

two_fields-hash : canonical_sha256 toy two_fields ≡ ok (sha256_prefixed toy canonical)
unfolding lit text_eq starts_with one_of is_white strip_left strip_right strip lower lookup get_or
    get has_key insert erase distinct_keys digits decimal dump_int hex_digit short_escape
    escape_char escape quote dump dump_items dump_fields text_leb insert_sorted sort_keys sort_items
    sort_fields sorted sorted_items sorted_fields encodable encode_char encode decode is_safe
    parse_int object_pairs_no_duplicates parse_number start expect_word reject_constant parse_minus
    array_at items_after object_at fields_after colon_at entry_at value_at parse_value parse_items
    parse_fields load_json_text validate_value validate_items validate_fields canonical_json_bytes
    canonicalize_text canonical_sha256
two_fields-hash = refl

swapped-hash : canonical_sha256 toy swapped ≡ ok (sha256_prefixed toy canonical)
unfolding lit text_eq starts_with one_of is_white strip_left strip_right strip lower lookup get_or
    get has_key insert erase distinct_keys digits decimal dump_int hex_digit short_escape
    escape_char escape quote dump dump_items dump_fields text_leb insert_sorted sort_keys sort_items
    sort_fields sorted sorted_items sorted_fields encodable encode_char encode decode is_safe
    parse_int object_pairs_no_duplicates parse_number start expect_word reject_constant parse_minus
    array_at items_after object_at fields_after colon_at entry_at value_at parse_value parse_items
    parse_fields load_json_text validate_value validate_items validate_fields canonical_json_bytes
    canonicalize_text canonical_sha256
swapped-hash = refl

canonical_sha256-binds_example : (sort_keys two_fields ≡ sort_keys swapped) ⊎ Collision toy
canonical_sha256-binds_example =
    canonical_sha256-binds toy two_fields swapped (sha256_prefixed toy canonical) two_fields-plain
      swapped-plain two_fields-hash swapped-hash
