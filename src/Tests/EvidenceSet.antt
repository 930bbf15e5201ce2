-- ===== src/Tests/EvidenceSet.antt =====
-- The Merkle tree of two leaves.
use delta_protocol.Prelude.{◌≡◌, refl, ◌⊎◌, true, List, [], ◌∷◌}
use delta_protocol.Text.{Text}
use delta_protocol.Json.{Value}
use delta_protocol.Result.{ok}
use delta_protocol.Crypto.{Collision}
use delta_protocol.EvidenceSet.Merkle.{proof_step}
use delta_protocol.EvidenceSet.Merkle.Total.{exhausted, exhausted-build_merkle_tree}
use delta_protocol.Prelude.{false}
use delta_protocol.EvidenceSet.Merkle.Proofs.{verify_proof-merkle_proof_for}
use delta_protocol.EvidenceSet.Merkle.Binding.{same_shape, verify_proof-binds}
use delta_protocol.Tests.Toy.{toy}
use delta_protocol.Text.{
  lit, text_eq, starts_with, one_of, is_white, strip_left, strip_right, strip, lower,
}
use delta_protocol.Json.{lookup, get_or, get, has_key, insert, erase, distinct_keys}
use delta_protocol.Json.Dump.{
  digits, decimal, dump_int, hex_digit, short_escape, escape_char, escape, quote, dump, dump_items,
  dump_fields,
}
use delta_protocol.Json.Sort.{
  text_leb, insert_sorted, sort_keys, sort_items, sort_fields, sorted, sorted_items, sorted_fields,
}
use delta_protocol.Utf8.{encodable, encode_char, encode, decode}
use delta_protocol.Crypto.{is_hex, sha256_prefixed}
use delta_protocol.Json.Bytes.{is_finite, serializable, json_bytes}
use delta_protocol.EvidenceSet.Hashes.{
  canonical_json, hash_json, normalize_sha256, validate_sha256, package_body_hash, commitment_for,
  leaf_hash_for, node_hash,
}
use delta_protocol.EvidenceSet.Merkle.{
  next_level, build_from, build_merkle_tree, level_steps, merkle_proof_for, read_step, combine,
  climb, verify_proof,
}

abbrev two_leaves : List Text
two_leaves = lit "a" ∷ lit "b" ∷ []

abbrev root : Text
root = sha256_prefixed toy (
    lit
      "{\"domain\":\"DELTA_PRIVATE_EVIDENCE_MERKLE_NODE_V1\",\"left\":\"a\",\"method_id\":\"delta_private_evidence_merkle_tree_v1\",\"right\":\"b\"}")

abbrev two_levels : List (List Text)
two_levels = two_leaves ∷ (root ∷ []) ∷ []

builds_two : build_merkle_tree toy two_leaves ≡ ok (root, two_levels)
unfolding lit text_eq starts_with one_of is_white strip_left strip_right strip lower lookup get_or
    get has_key insert erase distinct_keys digits decimal dump_int hex_digit short_escape
    escape_char escape quote dump dump_items dump_fields text_leb insert_sorted sort_keys sort_items
    sort_fields sorted sorted_items sorted_fields encodable encode_char encode decode is_hex
    sha256_prefixed is_finite serializable json_bytes canonical_json hash_json normalize_sha256
    validate_sha256 package_body_hash commitment_for leaf_hash_for node_hash next_level build_from
    build_merkle_tree level_steps merkle_proof_for read_step combine climb verify_proof
builds_two = refl

verify_proof-merkle_proof_for_example :
    (proof : List Value) × (merkle_proof_for 1 two_levels ≡ ok proof)
    × (verify_proof toy (lit "b") proof root ≡ ok true)
verify_proof-merkle_proof_for_example =
    verify_proof-merkle_proof_for toy two_leaves root two_levels 1 (lit "b") builds_two refl

abbrev proof_of_a : List Value
proof_of_a = proof_step (lit "right") (lit "b") ∷ []

accepts_a : verify_proof toy (lit "a") proof_of_a root ≡ ok true
unfolding lit text_eq starts_with one_of is_white strip_left strip_right strip lower lookup get_or
    get has_key insert erase distinct_keys digits decimal dump_int hex_digit short_escape
    escape_char escape quote dump dump_items dump_fields text_leb insert_sorted sort_keys sort_items
    sort_fields sorted sorted_items sorted_fields encodable encode_char encode decode is_hex
    sha256_prefixed is_finite serializable json_bytes canonical_json hash_json normalize_sha256
    validate_sha256 package_body_hash commitment_for leaf_hash_for node_hash next_level build_from
    build_merkle_tree level_steps merkle_proof_for read_step combine climb verify_proof
accepts_a = refl

one_shape : same_shape proof_of_a proof_of_a ≡ true
unfolding same_shape get get_or lookup lit text_eq read_step
one_shape = refl

verify_proof-binds_example : (lit "a" ≡ lit "a") ⊎ Collision toy
verify_proof-binds_example =
    verify_proof-binds toy (lit "a") (lit "a") root proof_of_a proof_of_a one_shape accepts_a
      accepts_a

exhausted-build_merkle_tree_example : exhausted (build_merkle_tree toy two_leaves) ≡ false
exhausted-build_merkle_tree_example = exhausted-build_merkle_tree toy two_leaves
