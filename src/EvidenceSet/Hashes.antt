-- ===== src/EvidenceSet/Hashes.antt =====
-- The hashes of the evidence set, each of a canonical JSON object with a domain of its own.
use delta_protocol.Prelude.{true, ◌&&◌, ◌++◌, all, length, drop, ◌==◌, if◌then◌else◌}
use delta_protocol.Text.{Text, Bytes, lit, starts_with, strip, lower}
use delta_protocol.Json.{Value, Fields, str, obj, no_fields, field, erase, as_text}
use delta_protocol.Json.Bytes.{json_bytes}
use delta_protocol.Result.{Result, ok, ◌>>=◌, require, or_raise}
use delta_protocol.Crypto.{Crypto, sha256_prefixed, is_hex}

-- `DeltaPrivateEvidenceSetError` by its message; `encode_error` for the exceptions of
-- `canonical_json`, and `index_error` for an index out of range. `out_of_fuel` is no error of the
-- program. `evidence_missing` is of the tool for a single commitment.
pub data SetError : Type 0 where
  zero_leaves : SetError
  not_a_string : Text → SetError
  not_a_hash : Text → SetError
  directory_missing : SetError
  no_evidence : SetError
  unreadable : SetError
  encode_error : SetError
  index_error : SetError
  out_of_fuel : SetError
  evidence_missing : SetError
  type_error : SetError

abbrev pub Outcome : Type 0 → Type 0
Outcome A = Result SetError A

-- `canonical_json`
unfoldable pub canonical_json : Value → Outcome Bytes
canonical_json v = or_raise (json_bytes true v) encode_error

-- `sha256_bytes(canonical_json(value))`
unfoldable pub hash_json : Crypto → Value → Outcome Text
hash_json c v = do b ← canonical_json v; ok (sha256_prefixed c b)

-- `normalize_sha256`
unfoldable pub normalize_sha256 : Text → Text
normalize_sha256 value =
    let stripped = strip value in
    if starts_with stripped (lit "sha256:") then stripped else lit "sha256:" ++ stripped

-- `validate_sha256`; the part behind the first `sha256:` is what follows the prefix.
unfoldable pub validate_sha256 : Value → Text → Outcome (Unit {0})
validate_sha256 value name = do
  t ← or_raise (as_text value) (not_a_string name)
  let hex_part = drop 7 (normalize_sha256 t)
  require (length hex_part == 64 && all is_hex (lower hex_part)) (not_a_hash name)

-- `package_body_hash`
unfoldable pub package_body_hash : Crypto → Fields → Outcome Text
package_body_hash c fields = hash_json c (obj (erase (lit "self_check") fields))

-- `commitment_for`
unfoldable pub commitment_for : Crypto → Text → Text → Text → Outcome Text
commitment_for c evidence_hash salt label = hash_json c (
    obj (
      field (lit "domain") (str (lit "DELTA_PRIVATE_EVIDENCE_COMMITMENT_V1")) (
        field (lit "evidence_hash") (str evidence_hash) (
          field (lit "label") (str label) (
            field (lit "method_id") (str (lit "salted_sha256_private_evidence_commitment_v1"))
              (field (lit "salt") (str salt) no_fields))))))

-- `leaf_hash_for`
unfoldable pub leaf_hash_for : Crypto → Value → Text → Text → Outcome Text
leaf_hash_for c index label commitment = hash_json c (
    obj (
      field (lit "commitment") (str commitment) (
        field (lit "domain") (str (lit "DELTA_PRIVATE_EVIDENCE_MERKLE_LEAF_V1")) (
          field (lit "index") index (
            field (lit "label") (str label) (
              field (lit "method_id") (str (lit "delta_private_evidence_merkle_leaf_v1"))
                no_fields))))))

-- The object that `node_hash` hashes.
abbrev pub node_object : Text → Text → Value
node_object left right = obj (
    field (lit "domain") (str (lit "DELTA_PRIVATE_EVIDENCE_MERKLE_NODE_V1")) (
      field (lit "left") (str left) (
        field (lit "method_id") (str (lit "delta_private_evidence_merkle_tree_v1"))
          (field (lit "right") (str right) no_fields))))

-- `node_hash`
unfoldable pub node_hash : Crypto → Text → Text → Outcome Text
node_hash c left right = hash_json c (node_object left right)
