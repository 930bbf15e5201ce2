-- ===== src/Cli/Verify.antt =====
-- `verify_executor_signature_or_raise`, `verify_verifier_signature_or_raise` and
-- `verify_ledger_entry_or_raise`.
use delta_protocol.Prelude.{not, List, [], ◌∷◌}
use delta_protocol.Text.{Text, Bytes, lit, starts_with}
use delta_protocol.Json.{Fields, str, obj, get, has_key, as_text, is_text}
use delta_protocol.Result.{ok, ◌>>=◌, ◌>>◌, require, or_raise}
use delta_protocol.Crypto.{Crypto, sha256_prefixed}
use delta_protocol.Cli.Validate.{
  Outcome, invalid, mismatch, missing, key_mismatch, target_mismatch, verification_failed,
  canonical_json_bytes, decode_prefixed_b64url, public_key_from_value, validate_sha256_hash,
  validate_ledger_id, validate_ledger_seq,
}

-- `require_equal(label, d.get(key), expected)`
unfoldable pub require_equal : Text → Fields → Text → Outcome (Unit {0})
require_equal key d expected = require (is_text (get key d) expected) (mismatch key)

-- What differs between the two functions: the type of the document, the field of its key, and the
-- role of the signature.
pub record Signing : Type 0 where
  pub target_type : Text
  pub key_field : Text
  pub role : Text

-- The key of the document, which the signature must name.
unfoldable pub signing_key : Signing → Fields → Fields → Outcome Text
signing_key s doc signature = do
  key ← or_raise (as_text (get s.key_field doc)) (invalid s.key_field)
  require (starts_with key (lit "ed25519:")) (invalid s.key_field)
  require (is_text (get (lit "public_key") signature) key) key_mismatch
  ok key

-- From the canonical bytes on: the target hash and the Ed25519 signature.
unfoldable pub check_signed_bytes : Crypto → Text → Bytes → Fields → Outcome (Unit {0})
check_signed_bytes c key message signature = do
  require (is_text (get (lit "target_hash") signature) (sha256_prefixed c message)) target_mismatch
  raw ←
      decode_prefixed_b64url (lit "signature") (get (lit "signature") signature) (lit "ed25519sig:")
  public ← public_key_from_value (str key)
  require (c.verifies public raw message) verification_failed

-- The hashes of the document and of its signature.
unfoldable pub verify_signed_or_raise : Crypto → Signing → Fields → Fields → Outcome (Text × Text)
verify_signed_or_raise c s doc signature = do
  require_equal (lit "type") doc s.target_type
  require_equal (lit "protocol_version") doc (lit "DELTA-0")
  require_equal (lit "type") signature (lit "delta_signature")
  require_equal (lit "protocol_version") signature (lit "DELTA-0")
  require_equal (lit "role") signature s.role
  require_equal (lit "alg") signature (lit "Ed25519")
  require_equal (lit "target_type") signature s.target_type
  key ← signing_key s doc signature
  message ← canonical_json_bytes (obj doc)
  check_signed_bytes c key message signature
  envelope ← canonical_json_bytes (obj signature)
  ok (sha256_prefixed c message, sha256_prefixed c envelope)

abbrev pub executor_signing : Signing
executor_signing = record {
  target_type = lit "delta_claim";
  key_field = lit "executor_pubkey";
  role = lit "executor";
}

abbrev pub verifier_signing : Signing
verifier_signing = record {
  target_type = lit "delta_attestation";
  key_field = lit "verifier_pubkey";
  role = lit "verifier";
}

abbrev pub verify_executor_signature_or_raise : Crypto → Fields → Fields → Outcome (Text × Text)
verify_executor_signature_or_raise c = verify_signed_or_raise c executor_signing

abbrev pub verify_verifier_signature_or_raise : Crypto → Fields → Fields → Outcome (Text × Text)
verify_verifier_signature_or_raise c = verify_signed_or_raise c verifier_signing

-- The five hashes of an entry, in the order of the checks.
abbrev pub hash_fields : List Text
hash_fields =
    lit "prev_entry_hash"
    ∷ lit "claim_hash"
    ∷ lit "executor_sig_hash"
    ∷ lit "attestation_hash"
    ∷ lit "verifier_sig_hash"
    ∷ []

unfoldable pub validate_hashes : List Text → Fields → Outcome (Unit {0})
validate_hashes [] entry = ok tt
validate_hashes (k ∷ ks) entry = validate_sha256_hash k (get k entry) >> validate_hashes ks entry

-- `verify_ledger_entry_or_raise`
unfoldable pub verify_ledger_entry_or_raise : Crypto → Fields → Outcome Text
verify_ledger_entry_or_raise c entry = do
  require_equal (lit "type") entry (lit "delta_ledger_entry")
  require_equal (lit "protocol_version") entry (lit "DELTA-0")
  validate_ledger_id (get (lit "ledger_id") entry)
  validate_ledger_seq (get (lit "seq") entry)
  validate_hashes hash_fields entry
  require (has_key (lit "included_at") entry) (missing (lit "included_at"))
  require (not (has_key (lit "recorded_at") entry)) (invalid (lit "recorded_at"))
  b ← canonical_json_bytes (obj entry)
  ok (sha256_prefixed c b)
