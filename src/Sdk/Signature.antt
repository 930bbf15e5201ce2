-- ===== src/Sdk/Signature.antt =====
-- `verify_signature` and the functions over it.
use delta_protocol.Prelude.{ℕ, Bool, true, Option, none, some, length, ◌==◌}
use delta_protocol.Text.{Text, lit, text_eq}
use delta_protocol.Json.{Value, Fields, obj}
use delta_protocol.Result.{ok, err, ◌>>=◌, ◌>>◌, require}
use delta_protocol.Crypto.{Crypto, sha256_prefixed}
use delta_protocol.Sdk.Format.{
  SdkError, Outcome, unicode_error, mismatch, key_length, signature_length, verification_failed,
  canonical_json_bytes, require_dict, require_string, decode_prefixed_base64url,
  validate_sha256_prefixed,
}

-- The keyword arguments.
pub record Expected : Type 0 where
  pub payload_type : Option Text
  pub role : Option Text
  pub target_type : Option Text

-- `VerificationResult`: the fields of a success, or the reason of a failure.
pub record Verified : Type 0 where
  pub payload_hash : Text
  pub target_hash : Text
  pub role : Text
  pub target_type : Text
  pub public_key : Text

pub data VerificationResult : Type 0 where
  verified : Verified → VerificationResult
  failed : SdkError → VerificationResult

-- `if expected is not None and actual != expected: raise`
unfoldable pub matches : Option Text → Text → Bool
matches none actual = true
matches (some expected) actual = text_eq actual expected

-- The check of the type of the payload, which is read only where a type is expected.
unfoldable pub check_payload_type : Option Text → Fields → Outcome (Unit {0})
check_payload_type none payload = ok tt
check_payload_type (some expected) payload = do
  payload_type ← require_string payload (lit "type")
  require (text_eq payload_type expected) (mismatch (lit "payload.type"))

-- What the header of the envelope says.
pub record Header : Type 0 where
  pub role : Text
  pub target_type : Text
  pub target_hash : Text
  pub public_key : Text
  pub signature : Text

unfoldable pub read_header : (ℕ → Bool) → Expected → Fields → Outcome Header
read_header wide expected sig = do
  sig_type ← require_string sig (lit "type")
  require (text_eq sig_type (lit "delta_signature")) (mismatch (lit "signature.type"))
  protocol_version ← require_string sig (lit "protocol_version")
  require (text_eq protocol_version (lit "DELTA-0")) (mismatch (lit "signature.protocol_version"))
  role ← require_string sig (lit "role")
  require (matches expected.role role) (mismatch (lit "signature.role"))
  alg ← require_string sig (lit "alg")
  require (text_eq alg (lit "Ed25519")) (mismatch (lit "signature.alg"))
  target_type ← require_string sig (lit "target_type")
  require (matches expected.target_type target_type) (mismatch (lit "signature.target_type"))
  target_hash ← require_string sig (lit "target_hash")
  validate_sha256_prefixed wide target_hash
  public_key ← require_string sig (lit "public_key")
  signature ← require_string sig (lit "signature")
  ok (record {
    role = role;
    target_type = target_type;
    target_hash = target_hash;
    public_key = public_key;
    signature = signature;
  })

-- The check of the hash and of the Ed25519 signature.
unfoldable pub check_signature : Crypto → Header → Fields → Outcome Text
check_signature c h payload = do
  payload_bytes ← canonical_json_bytes (obj payload)
  let payload_hash = sha256_prefixed c payload_bytes
  require (text_eq payload_hash h.target_hash) (mismatch (lit "target_hash"))
  key ← decode_prefixed_base64url h.public_key (lit "ed25519:") (lit "public_key")
  signature ← decode_prefixed_base64url h.signature (lit "ed25519sig:") (lit "signature")
  require (length key == 32) key_length
  require (length signature == 64) signature_length
  require (c.verifies key signature payload_bytes) verification_failed
  ok payload_hash

-- The body of the `try`.
unfoldable pub run_checks : Crypto → (ℕ → Bool) → Expected → Value → Value → Outcome Verified
run_checks c wide expected payload envelope = do
  payload_obj ← require_dict payload (lit "payload")
  sig_obj ← require_dict envelope (lit "signature_envelope")
  check_payload_type expected.payload_type payload_obj
  h ← read_header wide expected sig_obj
  payload_hash ← check_signature c h payload_obj
  ok (record {
    payload_hash = payload_hash;
    target_hash = h.target_hash;
    role = h.role;
    target_type = h.target_type;
    public_key = h.public_key;
  })

-- `except DELTAProtocolError`: every error but the `UnicodeEncodeError` becomes a result.
unfoldable pub catch_protocol_error : Outcome Verified → Outcome VerificationResult
catch_protocol_error (ok v) = ok (verified v)
catch_protocol_error (err unicode_error) = err unicode_error
catch_protocol_error (err e) = ok (failed e)

-- `verify_signature` and `verify_data`
unfoldable pub verify_signature :
    Crypto → (ℕ → Bool) → Expected → Value → Value → Outcome VerificationResult
verify_signature c wide expected payload envelope =
    catch_protocol_error (run_checks c wide expected payload envelope)

abbrev pub claim_expected : Expected
claim_expected = record {
  payload_type = some (lit "delta_claim");
  role = some (lit "executor");
  target_type = some (lit "delta_claim");
}

abbrev pub attestation_expected : Expected
attestation_expected = record {
  payload_type = some (lit "delta_attestation");
  role = some (lit "verifier");
  target_type = some (lit "delta_attestation");
}

abbrev pub checkpoint_expected : Expected
checkpoint_expected = record {
  payload_type = some (lit "delta_signed_checkpoint");
  role = some (lit "checkpoint_signer");
  target_type = some (lit "delta_signed_checkpoint");
}

module _ (c : Crypto) (wide : ℕ → Bool) where
  -- `verify_claim_data`
  unfoldable pub verify_claim_data : Value → Value → Outcome VerificationResult
  verify_claim_data claim signature = verify_signature c wide claim_expected claim signature

  -- `verify_attestation_data`
  unfoldable pub verify_attestation_data : Value → Value → Outcome VerificationResult
  verify_attestation_data attestation signature =
      verify_signature c wide attestation_expected attestation signature

  -- `verify_checkpoint_data`
  unfoldable pub verify_checkpoint_data : Value → Value → Outcome VerificationResult
  verify_checkpoint_data checkpoint signature =
      verify_signature c wide checkpoint_expected checkpoint signature
