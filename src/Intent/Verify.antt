-- ===== src/Intent/Verify.antt =====
-- `cmd_verify`: the ten checks of an approval.
use delta_protocol.Json.{is_dict}
use delta_protocol.Prelude.{Bool, true, false, ◌&&◌, Option, List}
use delta_protocol.Text.{Text, lit}
use delta_protocol.Json.{Value, Fields, obj, get, as_dict, dict_or_empty, is_text}
use delta_protocol.Result.{ok, err, ◌>>=◌, ◌>>◌, require, or_raise}
use delta_protocol.Crypto.{Crypto}
use delta_protocol.Intent.Keys.{
  Outcome, Env, attribute_error, invalid_signature, canonical_json_bytes, canonical_sha256,
  parse_prefixed_b64, public_key_hash, load_registry,
}
use delta_protocol.Intent.Policy.{
  RegistryResult, registry_ok, find_registry_key, intent_policy_ok, record_intent_policy_ok,
}

-- The body of the first `try`: the Ed25519 signature of the attestation.
unfoldable pub check_signature : Crypto → Env → Fields → Value → Value → Outcome Bool
check_signature c env attestation public_key signature = do
  key ← parse_prefixed_b64 env public_key (lit "ed25519:") 32
  raw ← parse_prefixed_b64 env signature (lit "ed25519sig:") 64
  message ← canonical_json_bytes (obj attestation)
  require (c.verifies key raw message) invalid_signature
  ok true

-- The body of the second `try`.
unfoldable pub check_key_hash : Crypto → Env → Value → Value → Outcome Bool
check_key_hash c env public_key declared = do
  h ← public_key_hash c env public_key
  ok (is_text declared h)

-- `except Exception`: the check is `False`.
abbrev pub or_false : Outcome Bool → Bool
or_false (ok b) = b
or_false (err e) = false

abbrev pub registry_check : Outcome RegistryResult → Bool
registry_check (ok r) = registry_ok r
registry_check (err e) = false

-- `checks`
pub record Checks : Type 0 where
  pub shape_ok : Bool
  pub attestation_type_ok : Bool
  pub signature_type_ok : Bool
  pub target_hash_ok : Bool
  pub signature_ok : Bool
  pub public_key_hash_ok : Bool
  pub record_binding_ok : Bool
  pub intent_policy_ok : Bool
  pub record_intent_policy_ok : Bool
  pub registry_ok : Bool

-- `all([...])`
unfoldable pub all_ok : Checks → Bool
all_ok k =
    k.shape_ok
    && (k.attestation_type_ok
        && (k.signature_type_ok
            && (k.target_hash_ok
                && (k.signature_ok
                    && (k.public_key_hash_ok
                        && (k.record_binding_ok
                            && (k.intent_policy_ok
                                && (k.record_intent_policy_ok && k.registry_ok))))))))

-- The call of `record_intent_policy_ok`, on what may be no dict.
unfoldable pub record_policy : Env → Value → Fields → Outcome Bool
record_policy env (obj r) attestation = record_intent_policy_ok env r attestation
record_policy env _ attestation = err attribute_error

-- The checks, from the hashes of the attestation and of the record.
unfoldable pub make_checks :
    Crypto → Env → Option (List Value) → Fields → Fields → Value → Text → Text → Checks
make_checks c env keys attestation signature_doc record_ target_hash record_hash =
    let public_key = get (lit "public_key") signature_doc in
    let target = dict_or_empty (get (lit "target") attestation) in
    record {
      shape_ok = is_dict record_;
      attestation_type_ok =
          is_text (get (lit "type") attestation) (lit "delta_intent_attestation")
          && is_text (get (lit "protocol") attestation) (lit "DELTA-0");
      signature_type_ok =
          is_text (get (lit "type") signature_doc) (lit "delta_intent_signature")
          && (is_text (get (lit "alg") signature_doc) (lit "Ed25519")
              && is_text (get (lit "protocol") signature_doc) (lit "DELTA-0"));
      target_hash_ok = is_text (get (lit "target_hash") signature_doc) target_hash;
      signature_ok =
          or_false
            (check_signature c env attestation public_key (get (lit "signature") signature_doc));
      public_key_hash_ok =
          or_false (check_key_hash c env public_key (get (lit "public_key_hash") signature_doc));
      record_binding_ok =
          is_text (get (lit "record_hash") target) record_hash
          && is_text (get (lit "record_type") target) (lit "delta_sensor_record");
      intent_policy_ok = or_false (intent_policy_ok env attestation);
      record_intent_policy_ok = or_false (record_policy env record_ attestation);
      registry_ok =
          registry_check
            (find_registry_key c env keys public_key (get (lit "created_at") attestation));
    }

-- `cmd_verify`, from the values in the files. An attestation or a signature that is no
-- dict has no `get`.
unfoldable pub verify : Crypto → Env → Value → Value → Value → Option Value → Outcome Checks
verify c env attestation signature_doc record_ registry = do
  keys ← load_registry registry
  a ← or_raise (as_dict attestation) attribute_error
  s ← or_raise (as_dict signature_doc) attribute_error
  target_hash ← canonical_sha256 c (obj a)
  record_hash ← canonical_sha256 c record_
  ok (make_checks c env keys a s record_ target_hash record_hash)
