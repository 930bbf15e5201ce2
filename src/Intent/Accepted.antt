-- ===== src/Intent/Accepted.antt =====
-- What an approval that passes the checks is.
use delta_protocol.Intent.Verify.{record_policy}
use delta_protocol.Json.{is_dict→≡, as_dict-obj}
use delta_protocol.Intent.Keys.{invalid_signature}
use delta_protocol.Prelude.{◌≡◌, refl, none, ap, Bool, true, Option, some, List, &&-split, arith}
use delta_protocol.Text.{Text, Bytes, lit}
use delta_protocol.Json.{
  Value, Fields, str, obj, get, as_dict, as_list, dict_or_empty, is_text, is_text→≡,
}
use delta_protocol.Result.{
  ok, err, or_raise, or_raise-eq-ok, Ensures, holds, Ensures-ok, Ensures-bind, Ensures-bind_any,
  Ensures-require,
}
use delta_protocol.Crypto.{Crypto, sha256_prefixed}
use delta_protocol.Intent.Keys.{
  Outcome, Env, canonical_json_bytes, canonical_sha256, parse_prefixed_b64, load_registry,
  attribute_error, bad_registry,
}
use delta_protocol.Intent.Windows.{PolicyHolds, intent_policy_ok-PolicyHolds}
use delta_protocol.Intent.Deadline.{RecordPolicy, record_intent_policy_ok-RecordPolicy}
use delta_protocol.Intent.Policy.{intent_policy_ok}
use delta_protocol.Intent.Verify.{Checks, all_ok, make_checks, verify, check_signature, or_false}
use delta_protocol.Intent.Registered.{RegistryAccepts, registry_check-RegistryAccepts}

or_false-ok : (o : Outcome Bool) → or_false o ≡ true → o ≡ ok true
or_false-ok (ok b) h = ap ok h
or_false-ok (err e) h = cc

-- The Ed25519 signature is of the canonical bytes of the attestation.
pub record Signed (c : Crypto) (env : Env) (attestation : Fields) (public_key signature : Value)
    : Type 0 where
  pub message : Bytes
  pub key : Bytes
  pub raw : Bytes
  pub canonical : canonical_json_bytes (obj attestation) ≡ ok message
  pub key_text : parse_prefixed_b64 env public_key (lit "ed25519:") 32 ≡ ok key
  pub signature_text : parse_prefixed_b64 env signature (lit "ed25519sig:") 64 ≡ ok raw
  pub verifies : c.verifies key raw message ≡ true

check_signature-Signed :
    (c : Crypto) (env : Env) (a : Fields) (public_key signature : Value)
    → Ensures
        (λ b. Signed c env a public_key signature)
        (check_signature c env a public_key signature)
unfolding check_signature
check_signature-Signed c env a public_key signature =
    Ensures-bind_any (parse_prefixed_b64 env public_key (lit "ed25519:") 32) λ key e1.
      Ensures-bind_any (parse_prefixed_b64 env signature (lit "ed25519sig:") 64) λ raw e2.
        Ensures-bind_any (canonical_json_bytes (obj a)) λ message e3.
          Ensures-require (c.verifies key raw message) invalid_signature λ v. holds (record {
            message = message;
            key = key;
            raw = raw;
            canonical = e3;
            key_text = e1;
            signature_text = e2;
            verifies = v;
          })

-- The hash of the canonical bytes of a value.
pub record Hashed (c : Crypto) (v : Value) (h : Text) : Type 0 where
  pub bytes : Bytes
  pub canonical : canonical_json_bytes v ≡ ok bytes
  pub is_hash : h ≡ sha256_prefixed c bytes

canonical_sha256-Hashed : (c : Crypto) (v : Value) → Ensures (Hashed c v) (canonical_sha256 c v)
unfolding canonical_sha256
canonical_sha256-Hashed c v =
    Ensures-bind_any (canonical_json_bytes v)
      λ b e. holds (record { bytes = b; canonical = e; is_hash = refl })

-- No registry, or a dict with the list of the keys.
pub data Loads : Option Value → Option (List Value) → Type 0 where
  no_registry : Loads none none
  has_keys :
      {fs : Fields} {keys : List Value}
      → as_list (get (lit "keys") fs) ≡ some keys
      → Loads (some (obj fs)) (some keys)

load_registry-Loads : (registry : Option Value) → Ensures (Loads registry) (load_registry registry)
unfolding load_registry
load_registry-Loads none = holds no_registry
load_registry-Loads (some v) = Ensures-bind_any (or_raise (as_dict v) bad_registry) λ fs is_dict.
    Ensures-bind_any (or_raise (as_list (get (lit "keys") fs)) bad_registry) λ keys found.
      rw (as_dict-obj v fs (or_raise-eq-ok _ _ _ is_dict))
        (holds (has_keys (or_raise-eq-ok _ _ _ found)))

record_policy-RecordPolicy :
    (env : Env) (v : Value) (fs a : Fields)
    → v ≡ obj fs
    → Ensures (λ good. good ≡ true → RecordPolicy env fs a) (record_policy env v a)
unfolding record_policy
record_policy-RecordPolicy env v fs a e =
    rw (e, record_policy) (record_intent_policy_ok-RecordPolicy env fs a)

-- An approval of a record that passes every check.
pub record Approved (c : Crypto) (env : Env) (attestation signature_doc record_ : Value)
    (registry : Option Value) : Type 0 where
  pub a : Fields
  pub s : Fields
  pub keys : Option (List Value)
  pub target_hash : Text
  pub record_hash : Text
  pub is_attestation : as_dict attestation ≡ some a
  pub record_fields : Fields
  pub is_record : record_ ≡ obj record_fields
  pub is_signature : as_dict signature_doc ≡ some s
  pub loads : Loads registry keys
  pub hashes : Hashed c (obj a) target_hash
  pub record_hashes : Hashed c record_ record_hash
  pub target : get (lit "target_hash") s ≡ str target_hash
  pub binds : get (lit "record_hash") (dict_or_empty (get (lit "target") a)) ≡ str record_hash
  pub signed : Signed c env a (get (lit "public_key") s) (get (lit "signature") s)
  pub policy : PolicyHolds env a
  pub record_policy : RecordPolicy env record_fields a
  pub registered : RegistryAccepts c env (get (lit "public_key") s) (get (lit "created_at") a) keys

all_ok-parts :
    (k : Checks)
    → all_ok k ≡ true
    → (k.shape_ok ≡ true)
      × (k.target_hash_ok ≡ true)
      × (k.signature_ok ≡ true)
      × (k.record_binding_ok ≡ true)
      × (k.intent_policy_ok ≡ true)
      × (k.record_intent_policy_ok ≡ true)
      × (k.registry_ok ≡ true)
unfolding all_ok
all_ok-parts k h = ground arith

-- An approval that passes every check is signed by its key over the canonical bytes of the
-- attestation, names the hash of the record, which is a dict, and is verified inside the time
-- window of its policy. The record asks for no approval, or asks for one and is approved before or
-- at its deadline, where it gives a deadline and the approval a creation time. Where a registry is
-- given, the key stands in it, and was active at the creation time of the approval, where the
-- approval has one.
pub verify-Approved :
    (c : Crypto) (env : Env) (attestation signature_doc record_ : Value) (registry : Option Value)
    (k : Checks)
    → verify c env attestation signature_doc record_ registry ≡ ok k
    → all_ok k ≡ true
    → Approved c env attestation signature_doc record_ registry
unfolding verify make_checks
verify-Approved c env attestation signature_doc record_ registry k h good =
    Ensures-ok
      {P = λ (k : Checks).
        all_ok k ≡ true → Approved c env attestation signature_doc record_ registry}
      (Ensures-bind (load_registry-Loads registry) λ keys loaded.
        Ensures-bind_any (or_raise (as_dict attestation) attribute_error) λ a ea.
          Ensures-bind_any (or_raise (as_dict signature_doc) attribute_error) λ s es.
            Ensures-bind (canonical_sha256-Hashed c (obj a)) λ target_hash e1.
              Ensures-bind (canonical_sha256-Hashed c record_) λ record_hash e2. holds λ q.
                let (shape, t, g, b, p, rp, y) =
                  all_ok-parts (make_checks c env keys a s record_ target_hash record_hash) q in
                let public_key = get (lit "public_key") s in
                let signature = get (lit "signature") s in
                let bound = dict_or_empty (get (lit "target") a) in
                record {
                  a = a;
                  s = s;
                  keys = keys;
                  target_hash = target_hash;
                  record_hash = record_hash;
                  is_attestation = or_raise-eq-ok (as_dict attestation) attribute_error a ea;
                  is_signature = or_raise-eq-ok (as_dict signature_doc) attribute_error s es;
                  loads = loaded;
                  record_fields = dict_or_empty record_;
                  is_record = is_dict→≡ record_ shape;
                  record_policy =
                      Ensures-ok
                        (record_policy-RecordPolicy env record_ (dict_or_empty record_) a
                          (is_dict→≡ record_ shape))
                        (or_false-ok (record_policy env record_ a) rp) refl;
                  hashes = e1;
                  record_hashes = e2;
                  target = is_text→≡ (get (lit "target_hash") s) target_hash t;
                  binds = is_text→≡ (get (lit "record_hash") bound) record_hash (
                      (&&-split (is_text (get (lit "record_hash") bound) record_hash)
                        (is_text (get (lit "record_type") bound) (lit "delta_sensor_record")) b).0);
                  signed =
                      Ensures-ok (check_signature-Signed c env a public_key signature)
                        (or_false-ok (check_signature c env a public_key signature) g);
                  policy =
                      Ensures-ok (intent_policy_ok-PolicyHolds env a)
                        (or_false-ok (intent_policy_ok env a) p) refl;
                  registered =
                      registry_check-RegistryAccepts c env public_key (get (lit "created_at") a)
                        keys y;
                })
      h good
