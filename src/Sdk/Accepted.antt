-- ===== src/Sdk/Accepted.antt =====
-- What an accepted pair of payload and signature satisfies.
use delta_protocol.Sdk.Format.{not_an_object, unicode_error}
use delta_protocol.Result.{
  Ensures, holds, Ensures-ok, Ensures-bind, Ensures-bind_any, Ensures-require,
}
use delta_protocol.Prelude.{ℕ, ◌≡◌, refl, ap, ◌∙◌, Bool, true, some, length, ◌==◌, ==_iff, arith}
use delta_protocol.Text.{Text, Bytes, lit, text_eq, text_eq→≡}
use delta_protocol.Json.{Value, Fields, obj, get, as_text, as_dict}
use delta_protocol.Result.{ok, err, or_raise, or_raise-eq-ok}
use delta_protocol.Crypto.{Crypto, sha256_prefixed}
use delta_protocol.Sdk.Format.{
  Outcome, not_an_object, unicode_error, mismatch, missing_string, key_length, signature_length,
  verification_failed, canonical_json_bytes, require_dict, require_string,
  decode_prefixed_base64url, validate_sha256_prefixed,
}
use delta_protocol.Sdk.Signature.{
  Expected, Verified, Header, verified, matches, check_payload_type, read_header, check_signature,
  run_checks, catch_protocol_error, verify_signature,
}

-- The field of a dict that must be a text.
abbrev pub HasText : Fields → Text → Text → Type 0
HasText fs k t = as_text (get k fs) ≡ some t

-- The envelope says what a signature of the profile must say.
pub record HeaderAccepted (wide : ℕ → Bool) (expected : Expected) (sig : Fields) (h : Header)
    : Type 0 where
  pub kind : HasText sig (lit "type") (lit "delta_signature")
  pub protocol : HasText sig (lit "protocol_version") (lit "DELTA-0")
  pub role : HasText sig (lit "role") h.role
  pub expected_role : matches expected.role h.role ≡ true
  pub alg : HasText sig (lit "alg") (lit "Ed25519")
  pub target_type : HasText sig (lit "target_type") h.target_type
  pub expected_target : matches expected.target_type h.target_type ≡ true
  pub target_hash : HasText sig (lit "target_hash") h.target_hash
  pub hash_format : validate_sha256_prefixed wide h.target_hash ≡ ok tt
  pub public_key : HasText sig (lit "public_key") h.public_key
  pub signature : HasText sig (lit "signature") h.signature

-- The hash and the Ed25519 signature are those of the payload.
pub record SignatureAccepted (c : Crypto) (h : Header) (payload : Fields) (hash : Text)
    : Type 0 where
  pub message : Bytes
  pub key : Bytes
  pub signature : Bytes
  pub canonical : canonical_json_bytes (obj payload) ≡ ok message
  pub hashes : sha256_prefixed c message ≡ hash
  pub target : hash ≡ h.target_hash
  pub key_text : decode_prefixed_base64url h.public_key (lit "ed25519:") (lit "public_key") ≡ ok key
  pub signature_text :
      decode_prefixed_base64url h.signature (lit "ed25519sig:") (lit "signature") ≡ ok signature
  pub key_size : length key ≡ 32
  pub signature_size : length signature ≡ 64
  pub verifies : c.verifies key signature message ≡ true

require_string-eq-ok : (o : Fields) (k t : Text) → require_string o k ≡ ok t → HasText o k t
unfolding require_string
require_string-eq-ok o k t h = or_raise-eq-ok (as_text (get k o)) (missing_string k) t h

-- A required text that must be the one given.
fixed : (o : Fields) (k t s : Text) → require_string o k ≡ ok t → text_eq t s ≡ true → HasText o k s
fixed o k t s h e = require_string-eq-ok o k t h ∙ ap some (text_eq→≡ t s e)

module _ (wide : ℕ → Bool) (expected : Expected) (sig : Fields) where
  read_header-accepts : Ensures (HeaderAccepted wide expected sig) (read_header wide expected sig)
  unfolding read_header
  read_header-accepts = Ensures-bind_any (require_string sig (lit "type")) λ sig_type e1.
      Ensures-require (text_eq sig_type (lit "delta_signature")) (mismatch (lit "signature.type"))
        λ q1. Ensures-bind_any (require_string sig (lit "protocol_version")) λ version e2.
          Ensures-require (text_eq version (lit "DELTA-0"))
            (mismatch (lit "signature.protocol_version"))
            λ q2. Ensures-bind_any (require_string sig (lit "role")) λ role e3.
              Ensures-require (matches expected.role role) (mismatch (lit "signature.role")) λ q3.
                Ensures-bind_any (require_string sig (lit "alg")) λ alg e4.
                  Ensures-require (text_eq alg (lit "Ed25519")) (mismatch (lit "signature.alg"))
                    λ q4.
                      Ensures-bind_any (require_string sig (lit "target_type")) λ target_type e5.
                        Ensures-require (matches expected.target_type target_type)
                          (mismatch (lit "signature.target_type"))
                          λ q5.
                            Ensures-bind_any (require_string sig (lit "target_hash"))
                              λ target_hash e6.
                                Ensures-bind_any (validate_sha256_prefixed wide target_hash) λ u q6.
                                  Ensures-bind_any (require_string sig (lit "public_key"))
                                    λ public_key e7.
                                      Ensures-bind_any (require_string sig (lit "signature"))
                                        λ signature e8. holds (record {
                                          kind =
                                              fixed sig (lit "type") sig_type
                                                (lit "delta_signature") e1 q1;
                                          protocol =
                                              fixed sig (lit "protocol_version") version
                                                (lit "DELTA-0") e2 q2;
                                          role = require_string-eq-ok sig (lit "role") role e3;
                                          expected_role = q3;
                                          alg = fixed sig (lit "alg") alg (lit "Ed25519") e4 q4;
                                          target_type =
                                              require_string-eq-ok sig (lit "target_type")
                                                target_type e5;
                                          expected_target = q5;
                                          target_hash =
                                              require_string-eq-ok sig (lit "target_hash")
                                                target_hash e6;
                                          hash_format = q6;
                                          public_key =
                                              require_string-eq-ok sig (lit "public_key") public_key
                                                e7;
                                          signature =
                                              require_string-eq-ok sig (lit "signature") signature
                                                e8;
                                        })

module _ (c : Crypto) (h : Header) (payload : Fields) where
  check_signature-accepts : Ensures (SignatureAccepted c h payload) (check_signature c h payload)
  unfolding check_signature
  check_signature-accepts = Ensures-bind_any (canonical_json_bytes (obj payload)) λ message e1.
      Ensures-require (text_eq (sha256_prefixed c message) h.target_hash)
        (mismatch (lit "target_hash"))
        λ q1.
          Ensures-bind_any
            (decode_prefixed_base64url h.public_key (lit "ed25519:") (lit "public_key"))
            λ key e2.
              Ensures-bind_any
                (decode_prefixed_base64url h.signature (lit "ed25519sig:") (lit "signature"))
                λ signature e3. Ensures-require (length key == 32) key_length λ q2.
                  Ensures-require (length signature == 64) signature_length λ q3.
                    Ensures-require (c.verifies key signature message) verification_failed λ q4.
                      holds (record {
                        message = message;
                        key = key;
                        signature = signature;
                        canonical = e1;
                        hashes = refl;
                        target = text_eq→≡ (sha256_prefixed c message) h.target_hash q1;
                        key_text = e2;
                        signature_text = e3;
                        key_size = (==_iff (length key) 32).0 q2;
                        signature_size = (==_iff (length signature) 64).0 q3;
                        verifies = q4;
                      })

-- The payload and the envelope are dicts, the payload has the type that is expected, and header
-- and signature are accepted.
pub record Accepted (c : Crypto) (wide : ℕ → Bool) (expected : Expected) (payload envelope : Value)
    (v : Verified) : Type 0 where
  pub payload_obj : Fields
  pub sig_obj : Fields
  pub header : Header
  pub payload_dict : as_dict payload ≡ some payload_obj
  pub sig_dict : as_dict envelope ≡ some sig_obj
  pub payload_type : check_payload_type expected.payload_type payload_obj ≡ ok tt
  pub header_accepted : HeaderAccepted wide expected sig_obj header
  pub signature_accepted : SignatureAccepted c header payload_obj v.payload_hash
  pub role : v.role ≡ header.role
  pub target_type : v.target_type ≡ header.target_type
  pub target_hash : v.target_hash ≡ header.target_hash
  pub public_key : v.public_key ≡ header.public_key

module _ (c : Crypto) (wide : ℕ → Bool) (expected : Expected) (payload envelope : Value) where
  run_checks-accepts :
      Ensures
        (Accepted c wide expected payload envelope)
        (run_checks c wide expected payload envelope)
  unfolding run_checks require_dict
  run_checks-accepts =
      Ensures-bind_any (or_raise (as_dict payload) (not_an_object (lit "payload"))) λ p e1.
        Ensures-bind_any (or_raise (as_dict envelope) (not_an_object (lit "signature_envelope")))
          λ s e2. Ensures-bind_any (check_payload_type expected.payload_type p) λ u e3.
            Ensures-bind (read_header-accepts wide expected s) λ h accepted.
              Ensures-bind (check_signature-accepts c h p) λ hash signed. holds (record {
                payload_obj = p;
                sig_obj = s;
                header = h;
                payload_dict =
                    or_raise-eq-ok (as_dict payload) (not_an_object (lit "payload")) p e1;
                sig_dict =
                    or_raise-eq-ok (as_dict envelope) (not_an_object (lit "signature_envelope")) s
                      e2;
                payload_type = e3;
                header_accepted = accepted;
                signature_accepted = signed;
                role = refl;
                target_type = refl;
                target_hash = refl;
                public_key = refl;
              })

  catch-verified :
      (r : Outcome Verified) (v : Verified) → catch_protocol_error r ≡ ok (verified v) → r ≡ ok v
  unfolding catch_protocol_error
  catch-verified (ok w) v h = ground arith
  catch-verified (err unicode_error) v h = cc
  catch-verified (err _) v h = ground arith

  -- A pair that is verified meets every condition of the profile: two dicts, the expected types and
  -- role, the envelope's fixed fields, the hash of the canonical payload as target hash, keys of 32
  -- and signatures of 64 bytes, and an Ed25519 signature over the canonical bytes.
  pub verify_signature-Accepted :
      (v : Verified)
      → verify_signature c wide expected payload envelope ≡ ok (verified v)
      → Accepted c wide expected payload envelope v
  unfolding verify_signature
  verify_signature-Accepted v h =
      Ensures-ok run_checks-accepts
        (catch-verified (run_checks c wide expected payload envelope) v h)
