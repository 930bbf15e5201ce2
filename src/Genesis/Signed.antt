-- ===== src/Genesis/Signed.antt =====
-- What an accepted signature envelope shows.
use delta_protocol.Prelude.{ℕ, Bool, ◌≡◌, true, false, some}
use delta_protocol.Text.{Text, Bytes, lit}
use delta_protocol.Json.{Value, Fields, str, lookup, as_dict}
use delta_protocol.Json.Bytes.{json_bytes}
use delta_protocol.Result.{
  ok, require, or_raise, or_raise-eq-ok, require-eq-ok, Ensures, holds, Ensures-ok, Ensures-bind,
  Ensures-bind_any, Ensures-intro,
}
use delta_protocol.Crypto.{Crypto}
use delta_protocol.Genesis.Chain.{
  missing_field, not_object, unencodable, signature_invalid, sha256_object, require_field,
  require_field_equal,
}
use delta_protocol.Genesis.Linked.{require_field_equal-eq-ok}
use delta_protocol.Genesis.Envelope.{
  assert_hash_format, public_key_from_delta, signature_from_delta, verify_signature,
  EnvelopeExpected, check_envelope_header, verify_signature_envelope,
}

-- A signature by a key over a message that is the canonical form of the target.
pub record SignatureHolds (c : Crypto) (public_key_value target signature_value : Value)
    : Type 0 where
  pub public_key : Bytes
  pub signature : Bytes
  pub message : Bytes
  pub reads_key : public_key_from_delta public_key_value ≡ ok public_key
  pub reads_signature : signature_from_delta signature_value ≡ ok signature
  pub is_message : json_bytes false target ≡ some message
  pub verifies : c.verifies public_key signature message ≡ true

verify_signature-holds :
    (c : Crypto) (p t s : Value) → Ensures (λ u. SignatureHolds c p t s) (verify_signature c p t s)
unfolding verify_signature
verify_signature-holds c p t s = Ensures-bind_any (public_key_from_delta p) λ public_key ep.
    Ensures-bind_any (signature_from_delta s) λ signature es.
      Ensures-bind_any (or_raise (json_bytes false t) unencodable) λ message em.
        Ensures-intro (require (c.verifies public_key signature message) signature_invalid) λ u q.
          record {
            public_key = public_key;
            signature = signature;
            message = message;
            reads_key = ep;
            reads_signature = es;
            is_message = or_raise-eq-ok (json_bytes false t) unencodable message em;
            verifies = require-eq-ok (c.verifies public_key signature message) signature_invalid q;
          }

-- The fields that an envelope has.
pub record HeaderFields (e : Fields) (x : EnvelopeExpected) : Type 0 where
  pub role : lookup (lit "role") e ≡ some (str x.role)
  pub target_type : lookup (lit "target_type") e ≡ some (str x.target_type)
  pub target_hash : lookup (lit "target_hash") e ≡ some (str x.target_hash)
  pub public_key : lookup (lit "public_key") e ≡ some (str x.public_key)

check_envelope_header-fields :
    (e : Fields) (x : EnvelopeExpected)
    → Ensures (λ u. HeaderFields e x) (check_envelope_header e x)
unfolding check_envelope_header
check_envelope_header-fields e x =
    Ensures-bind_any (require_field_equal e (lit "type") (lit "delta_signature")) λ u1 q1.
      Ensures-bind_any (require_field_equal e (lit "protocol_version") (lit "DELTA-0")) λ u2 q2.
        Ensures-bind_any (require_field_equal e (lit "role") x.role) λ u3 q3.
          Ensures-bind_any (require_field_equal e (lit "alg") (lit "Ed25519")) λ u4 q4.
            Ensures-bind_any (require_field_equal e (lit "target_type") x.target_type) λ u5 q5.
              Ensures-bind_any (require_field_equal e (lit "target_hash") x.target_hash) λ u6 q6.
                Ensures-intro (require_field_equal e (lit "public_key") x.public_key) λ u7 q7.
                  record {
                    role = require_field_equal-eq-ok e (lit "role") x.role q3;
                    target_type = require_field_equal-eq-ok e (lit "target_type") x.target_type q5;
                    target_hash = require_field_equal-eq-ok e (lit "target_hash") x.target_hash q6;
                    public_key = require_field_equal-eq-ok e (lit "public_key") x.public_key q7;
                  }

-- An envelope that is accepted, with its hash.
pub record EnvelopeAccepted (c : Crypto) (envelope : Value) (x : EnvelopeExpected) (h : Text)
    : Type 0 where
  pub fields : Fields
  pub signature : Value
  pub is_object : as_dict envelope ≡ some fields
  pub header : HeaderFields fields x
  pub has_signature : lookup (lit "signature") fields ≡ some signature
  pub signed : SignatureHolds c (str x.public_key) x.target signature
  pub hashes : sha256_object c envelope ≡ ok h

-- An accepted envelope has the expected role, target type, target hash and public key; its
-- signature is one of this key over the canonical bytes of the target, and the hash that is given
-- is that of the envelope.
pub verify_signature_envelope-EnvelopeAccepted :
    (c : Crypto) (wide : ℕ → Bool) (envelope : Value) (x : EnvelopeExpected) (h : Text)
    → verify_signature_envelope c wide envelope x ≡ ok h
    → EnvelopeAccepted c envelope x h
unfolding verify_signature_envelope require_field
verify_signature_envelope-EnvelopeAccepted c wide envelope x h run =
    Ensures-ok {P = EnvelopeAccepted c envelope x}
      (Ensures-bind_any (or_raise (as_dict envelope) (not_object (lit "envelope"))) λ e ee.
        Ensures-bind (check_envelope_header-fields e x) λ u1 header.
          Ensures-bind_any (or_raise (lookup (lit "signature") e) (missing_field (lit "signature")))
            λ signature es. Ensures-bind_any (signature_from_delta signature) λ checked ec.
              Ensures-bind (verify_signature-holds c (str x.public_key) x.target signature)
                λ u2 signed. Ensures-bind_any (sha256_object c envelope) λ g eg.
                  Ensures-bind_any (assert_hash_format wide (lit "envelope_hash") (str g))
                    λ u3 formatted. holds (record {
                      fields = e;
                      signature = signature;
                      is_object =
                          or_raise-eq-ok (as_dict envelope) (not_object (lit "envelope")) e ee;
                      header = header;
                      has_signature =
                          or_raise-eq-ok (lookup (lit "signature") e)
                            (missing_field (lit "signature")) signature es;
                      signed = signed;
                      hashes = eg;
                    }))
      run
