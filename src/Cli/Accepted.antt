-- ===== src/Cli/Accepted.antt =====
-- What the checks accept: signed documents, and the ledger entries that are built.
use delta_protocol.Prelude.{ℕ, leb, arith}
use delta_protocol.Prelude.{◌≡◌, refl, true, some}
use delta_protocol.Text.{Text, Bytes, lit, starts_with}
use delta_protocol.Json.{
  pos, Fields, str, obj, get, get_or, lookup, has_key, as_text, is_text, is_text→≡,
}
use delta_protocol.Text.{text_eq}
use delta_protocol.Result.{
  ok, ◌>>=◌, require, or_raise, or_raise-eq-ok, Ensures, holds, Ensures-ok, Ensures-bind,
  Ensures-bind_any, Ensures-require, Ensures-intro, require-eq-ok,
}
use delta_protocol.Crypto.{Crypto, sha256_prefixed}
use delta_protocol.Cli.Validate.{
  invalid, key_mismatch, target_mismatch, verification_failed, canonical_json_bytes,
  decode_prefixed_b64url, public_key_from_value, validate_sha256_hash, validate_ledger_id,
  validate_int, sha256_re, mismatch,
}
use delta_protocol.Cli.Build.{LedgerEntryArgs, build_ledger_entry}
use delta_protocol.Cli.Verify.{
  Signing, require_equal, signing_key, check_signed_bytes, verify_signed_or_raise, validate_hashes,
  verify_ledger_entry_or_raise,
}

-- A document and a signature that are accepted with the two hashes.
pub record SignedAccepted (c : Crypto) (s : Signing) (doc signature : Fields) (hashes : Text × Text)
    : Type 0 where
  pub key : Text
  pub message : Bytes
  pub envelope : Bytes
  pub raw : Bytes
  pub public_key : Bytes
  pub kind : get (lit "type") doc ≡ str s.target_type
  pub role : get (lit "role") signature ≡ str s.role
  pub alg : get (lit "alg") signature ≡ str (lit "Ed25519")
  pub target_type : get (lit "target_type") signature ≡ str s.target_type
  pub signer : as_text (get s.key_field doc) ≡ some key
  pub same_key : get (lit "public_key") signature ≡ str key
  pub canonical : canonical_json_bytes (obj doc) ≡ ok message
  pub target : get (lit "target_hash") signature ≡ str (sha256_prefixed c message)
  pub key_bytes : public_key_from_value (str key) ≡ ok public_key
  pub signature_bytes :
      decode_prefixed_b64url (lit "signature") (get (lit "signature") signature) (lit "ed25519sig:")
      ≡ ok raw
  pub verifies : c.verifies public_key raw message ≡ true
  pub envelope_bytes : canonical_json_bytes (obj signature) ≡ ok envelope
  pub result : hashes ≡ (sha256_prefixed c message, sha256_prefixed c envelope)

require_equal→≡ : (k : Text) (d : Fields) (t : Text) → require_equal k d t ≡ ok tt → get k d ≡ str t
unfolding require_equal
require_equal→≡ k d t h = is_text→≡ (get k d) t (require-eq-ok (is_text (get k d) t) (mismatch k) h)

-- What the key and the signature over the bytes satisfy.
pub record KeyAccepted (s : Signing) (doc signature : Fields) (key : Text) : Type 0 where
  pub signer : as_text (get s.key_field doc) ≡ some key
  pub same_key : get (lit "public_key") signature ≡ str key

pub record BytesAccepted (c : Crypto) (key : Text) (message : Bytes) (signature : Fields)
    : Type 0 where
  pub raw : Bytes
  pub public_key : Bytes
  pub target : get (lit "target_hash") signature ≡ str (sha256_prefixed c message)
  pub key_bytes : public_key_from_value (str key) ≡ ok public_key
  pub signature_bytes :
      decode_prefixed_b64url (lit "signature") (get (lit "signature") signature) (lit "ed25519sig:")
      ≡ ok raw
  pub verifies : c.verifies public_key raw message ≡ true

module _ (c : Crypto) (s : Signing) (doc signature : Fields) where
  signing_key-accepts : Ensures (KeyAccepted s doc signature) (signing_key s doc signature)
  unfolding signing_key
  signing_key-accepts =
      Ensures-bind_any (or_raise (as_text (get s.key_field doc)) (invalid s.key_field)) λ key e.
        Ensures-require (starts_with key (lit "ed25519:")) (invalid s.key_field) λ p.
          Ensures-require (is_text (get (lit "public_key") signature) key) key_mismatch λ q.
            holds (record {
              signer = or_raise-eq-ok (as_text (get s.key_field doc)) (invalid s.key_field) key e;
              same_key = is_text→≡ (get (lit "public_key") signature) key q;
            })

  check_signed_bytes-accepts :
      (key : Text) (message : Bytes)
      → Ensures
          (λ u. BytesAccepted c key message signature)
          (check_signed_bytes c key message signature)
  unfolding check_signed_bytes
  check_signed_bytes-accepts key message =
      Ensures-require (is_text (get (lit "target_hash") signature) (sha256_prefixed c message))
        target_mismatch
        λ t.
          Ensures-bind_any
            (decode_prefixed_b64url (lit "signature") (get (lit "signature") signature)
              (lit "ed25519sig:"))
            λ raw e1. Ensures-bind_any (public_key_from_value (str key)) λ public_key e2.
              Ensures-intro (require (c.verifies public_key raw message) verification_failed) λ u v.
                record {
                  raw = raw;
                  public_key = public_key;
                  target =
                      is_text→≡ (get (lit "target_hash") signature) (sha256_prefixed c message) t;
                  key_bytes = e2;
                  signature_bytes = e1;
                  verifies =
                      require-eq-ok (c.verifies public_key raw message) verification_failed v;
                }

  -- A document and a signature that are accepted: their types and the role are the expected ones,
  -- the signature names the key of the document and the hash of its canonical bytes, the Ed25519
  -- signature of these bytes verifies, and the hashes that are returned are those of the document
  -- and of the signature.
  pub verify_signed_or_raise-SignedAccepted :
      (hashes : Text × Text)
      → verify_signed_or_raise c s doc signature ≡ ok hashes
      → SignedAccepted c s doc signature hashes
  unfolding verify_signed_or_raise
  verify_signed_or_raise-SignedAccepted hashes run =
      Ensures-ok {P = SignedAccepted c s doc signature}
        (Ensures-bind_any (require_equal (lit "type") doc s.target_type) λ u1 e1.
          Ensures-bind_any (require_equal (lit "protocol_version") doc (lit "DELTA-0")) λ u2 e2.
            Ensures-bind_any (require_equal (lit "type") signature (lit "delta_signature")) λ u3 e3.
              Ensures-bind_any (require_equal (lit "protocol_version") signature (lit "DELTA-0"))
                λ u4 e4. Ensures-bind_any (require_equal (lit "role") signature s.role) λ u5 e5.
                  Ensures-bind_any (require_equal (lit "alg") signature (lit "Ed25519")) λ u6 e6.
                    Ensures-bind_any (require_equal (lit "target_type") signature s.target_type)
                      λ u7 e7. Ensures-bind signing_key-accepts λ key k.
                        Ensures-bind_any (canonical_json_bytes (obj doc)) λ message e8.
                          Ensures-bind (check_signed_bytes-accepts key message) λ u9 b.
                            Ensures-bind_any (canonical_json_bytes (obj signature)) λ envelope e9.
                              holds (record {
                                key = key;
                                message = message;
                                envelope = envelope;
                                raw = b.raw;
                                public_key = b.public_key;
                                kind = require_equal→≡ (lit "type") doc s.target_type e1;
                                role = require_equal→≡ (lit "role") signature s.role e5;
                                alg = require_equal→≡ (lit "alg") signature (lit "Ed25519") e6;
                                target_type =
                                    require_equal→≡ (lit "target_type") signature s.target_type e7;
                                signer = k.signer;
                                same_key = k.same_key;
                                canonical = e8;
                                target = b.target;
                                key_bytes = b.key_bytes;
                                signature_bytes = b.signature_bytes;
                                verifies = b.verifies;
                                envelope_bytes = e9;
                                result = refl;
                              }))
        run

leb_zero : (n : ℕ) → leb 0 n ≡ true
leb_zero n = ground arith

-- A ledger entry that is built from a valid ledger id, a sequence number that is not negative and
-- five well-formed hashes, and that has canonical bytes, passes the check, which returns the hash of
-- these bytes.
pub verify_ledger_entry_or_raise-build_ledger_entry :
    (c : Crypto) (a : LedgerEntryArgs) (b : Bytes) (n : ℕ)
    → validate_ledger_id (str a.ledger_id) ≡ ok tt
    → a.seq ≡ pos n
    → sha256_re a.prev_entry_hash ≡ true
    → sha256_re a.claim_hash ≡ true
    → sha256_re a.executor_sig_hash ≡ true
    → sha256_re a.attestation_hash ≡ true
    → sha256_re a.verifier_sig_hash ≡ true
    → canonical_json_bytes (obj (build_ledger_entry a)) ≡ ok b
    → verify_ledger_entry_or_raise c (build_ledger_entry a) ≡ ok (sha256_prefixed c b)
unfolding verify_ledger_entry_or_raise validate_hashes validate_sha256_hash validate_int
    require_equal build_ledger_entry get get_or lookup has_key lit text_eq
verify_ledger_entry_or_raise-build_ledger_entry c a b n id seq p1 p2 p3 p4 p5 bytes =
    rw (id, ◌>>=◌)
      (rw p1
        (rw p2 (rw p3 (rw p4 (rw p5 (rw (bytes, ◌>>=◌) (rw seq (rw (leb_zero n, ◌>>=◌) refl))))))))
