-- ===== src/BundleSign/Parts.antt =====
-- The parts of a signature document that `verify` reads.
use delta_protocol.Prelude.{◌≡◌, refl, sym, true, Bool-cases, inl, inr, some, drop, length}
use delta_protocol.Text.{Text, Bytes, lit, starts_with}
use delta_protocol.Base64.{b64url_decode}
use delta_protocol.Json.{
  Value, Fields, null, bool, int, float, str, arr, obj, other, get, get_or, lookup, no_fields,
  truthy, as_dict, as_dict-obj,
}
use delta_protocol.Result.{
  ok, or_raise, or_raise-eq-ok, ok-injective, Ensures, holds, Ensures-bind_any,
}
use delta_protocol.Utf8.{encode}
use delta_protocol.Crypto.{Crypto, sha256_prefixed}
use delta_protocol.BundleSign.Keys.{
  public_key_hash, load_public_key, attribute_error, unencodable, not_base64url,
}
use delta_protocol.BundleSign.Verify.{or_empty, signature_verifies}

-- A signature by a key that is a text, over these bytes.
pub record Signed (c : Crypto) (sig_value pub_value : Value) (message : Bytes) : Type 0 where
  pub key : Bytes
  pub raw : Bytes
  pub sig_text : Text
  pub key_text : Text
  pub is_sig : sig_value ≡ str sig_text
  pub is_key : pub_value ≡ str key_text
  pub has_prefix : starts_with sig_text (lit "ed25519sig:") ≡ true
  pub reads_key : load_public_key pub_value ≡ ok key
  pub reads_sig : b64url_decode (drop (length (lit "ed25519sig:")) sig_text) ≡ some raw
  pub verifies : c.verifies key raw message ≡ true

module _ (c : Crypto) where
  signature_verifies-texts :
      (t p : Text) (message : Bytes)
      → Ensures
          (λ good. good ≡ true → Signed c (str t) (str p) message)
          (signature_verifies c (str t) (str p) message)
  unfolding signature_verifies
  signature_verifies-texts t p message = elim (Bool-cases (starts_with t (lit "ed25519sig:"))) [
    | inr other_prefix ↦ rw (other_prefix, signature_verifies) (holds λ k. cc)
    | inl prefixed ↦
        rw (prefixed, signature_verifies)
          (Ensures-bind_any (load_public_key (str p)) λ key ek.
            Ensures-bind_any
              (or_raise (b64url_decode (drop (length (lit "ed25519sig:")) t)) not_base64url)
              λ raw er. holds λ k. record {
                key = key;
                raw = raw;
                sig_text = t;
                key_text = p;
                is_sig = refl;
                is_key = refl;
                has_prefix = prefixed;
                reads_key = ek;
                reads_sig = or_raise-eq-ok _ _ _ er;
                verifies = k;
              })
  ]

  signature_verifies-text :
      (t : Text) (p : Value) (message : Bytes)
      → Ensures
          (λ good. good ≡ true → Signed c (str t) p message)
          (signature_verifies c (str t) p message)
  unfolding signature_verifies
  signature_verifies-text t (str p) message = signature_verifies-texts t p message
  signature_verifies-text t null message = holds λ k. cc
  signature_verifies-text t (bool b) message = holds λ k. cc
  signature_verifies-text t (int i) message = holds λ k. cc
  signature_verifies-text t (float r i) message = holds λ k. cc
  signature_verifies-text t (arr xs) message = holds λ k. cc
  signature_verifies-text t (obj fs) message = holds λ k. cc
  signature_verifies-text t (other n) message = holds λ k. cc

  pub signature_verifies-Signed :
      (s p : Value) (message : Bytes)
      → Ensures (λ good. good ≡ true → Signed c s p message) (signature_verifies c s p message)
  unfolding signature_verifies
  signature_verifies-Signed (str t) p message = signature_verifies-text t p message
  signature_verifies-Signed null p message = holds λ k. cc
  signature_verifies-Signed (bool b) p message = holds λ k. cc
  signature_verifies-Signed (int i) p message = holds λ k. cc
  signature_verifies-Signed (float r i) p message = holds λ k. cc
  signature_verifies-Signed (arr xs) p message = holds λ k. cc
  signature_verifies-Signed (obj fs) p message = holds λ k. cc
  signature_verifies-Signed (other n) p message = holds λ k. cc

-- What `v or {}` gives has an entry only where the value is a dict.
pub or_empty-has :
    (v : Value) (fs : Fields) (k t : Text) → or_empty v ≡ ok fs → get k fs ≡ str t → v ≡ obj fs
unfolding or_empty get get_or lookup
or_empty-has v fs k t made found = elim (Bool-cases (truthy v)) [
  | inl given ↦
      as_dict-obj v fs
        (or_raise-eq-ok (as_dict v) attribute_error fs (rw (given, or_empty) at made))
  | inr missing ↦
      let none_here : no_fields ≡ fs = ok-injective _ _ (rw (missing, or_empty) at made) in
      let absurd : null ≡ str t = rw (sym none_here) at found in cc
]

pub public_key_hash-encode :
    (c : Crypto) (t : Text)
    → Ensures
        (λ h. (b : Bytes) × (encode t ≡ some b) × (h ≡ sha256_prefixed c b))
        (public_key_hash c t)
unfolding public_key_hash
public_key_hash-encode c t =
    Ensures-bind_any (or_raise (encode t) unencodable)
      λ b e. holds (b, or_raise-eq-ok _ _ _ e, refl)
