-- ===== src/BundleSign/Sign.antt =====
-- `command_sign`: the signature document.
use delta_protocol.Prelude.{true, Option, List, [], ◌∷◌, ◌++◌}
use delta_protocol.Text.{Text, Bytes, lit}
use delta_protocol.Base64.{b64url_encode}
use delta_protocol.Json.{Value, Fields, bool, str, obj, no_fields, field}
use delta_protocol.Result.{ok, ◌>>=◌, or_raise}
use delta_protocol.Crypto.{Crypto, sha256_prefixed}
use delta_protocol.BundleSign.Keys.{
  Outcome, Signer, bundle_missing, canonical_json_bytes, public_key_text, public_key_hash,
  load_private_key,
}

abbrev pub signature_profile : Text
signature_profile = lit "delta_signed_bundle_v2_8_0"

-- The arguments and the clock. `bundle` is what the file holds, where there is one.
pub record SignArgs : Type 0 where
  pub path_hint : Text
  pub bundle : Option Bytes
  pub private_key : Text
  pub signer : Text
  pub purpose : Text
  pub created_at : Text
  -- `json.loads`
  pub loads : Text → Option Value

abbrev flags : List Text → Fields
flags [] = no_fields
flags (k ∷ ks) = field k (bool true) (flags ks)

unfoldable pub sign_boundary : Fields
sign_boundary = flags (
    lit "does_not_replace_bundle_verify"
    ∷ lit "does_not_replace_proof_specific_verifiers"
    ∷ lit "does_not_prove_legal_identity"
    ∷ lit "does_not_prove_signer_authority"
    ∷ lit "does_not_prove_regulatory_compliance"
    ∷ [])

-- The dict that `make_signature_body` returns.
unfoldable pub signature_body : SignArgs → Text → Text → Text → Fields
signature_body args bundle_hash public_text key_hash =
    field (lit "type") (str (lit "delta_signed_bundle_signature_body")) (
      field (lit "signature_profile") (str signature_profile) (
        field (lit "created_at") (str args.created_at) (
          field (lit "bundle")
            (obj (
              field (lit "path_hint") (str args.path_hint) (
                field (lit "hash_alg") (str (lit "sha256"))
                  (field (lit "bundle_hash") (str bundle_hash) no_fields))))
            (field (lit "signer")
              (obj (
                field (lit "label") (str args.signer) (
                  field (lit "public_key") (str public_text)
                    (field (lit "public_key_hash") (str key_hash) no_fields))))
              (field (lit "purpose") (str args.purpose)
                (field (lit "security_boundary") (obj sign_boundary) no_fields))))))

-- `make_signature_body`
unfoldable pub make_signature_body : Crypto → Signer → SignArgs → Bytes → Bytes → Outcome Fields
make_signature_body c s args bundle private = do
  let public_text = public_key_text (s.public_of private)
  key_hash ← public_key_hash c public_text
  ok (signature_body args (sha256_prefixed c bundle) public_text key_hash)

-- The dict `doc`.
unfoldable pub signature_doc : Fields → Text → Text → Text → Text → Fields
signature_doc body body_hash public_text key_hash sig_text =
    field (lit "type") (str (lit "delta_signed_bundle_signature")) (
      field (lit "signature_profile") (str signature_profile) (
        field (lit "signature_body") (obj body) (
          field (lit "signature_body_hash") (str body_hash) (
            field (lit "signature")
              (obj (
                field (lit "alg") (str (lit "ed25519")) (
                  field (lit "target") (str (lit "canonical_json(signature_body)")) (
                    field (lit "target_hash") (str body_hash) (
                      field (lit "public_key") (str public_text) (
                        field (lit "public_key_hash") (str key_hash)
                          (field (lit "signature") (str sig_text) no_fields)))))))
              (field (lit "self_check")
                (obj (
                  field (lit "hash_alg") (str (lit "sha256"))
                    (field (lit "signature_body_hash") (str body_hash) no_fields)))
                no_fields)))))

-- The document over a bundle that is there, with the private key.
unfoldable pub sign_bundle : Crypto → Signer → SignArgs → Bytes → Bytes → Outcome Fields
sign_bundle c s args bundle private = do
  let public_text = public_key_text (s.public_of private)
  key_hash ← public_key_hash c public_text
  body ← make_signature_body c s args bundle private
  body_bytes ← canonical_json_bytes (obj body)
  ok (
      signature_doc body (sha256_prefixed c body_bytes) public_text key_hash
        (lit "ed25519sig:" ++ b64url_encode (s.sign private body_bytes)))

-- `command_sign`
unfoldable pub sign : Crypto → Signer → SignArgs → Outcome Fields
sign c s args = do
  bundle ← or_raise args.bundle bundle_missing
  private ← load_private_key args.loads args.private_key
  sign_bundle c s args bundle private
