-- ===== src/BundleSign/Verify.antt =====
-- `command_verify`: the checks of a signature document over a bundle.
use delta_protocol.Prelude.{Bool, true, false, ◌&&◌, Option, drop, length}
use delta_protocol.Text.{Text, Bytes, lit, starts_with}
use delta_protocol.Base64.{b64url_decode}
use delta_protocol.Json.{Value, Fields, str, obj, no_fields, get, as_dict, is_text, truthy}
use delta_protocol.Result.{ok, ◌>>=◌, or_raise}
use delta_protocol.Crypto.{Crypto, sha256_prefixed}
use delta_protocol.BundleSign.Keys.{
  Outcome, bundle_missing, signature_missing, not_an_object, missing_signature_body, not_base64url,
  attribute_error, canonical_json_bytes, public_key_hash, load_public_key,
}
use delta_protocol.BundleSign.Sign.{signature_profile}

-- `checks`
pub record Checks : Type 0 where
  pub profile_ok : Bool
  pub body_hash_ok : Bool
  pub self_check_ok : Bool
  pub bundle_hash_ok : Bool
  pub public_key_hash_ok : Bool
  pub signature_target_hash_ok : Bool
  pub signature_shape_ok : Bool
  pub signature_ok : Bool

-- `v or {}`, on which `get` is called.
unfoldable pub or_empty : Value → Outcome Fields
or_empty v = elim (truthy v) [ false ↦ ok no_fields | true ↦ or_raise (as_dict v) attribute_error ]

-- `str(v)`
abbrev pub text_of : (Value → Text) → Value → Text
text_of repr (str t) = t
text_of repr v = repr v

abbrev pub has_prefix : Value → Bool
has_prefix (str t) = starts_with t (lit "ed25519sig:")
has_prefix _ = false

-- The Ed25519 check, where the signature has its prefix and the key is a text.
unfoldable pub signature_verifies : Crypto → Value → Value → Bytes → Outcome Bool
signature_verifies c (str sig_text) (str pub_text) body_bytes =
    elim (starts_with sig_text (lit "ed25519sig:")) [
      | false ↦ ok false
      | true ↦ (do
        key ← load_public_key (str pub_text)
        raw ← or_raise (b64url_decode (drop (length (lit "ed25519sig:")) sig_text)) not_base64url
        ok (c.verifies key raw body_bytes))
    ]
signature_verifies c _ _ body_bytes = ok false

-- The checks, for a document with this body.
unfoldable pub check_signature : Crypto → (Value → Text) → Bytes → Fields → Fields → Outcome Checks
check_signature c repr bundle doc body = do
  body_bytes ← canonical_json_bytes (obj body)
  let body_hash = sha256_prefixed c body_bytes
  self_check ← or_empty (get (lit "self_check") doc)
  info ← or_empty (get (lit "bundle") body)
  signer ← or_empty (get (lit "signer") body)
  let pub_text = get (lit "public_key") signer
  key_hash ← public_key_hash c (text_of repr pub_text)
  sig ← or_empty (get (lit "signature") doc)
  verified ← signature_verifies c (get (lit "signature") sig) pub_text body_bytes
  ok (record {
    profile_ok = is_text (get (lit "signature_profile") doc) signature_profile;
    body_hash_ok = is_text (get (lit "signature_body_hash") doc) body_hash;
    self_check_ok = is_text (get (lit "signature_body_hash") self_check) body_hash;
    bundle_hash_ok = is_text (get (lit "bundle_hash") info) (sha256_prefixed c bundle);
    public_key_hash_ok = is_text (get (lit "public_key_hash") signer) key_hash;
    signature_target_hash_ok = is_text (get (lit "target_hash") sig) body_hash;
    signature_shape_ok = has_prefix (get (lit "signature") sig);
    signature_ok = verified;
  })

-- `command_verify`, on what the two files hold, where they are there.
unfoldable pub verify : Crypto → (Value → Text) → Option Bytes → Option Value → Outcome Checks
verify c repr bundle_file doc_file = do
  bundle ← or_raise bundle_file bundle_missing
  v ← or_raise doc_file signature_missing
  doc ← or_raise (as_dict v) not_an_object
  body ← or_raise (as_dict (get (lit "signature_body") doc)) missing_signature_body
  check_signature c repr bundle doc body

-- `all(checks.values())`
unfoldable pub all_ok : Checks → Bool
all_ok k =
    k.profile_ok
    && (k.body_hash_ok
        && (k.self_check_ok
            && (k.bundle_hash_ok
                && (k.public_key_hash_ok
                    && (k.signature_target_hash_ok && (k.signature_shape_ok && k.signature_ok))))))
