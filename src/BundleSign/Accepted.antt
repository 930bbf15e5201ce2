-- ===== src/BundleSign/Accepted.antt =====
-- What a verified signature of a bundle shows.
use delta_protocol.BundleSign.Parts.{
  Signed, signature_verifies-Signed, or_empty-has, public_key_hash-encode,
}
use delta_protocol.Prelude.{◌≡◌, sym, ap, ◌∙◌, true, ◌⊎◌, some, arith}
use delta_protocol.Text.{Text, Bytes, lit}
use delta_protocol.Json.{
  Value, Fields, str, obj, get, as_dict, as_dict-obj, dict_or_empty, is_text→≡,
}
use delta_protocol.Result.{
  ok, or_raise, or_raise-eq-ok, Ensures, holds, Ensures-ok, Ensures-bind, Ensures-bind_any,
}
use delta_protocol.Utf8.{encode}
use delta_protocol.Crypto.{Crypto, Collision, sha256_prefixed, sha256_prefixed-binds}
use delta_protocol.BundleSign.Keys.{canonical_json_bytes, public_key_hash, missing_signature_body}
use delta_protocol.BundleSign.Verify.{Checks, or_empty, text_of, check_signature, verify, all_ok}

-- A bundle with a signature document over it.
pub record BundleSigned (c : Crypto) (bundle : Bytes) (doc : Fields) : Type 0 where
  pub body : Fields
  pub message : Bytes
  pub self_check : Fields
  pub info : Fields
  pub signer : Fields
  pub key_name : Bytes
  pub sig : Fields
  pub declares_profile : get (lit "signature_profile") doc ≡ str (lit "delta_signed_bundle_v2_8_0")
  pub has_body : get (lit "signature_body") doc ≡ obj body
  pub is_message : canonical_json_bytes (obj body) ≡ ok message
  pub declares_body : get (lit "signature_body_hash") doc ≡ str (sha256_prefixed c message)
  pub has_self_check : get (lit "self_check") doc ≡ obj self_check
  pub checks_body : get (lit "signature_body_hash") self_check ≡ str (sha256_prefixed c message)
  pub has_info : get (lit "bundle") body ≡ obj info
  pub declares_bundle : get (lit "bundle_hash") info ≡ str (sha256_prefixed c bundle)
  pub has_signer : get (lit "signer") body ≡ obj signer
  pub has_sig : get (lit "signature") doc ≡ obj sig
  pub targets_body : get (lit "target_hash") sig ≡ str (sha256_prefixed c message)
  pub signs : Signed c (get (lit "signature") sig) (get (lit "public_key") signer) message
  pub names_key : encode signs.key_text ≡ some key_name
  pub declares_key : get (lit "public_key_hash") signer ≡ str (sha256_prefixed c key_name)

all_ok-parts :
    (k : Checks)
    → all_ok k ≡ true
    → (k.profile_ok ≡ true)
      × (k.body_hash_ok ≡ true)
      × (k.self_check_ok ≡ true)
      × (k.bundle_hash_ok ≡ true)
      × (k.public_key_hash_ok ≡ true)
      × (k.signature_target_hash_ok ≡ true)
      × (k.signature_ok ≡ true)
unfolding all_ok
all_ok-parts k h = ground arith

module _ (c : Crypto) (repr : Value → Text) where
  check_signature-BundleSigned :
      (bundle : Bytes) (doc body : Fields)
      → get (lit "signature_body") doc ≡ obj body
      → Ensures
          (λ k. all_ok k ≡ true → BundleSigned c bundle doc)
          (check_signature c repr bundle doc body)
  unfolding check_signature
  check_signature-BundleSigned bundle doc body has_body =
      Ensures-bind_any (canonical_json_bytes (obj body)) λ message em.
        Ensures-bind_any (or_empty (get (lit "self_check") doc)) λ self_check es.
          Ensures-bind_any (or_empty (get (lit "bundle") body)) λ info ei.
            Ensures-bind_any (or_empty (get (lit "signer") body)) λ signer er.
              let key_value = get (lit "public_key") signer in
              Ensures-bind_any (public_key_hash c (text_of repr key_value)) λ key_hash ek.
                Ensures-bind_any (or_empty (get (lit "signature") doc)) λ sig eg.
                  Ensures-bind
                    (signature_verifies-Signed c (get (lit "signature") sig) key_value message)
                    λ good signs. holds λ q.
                      let (p, b, s, i, y, t, g) = all_ok-parts _ q in
                      let signed = signs g in
                      let named =
                        Ensures-ok (public_key_hash-encode c signed.key_text)
                          (ap (λ v. public_key_hash c (text_of repr v)) (sym signed.is_key) ∙ ek) in
                      let hash = sha256_prefixed c message in
                      let checks_body =
                        is_text→≡ (get (lit "signature_body_hash") self_check) hash s in
                      let declares_bundle =
                        is_text→≡ (get (lit "bundle_hash") info) (sha256_prefixed c bundle) i in
                      record {
                        body = body;
                        message = message;
                        self_check = self_check;
                        info = info;
                        signer = signer;
                        key_name = named.0;
                        sig = sig;
                        declares_profile = is_text→≡ _ _ p;
                        has_body = has_body;
                        is_message = em;
                        declares_body = is_text→≡ (get (lit "signature_body_hash") doc) hash b;
                        has_self_check = or_empty-has _ self_check _ _ es checks_body;
                        checks_body = checks_body;
                        has_info = or_empty-has _ info _ _ ei declares_bundle;
                        declares_bundle = declares_bundle;
                        has_signer = or_empty-has _ signer _ _ er signed.is_key;
                        has_sig = or_empty-has _ sig _ _ eg signed.is_sig;
                        targets_body = is_text→≡ (get (lit "target_hash") sig) hash t;
                        signs = signed;
                        names_key = named.1;
                        declares_key =
                            is_text→≡ (get (lit "public_key_hash") signer) key_hash y
                            ∙ ap str named.2;
                      }

  -- A document that passes every check has a signature by the key of its signer over the canonical
  -- bytes of its body. The document, its self check and its signature declare the hash of these
  -- bytes, and the body declares the hash of the bundle and that of the signer's key.
  pub verify-BundleSigned :
      (bundle : Bytes) (doc : Fields) (k : Checks)
      → verify c repr (some bundle) (some (obj doc)) ≡ ok k
      → all_ok k ≡ true
      → BundleSigned c bundle doc
  unfolding verify
  verify-BundleSigned bundle doc k run good =
      Ensures-ok {P = λ k. all_ok k ≡ true → BundleSigned c bundle doc}
        (Ensures-bind_any
          (or_raise (as_dict (get (lit "signature_body") doc)) missing_signature_body)
          λ body eb.
            check_signature-BundleSigned bundle doc body
              (as_dict-obj _ body (or_raise-eq-ok _ _ _ eb)))
        run good

  -- One signature document does not fit two bundles, unless two inputs of SHA-256 collide.
  pub verify-binds :
      (bundle other_bundle : Bytes) (doc : Fields) (k l : Checks)
      → verify c repr (some bundle) (some (obj doc)) ≡ ok k
      → all_ok k ≡ true
      → verify c repr (some other_bundle) (some (obj doc)) ≡ ok l
      → all_ok l ≡ true
      → (bundle ≡ other_bundle) ⊎ Collision c
  verify-binds bundle other_bundle doc k l run good run' good' =
      let a = verify-BundleSigned bundle doc k run good in
      let b = verify-BundleSigned other_bundle doc l run' good' in
      let body : a.body ≡ b.body = ap dict_or_empty (sym a.has_body ∙ b.has_body) in
      let info : a.info ≡ b.info =
        ap dict_or_empty (sym a.has_info ∙ (ap (get (lit "bundle")) body ∙ b.has_info)) in
      let declared =
        sym a.declares_bundle ∙ (ap (get (lit "bundle_hash")) info ∙ b.declares_bundle) in
      sha256_prefixed-binds c bundle other_bundle (cc)
