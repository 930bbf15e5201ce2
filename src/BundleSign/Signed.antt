-- ===== src/BundleSign/Signed.antt =====
-- A bundle that is signed verifies.
use delta_protocol.Prelude.{◌≡◌, refl, ap, true, all, some, ◌++◌, drop, length}
use delta_protocol.Text.{Text, Bytes, lit, text_eq, text_eq_refl, starts_with, starts_with-append}
use delta_protocol.Base64.{b64url_encode}
use delta_protocol.Base64.RoundTrip.{is_byte, b64url_decode-b64url_encode}
use delta_protocol.Json.{Value, Fields, str, obj, get, get_or, lookup}
use delta_protocol.Result.{
  ok, ◌>>=◌, or_raise, or_raise-eq-ok, Ensures-weaken, Yields, yields, Yields-value, Ensures, holds,
  Ensures-ok, Ensures-bind_any,
}
use delta_protocol.Crypto.{Crypto, sha256_prefixed}
use delta_protocol.BundleSign.Keys.{
  Signer, SignsFor, canonical_json_bytes, public_key_text, public_key_hash, after_prefix,
  load_public_key, load_private_key, bundle_missing,
}
use delta_protocol.BundleSign.Sign.{
  SignArgs, signature_body, make_signature_body, signature_doc, sign_bundle, sign,
}
use delta_protocol.BundleSign.Verify.{
  Checks, or_empty, signature_verifies, check_signature, verify, all_ok,
}

drop_public : (t : Text) → drop (length (lit "ed25519:")) (lit "ed25519:" ++ t) ≡ t
unfolding lit
drop_public t = refl

drop_signature : (t : Text) → drop (length (lit "ed25519sig:")) (lit "ed25519sig:" ++ t) ≡ t
unfolding lit
drop_signature t = refl

load_public_key-public_key_text :
    (raw : Bytes)
    → length raw ≡ 32
    → all is_byte raw ≡ true
    → load_public_key (str (public_key_text raw)) ≡ ok raw
unfolding load_public_key after_prefix public_key_text
load_public_key-public_key_text raw len bytes =
    rw
      (
        starts_with-append (lit "ed25519:") (b64url_encode raw),
        drop_public (b64url_encode raw),
        b64url_decode-b64url_encode raw bytes,
        len,
      )
      refl

module _ (c : Crypto) (s : Signer) (signs : SignsFor c s) (private : Bytes) where
  abbrev sig_text : Bytes → Text
  sig_text message = lit "ed25519sig:" ++ b64url_encode (s.sign private message)

  signature_verifies-sign :
      (message : Bytes)
      → signature_verifies c
          (str (sig_text message))
          (str (public_key_text (s.public_of private)))
          message
        ≡ ok true
  unfolding signature_verifies starts_with lit
  signature_verifies-sign message =
      rw
        (
          load_public_key-public_key_text (s.public_of private) (signs.length-public_of private)
              (signs.bytes-public_of private),
          ◌>>=◌,
        )
        (rw
          (
            drop_signature (b64url_encode (s.sign private message)),
            b64url_decode-b64url_encode (s.sign private message) (signs.bytes-sign private message),
          )
          (ap ok (signs.verifies-sign private message)))

  -- The checks of the document over a signed body.
  check_signature-signature_doc :
      (repr : Value → Text) (args : SignArgs) (bundle message : Bytes) (key_hash : Text)
      → public_key_hash c (public_key_text (s.public_of private)) ≡ ok key_hash
      → canonical_json_bytes (
          obj (
            signature_body args
              (sha256_prefixed c bundle)
              (public_key_text (s.public_of private))
              key_hash))
        ≡ ok message
      → Yields
          (λ k. all_ok k ≡ true)
          (check_signature c repr bundle
            (signature_doc
              (signature_body args
                (sha256_prefixed c bundle)
                (public_key_text (s.public_of private))
                key_hash)
              (sha256_prefixed c message)
              (public_key_text (s.public_of private))
              key_hash
              (sig_text message))
            (signature_body args
              (sha256_prefixed c bundle)
              (public_key_text (s.public_of private))
              key_hash))
  unfolding check_signature signature_doc signature_body or_empty all_ok starts_with get get_or
      lookup text_eq lit
  check_signature-signature_doc repr args bundle message key_hash ek em =
      rw (em, ◌>>=◌)
        (rw (ek, ◌>>=◌)
          (rw (signature_verifies-sign message, ◌>>=◌)
            (yields (
              rw
                (
                  text_eq_refl (sha256_prefixed c message),
                  text_eq_refl (sha256_prefixed c bundle),
                  text_eq_refl key_hash,
                )
                refl))))

  sign_bundle-verifies :
      (repr : Value → Text) (args : SignArgs) (bundle : Bytes)
      → Ensures
          (λ doc. Yields (λ k. all_ok k ≡ true) (verify c repr (some bundle) (some (obj doc))))
          (sign_bundle c s args bundle private)
  unfolding sign_bundle make_signature_body verify signature_doc get get_or lookup text_eq lit
  sign_bundle-verifies repr args bundle =
      let public_text = public_key_text (s.public_of private) in
      Ensures-bind_any (public_key_hash c public_text) λ key_hash ek.
        rw (ek, ◌>>=◌)
          (Ensures-bind_any
            (canonical_json_bytes
              (obj (signature_body args (sha256_prefixed c bundle) public_text key_hash)))
            λ message em.
              holds (check_signature-signature_doc repr args bundle message key_hash ek em))

-- What `sign` writes verifies: `verify` over the same bundle gives a result, in which every check is
-- set. The signatures of the scheme verify.
pub sign-verifies :
    (c : Crypto) (s : Signer) (repr : Value → Text) (args : SignArgs) (doc : Fields)
    → SignsFor c s
    → sign c s args ≡ ok doc
    → (k : Checks) × (verify c repr args.bundle (some (obj doc)) ≡ ok k) × (all_ok k ≡ true)
unfolding sign
sign-verifies c s repr args doc signs run = Yields-value _ (
    Ensures-ok
      {P = λ doc. Yields (λ k. all_ok k ≡ true) (verify c repr args.bundle (some (obj doc)))}
      (Ensures-bind_any (or_raise args.bundle bundle_missing) λ bundle there.
        Ensures-bind_any (load_private_key args.loads args.private_key) λ private read.
          Ensures-weaken (sign_bundle-verifies c s signs private repr args bundle)
            λ d y. rw (or_raise-eq-ok args.bundle bundle_missing bundle there) y)
      run)
