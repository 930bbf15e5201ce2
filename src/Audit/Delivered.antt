-- ===== src/Audit/Delivered.antt =====
-- A whole package: what `encrypt-evidence` writes, `decrypt-package` opens.
use delta_protocol.Audit.Evidence.{Delivered, AllOpen, encrypt_entries-opens}
use delta_protocol.Prelude.{ℕ, ◌≡◌, refl, ap, true, all, some, List}
use delta_protocol.Text.{Text, Bytes, lit, text_eq, text_eq_refl, non_empty}
use delta_protocol.Base64.RoundTrip.{is_byte}
use delta_protocol.Json.{Value, Fields, bool, str, obj, get, get_or, lookup, elements-items_of}
use delta_protocol.Result.{ok, ◌>>=◌, holds, Ensures-ok, Ensures-bind, Ensures-bind_any}
use delta_protocol.Crypto.{Crypto}
use delta_protocol.Audit.Keys.{
  Sealing, IsSound, canonical_sha256, parse_public_key, parse_private_key, public_key_text,
}
use delta_protocol.Audit.Commitments.{Commitment, collect_evidence_commitments}
use delta_protocol.Audit.Encrypt.{
  EncryptArgs, recipient_hash, recipient_fields, summary_fields, package_fields, encrypt_evidence,
}
use delta_protocol.Audit.Verify.{entries_in}
use delta_protocol.Audit.Decrypt.{
  Env, Disclosed, all_opened, declared_record_hash, record_hash_of, disclosure_fields,
  decrypt_package,
}
use delta_protocol.Audit.Opens.{parse_public_key-public_key_text}

module _ (c : Crypto) (s : Sealing) (args : EncryptArgs) (env : Env) (auditor : Bytes)
    (sound : IsSound s) (bytes : (i : ℕ) → all is_byte (args.nonce i) ≡ true)
    (filled : (i : ℕ) → non_empty (args.nonce i) ≡ true) where
  -- The entries of a package, and the hash of its record.
  entries_in-package_fields :
      (record_hash : Text) (body_hash : Value) (recipient summary : Fields) (entries : List Value)
      → entries_in (package_fields args record_hash body_hash recipient summary entries) ≡ entries
  unfolding package_fields get get_or lookup lit text_eq
  entries_in-package_fields record_hash body_hash recipient summary entries =
      elements-items_of entries

  record_hash_of-package_fields :
      (record_ : Fields) (record_hash : Text) (body_hash : Value) (recipient summary : Fields)
      (entries : List Value)
      → canonical_sha256 c (obj record_) ≡ ok record_hash
      → record_hash_of c
          (package_fields args record_hash body_hash recipient summary entries)
          (some (obj record_))
        ≡ ok (str record_hash)
  unfolding record_hash_of declared_record_hash package_fields get get_or lookup lit text_eq
  record_hash_of-package_fields record_ record_hash body_hash recipient summary entries hashed =
      rw (hashed, ◌>>=◌) (rw (text_eq_refl record_hash) refl)

  -- Decryption of a package, where its entries opening.
  decrypt_package-package_fields :
      (record_ : Fields) (record_hash h : Text) (body_hash private_value : Value)
      (recipient summary : Fields) (ms : List Commitment) (entries : List Value)
      → canonical_sha256 c (obj record_) ≡ ok record_hash
      → parse_private_key private_value ≡ ok auditor
      → (opening : AllOpen c s args env auditor record_hash 0 ms entries)
      → canonical_sha256 c
          (obj (package_fields args record_hash body_hash recipient summary entries))
        ≡ ok h
      → decrypt_package c s env
          (obj (package_fields args record_hash body_hash recipient summary entries))
          private_value
          (some (obj record_))
        ≡ ok (opening.disclosed, disclosure_fields env h (str record_hash) opening.disclosed)
  unfolding decrypt_package
  decrypt_package-package_fields record_ record_hash h body_hash private_value recipient summary ms
        entries hashed key opening whole =
      rw (key, ◌>>=◌)
        (rw
          (
            record_hash_of-package_fields record_ record_hash body_hash recipient summary entries
                hashed,
            ◌>>=◌,
          )
          (rw (entries_in-package_fields record_hash body_hash recipient summary entries)
            (rw (opening.decrypts, ◌>>=◌) (rw (whole, ◌>>=◌) refl))))

  reports_ok :
      (h : Text) (record_hash : Value) (ds : List Disclosed)
      → all_opened ds ≡ true
      → get (lit "ok") (disclosure_fields env h record_hash ds) ≡ bool true
  unfolding disclosure_fields get get_or lookup lit text_eq
  reports_ok h record_hash ds opened = ap bool opened

  -- A package that `encrypt-evidence` writes for the public key of an auditor is decrypted with the
  -- auditor's private key and the same record. Of each commitment of the record, in order, the
  -- evidence that was found is disclosed under the index of the commitment, as the data of the
  -- file, with the hash that its entry declares; evidence is missing only where this is allowed,
  -- and has the hash of its commitment where this is required. The disclosure reports success. The
  -- nonces are bytes and not empty, the cryptographic functions are sound, and the package can be
  -- hashed.
  pub encrypt_evidence-opens :
      (record_ doc package_ : Fields) (private_value : Value) (h : Text)
      → get (lit "public_key") doc ≡ str (public_key_text (s.public_of auditor))
      → parse_private_key private_value ≡ ok auditor
      → encrypt_evidence c s args (obj record_) (obj doc) ≡ ok package_
      → canonical_sha256 c (obj package_) ≡ ok h
      → (ds : List Disclosed) × (disclosure : Fields) × (decrypt_package c s env
            (obj package_)
            private_value
            (some (obj record_))
          ≡ ok (ds, disclosure))
        × Delivered c args 0 (collect_evidence_commitments record_ args.include_) ds
        × (get (lit "ok") disclosure ≡ bool true)
  unfolding encrypt_evidence
  encrypt_evidence-opens record_ doc package_ private_value h is_key parsed run whole =
      let public_value = get (lit "public_key") doc in
      let read : parse_public_key public_value ≡ ok (s.public_of auditor) = rw is_key (
        parse_public_key-public_key_text (s.public_of auditor) (sound.length-public_of auditor)
          (sound.bytes-public_of auditor)) in
      let ms = collect_evidence_commitments record_ args.include_ in
      Ensures-ok
        {P = λ package_.
          canonical_sha256 c (obj package_) ≡ ok h
          → (ds : List Disclosed) × (disclosure : Fields) × (decrypt_package c s env (obj package_)
                private_value (some (obj record_))
              ≡ ok (ds, disclosure))
            × Delivered c args 0 (collect_evidence_commitments record_ args.include_) ds
            × (get (lit "ok") disclosure ≡ bool true)}
        (Ensures-bind_any (canonical_sha256 c (obj record_)) λ record_hash hashed.
          rw (read, ◌>>=◌)
            (Ensures-bind
              (encrypt_entries-opens c s args env auditor sound bytes filled record_hash ms 0)
              λ p opening. Ensures-bind_any (recipient_hash c doc public_value) λ hash made.
                holds λ w. (
                  opening.disclosed,
                  disclosure_fields env h (str record_hash) opening.disclosed,
                  decrypt_package-package_fields record_ record_hash h
                      (get (lit "record_body_hash") record_) private_value
                      (recipient_fields doc args.auditor_key_id public_value hash)
                      (summary_fields args ms p.0 p.1) ms p.0 hashed parsed opening w,
                  opening.same_evidence,
                  reports_ok h (str record_hash) opening.disclosed opening.opened,
                )))
        run whole
