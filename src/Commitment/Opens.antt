-- ===== src/Commitment/Opens.antt =====
-- What `create_commitment` writes verifies and opens.
use delta_protocol.Prelude.{◌≡◌, refl, ap, true, none, some, []}
use delta_protocol.Text.{Text, Bytes, lit, text_eq, text_eq_refl, non_empty}
use delta_protocol.Json.{Value, Fields, str, obj, get, get_or, lookup, insert, erase}
use delta_protocol.Json.Same.{same_value}
use delta_protocol.Base64.{b64url_encode}
use delta_protocol.Base64.RoundTrip.{non_empty-b64url_encode}
use delta_protocol.Result.{ok, ◌>>=◌, Ensures, holds, Ensures-ok, Ensures-bind_any}
use delta_protocol.Crypto.{Crypto, IsLawful, sha256_prefixed}
use delta_protocol.EvidenceSet.Hashes.{
  validate_sha256, canonical_json, hash_json, package_body_hash,
}
use delta_protocol.EvidenceSet.Valid.{validate_sha256-hash}
use delta_protocol.EvidenceSet.Disclose.{content, evidence_hash_of}
use delta_protocol.Commitment.Package.{
  salted_method, commitment_for, CreateArgs, commitment_entry, package_body, self_check_of,
  opening_of, create_commitment,
}
use delta_protocol.Commitment.Verify.{
  commitment_errors, entry_errors, all_entry_errors, entries_errors, self_check_errors,
  package_errors, verify_package,
}
use delta_protocol.Commitment.Disclose.{
  first_match, evidence_errors, opened_commitment, mismatch, entry_mismatch, opening_errors,
  disclose_commitment,
}

-- The package with its self check.
abbrev package_of : CreateArgs → Text → Bytes → Text → Fields
package_of args commitment b body_hash =
    insert (lit "self_check") (self_check_of body_hash)
      (package_body args (commitment_entry args.label commitment b))

module _ (c : Crypto) (args : CreateArgs) (b : Bytes) (commitment body_hash : Text) where
  body_hash-package_of :
      package_body_hash c (package_of args commitment b body_hash)
      ≡ package_body_hash c (package_body args (commitment_entry args.label commitment b))
  unfolding package_body_hash package_body insert erase text_eq lit
  body_hash-package_of = refl

  entry_errors-entry :
      validate_sha256 (str commitment) (lit "commitment") ≡ ok tt
      → entry_errors 0 (obj (commitment_entry args.label commitment b)) ≡ []
  unfolding entry_errors commitment_entry commitment_errors get get_or lookup text_eq lit
  entry_errors-entry h = rw h refl

  package_errors-package_of :
      validate_sha256 (str commitment) (lit "commitment") ≡ ok tt
      → non_empty body_hash ≡ true
      → package_errors (package_of args commitment b body_hash) body_hash ≡ []
  unfolding package_errors package_body self_check_of insert entries_errors all_entry_errors
      self_check_errors get get_or lookup text_eq lit
  package_errors-package_of valid filled =
      rw (entry_errors-entry valid, filled, text_eq_refl body_hash) refl

  verify_package-package_of :
      validate_sha256 (str commitment) (lit "commitment") ≡ ok tt
      → non_empty body_hash ≡ true
      → package_body_hash c (package_body args (commitment_entry args.label commitment b))
        ≡ ok body_hash
      → verify_package c (package_of args commitment b body_hash) ≡ ok []
  unfolding verify_package
  verify_package-package_of valid filled hashed =
      rw (body_hash-package_of, hashed, ◌>>=◌) (ap ok (package_errors-package_of valid filled))

  opening_errors-created :
      (salt : Text)
      → non_empty salt ≡ true
      → non_empty args.label ≡ true
      → opening_errors
          (package_of args commitment b body_hash)
          (opening_of args (sha256_prefixed c b) salt commitment)
          (content b)
          none
          (some (sha256_prefixed c b))
          (some commitment)
        ≡ []
  unfolding opening_errors opening_of package_body commitment_entry insert first_match same_value
      evidence_errors mismatch entry_mismatch get get_or lookup text_eq lit
  opening_errors-created salt filled labelled =
      rw
        (
          text_eq_refl args.label,
          filled,
          labelled,
          text_eq_refl (sha256_prefixed c b),
          text_eq_refl commitment,
        )
        refl

module _ (c : Crypto) where
  hash_json-hash :
      (v : Value) → Ensures (λ h. (b : Bytes) × (h ≡ sha256_prefixed c b)) (hash_json c v)
  unfolding hash_json
  hash_json-hash v = Ensures-bind_any (canonical_json v) λ b e. holds (b, refl)

  non_empty-sha256_prefixed : (b : Bytes) → non_empty (sha256_prefixed c b) ≡ true
  unfolding sha256_prefixed lit
  non_empty-sha256_prefixed b = refl

  disclose_commitment-created :
      (args : CreateArgs) (b : Bytes) (commitment body_hash salt : Text)
      → non_empty salt ≡ true
      → non_empty args.label ≡ true
      → commitment_for c (sha256_prefixed c b) salt args.label salted_method ≡ ok commitment
      → disclose_commitment c
          (package_of args commitment b body_hash)
          (opening_of args (sha256_prefixed c b) salt commitment)
          (content b)
          none
        ≡ ok []
  unfolding disclose_commitment evidence_hash_of opened_commitment opening_of get get_or lookup
      text_eq lit
  disclose_commitment-created args b commitment body_hash salt filled labelled made =
      rw (made, ◌>>=◌)
        (ap ok (opening_errors-created c args b commitment body_hash salt filled labelled))

  -- What `create_commitment` writes for a file, with a salt and a label that are not empty, passes
  -- `verify_public`, and opens: `disclose` of the same file collects no error. SHA-256 gives 64
  -- hexadecimal digits.
  pub create_commitment-opens :
      (args : CreateArgs) (b : Bytes) (package_ opening : Fields)
      → IsLawful c
      → non_empty args.salt ≡ true
      → non_empty args.label ≡ true
      → create_commitment c args (content b) ≡ ok (package_, opening)
      → (verify_package c package_ ≡ ok [])
        × (disclose_commitment c package_ opening (content b) none ≡ ok [])
  unfolding create_commitment commitment_for package_body_hash
  create_commitment-opens args b package_ opening lawful salted labelled run =
      let salt = b64url_encode args.salt in
      Ensures-ok
        {P = λ p.
          (verify_package c p.0 ≡ ok []) × (disclose_commitment c p.0 p.1 (content b) none ≡ ok [])}
        (Ensures-bind_any (commitment_for c (sha256_prefixed c b) salt args.label salted_method)
          λ commitment made.
            Ensures-bind_any
              (package_body_hash c (package_body args (commitment_entry args.label commitment b)))
              λ body_hash hashed.
                let (x, is_x) = Ensures-ok (hash_json-hash _) made in
                let (y, is_y) = Ensures-ok (hash_json-hash _) hashed in
                let valid : validate_sha256 (str commitment) (lit "commitment") ≡ ok tt =
                  rw is_x (validate_sha256-hash c x (lit "commitment") lawful) in
                let filled : non_empty body_hash ≡ true = rw is_y (non_empty-sha256_prefixed y) in
                holds (
                  verify_package-package_of c args b commitment body_hash valid filled hashed,
                  disclose_commitment-created args b commitment body_hash salt
                      (non_empty-b64url_encode args.salt salted) labelled made,
                ))
        run
