-- ===== src/Audit/Encrypt.antt =====
-- `command_encrypt_evidence`: the package that is written.
use delta_protocol.Prelude.{
  ℕ, suc, Bool, true, false, ◌||◌, not, Option, none, some, List, [], ◌∷◌, map, length,
}
use delta_protocol.Text.{Text, Bytes, lit, text_eq}
use delta_protocol.Base64.{b64url_encode}
use delta_protocol.Json.{
  Value, Fields, bool, int, str, arr, obj, no_fields, field, pos, get, as_dict, as_text, truthy,
  items_of,
}
use delta_protocol.Result.{ok, ◌>>=◌, ◌>>◌, require, or_raise}
use delta_protocol.Crypto.{Crypto, sha256_prefixed}
use delta_protocol.Audit.Keys.{
  Outcome, Sealing, attribute_error, public_key_not_object, missing_evidence_file,
  evidence_hash_mismatch, empty_value, canonical_json_bytes, canonical_sha256, hash_text,
  parse_public_key, public_key_text, shared_key,
}
use delta_protocol.Audit.Commitments.{
  Commitment, collect_evidence_commitments, enriched, build_aad, or_else,
}

-- A file that `resolve_evidence_path` finds.
pub record EvidenceFile : Type 0 where
  pub basename : Text
  pub plaintext : Bytes

-- The arguments, the clock, the files, and the random values for each entry.
pub record EncryptArgs : Type 0 where
  pub include_ : Text
  pub package_id : Text
  pub auditor_key_id : Text
  pub publisher : Text
  pub allow_missing_evidence : Bool
  pub require_hash_match : Bool
  pub created_at : Text
  pub record_path : Text
  -- `resolve_evidence_path`
  pub resolve : Text → Option EvidenceFile
  -- `X25519PrivateKey.generate()` and `os.urandom(NONCE_SIZE)`
  pub ephemeral : ℕ → Bytes
  pub nonce : ℕ → Bytes

-- The dict `evidence` of an entry.
unfoldable pub evidence_fields : Crypto → Commitment → EvidenceFile → Fields
evidence_fields c m f =
    let plaintext_hash = sha256_prefixed c f.plaintext in
    field (lit "path_hint") (str m.path_hint) (
      field (lit "resolved_basename") (str f.basename) (
        field (lit "commitment_section") (str m.section) (
          field (lit "evidence_type") (get (lit "type") (enriched m)) (
            field (lit "commitment_hash") (str m.evidence_hash) (
              field (lit "plaintext_hash") (str plaintext_hash) (
                field (lit "plaintext_hash_matches_commitment")
                  (bool (text_eq plaintext_hash m.evidence_hash))
                  (field (lit "plaintext_size_bytes") (int (pos (length f.plaintext)))
                    no_fields)))))))

-- The dict `encryption` of an entry.
unfoldable pub encryption_fields : Crypto → Bytes → Bytes → Bytes → Fields
encryption_fields c ephemeral_public nonce ciphertext =
    field (lit "alg") (str (lit "X25519-HKDF-SHA256-AES-256-GCM")) (
      field (lit "ephemeral_public_key") (str (public_key_text ephemeral_public)) (
        field (lit "nonce") (str (b64url_encode nonce)) (
          field (lit "ciphertext") (str (b64url_encode ciphertext))
            (field (lit "ciphertext_hash") (str (sha256_prefixed c ciphertext)) no_fields))))

unfoldable pub entry_fields : ℕ → Fields → Value → Text → Fields → Fields
entry_fields idx evidence aad aad_hash encryption = field (lit "index") (int (pos idx)) (
    field (lit "type") (str (lit "encrypted_evidence_entry")) (
      field (lit "evidence") (obj evidence) (
        field (lit "aad") aad (
          field (lit "aad_hash") (str aad_hash)
            (field (lit "encryption") (obj encryption) no_fields)))))

-- The entry for a file that was found.
unfoldable pub encrypt_entry :
    Crypto → Sealing → EncryptArgs → Bytes → Text → ℕ → Commitment → EvidenceFile → Outcome Fields
encrypt_entry c s args auditor record_hash idx m f = do
  require (text_eq (sha256_prefixed c f.plaintext) m.evidence_hash || not args.require_hash_match)
      evidence_hash_mismatch
  key ← shared_key s (args.ephemeral idx) auditor record_hash (pos idx)
  let aad = build_aad args.package_id record_hash idx m
  aad_bytes ← canonical_json_bytes aad
  let ciphertext = s.seal key (args.nonce idx) f.plaintext aad_bytes
  aad_hash ← canonical_sha256 c aad
  ok (
      entry_fields idx (evidence_fields c m f) aad aad_hash
        (encryption_fields c (s.public_of (args.ephemeral idx)) (args.nonce idx) ciphertext))

abbrev skipped_item : Text → Value
skipped_item path_hint = obj (
    field (lit "path_hint") (str path_hint)
      (field (lit "reason") (str (lit "MISSING_EVIDENCE_FILE")) no_fields))

-- The loop over the commitments: the entries and the skipped items.
unfoldable pub encrypt_entries :
    Crypto
    → Sealing
    → EncryptArgs
    → Bytes
    → Text
    → ℕ
    → List Commitment
    → Outcome (List Value × List Value)
encrypt_entries c s args auditor record_hash idx [] = ok ([], [])
encrypt_entries c s args auditor record_hash idx (m ∷ ms) = elim (args.resolve m.path_hint) [
  | none ↦ (do
    require args.allow_missing_evidence missing_evidence_file
    (entries, skipped) ← encrypt_entries c s args auditor record_hash (suc idx) ms
    ok (entries, skipped_item m.path_hint ∷ skipped))
  | some f ↦ (do
    entry ← encrypt_entry c s args auditor record_hash idx m f
    (entries, skipped) ← encrypt_entries c s args auditor record_hash (suc idx) ms
    ok (obj entry ∷ entries, skipped))
]

-- `recipient`, whose hash is computed where the document has none.
unfoldable pub recipient_hash : Crypto → Fields → Value → Outcome Value
recipient_hash c doc public_value = elim (truthy (get (lit "public_key_hash") doc)) [
  | true ↦ ok (get (lit "public_key_hash") doc)
  | false ↦ (do t ← or_raise (as_text public_value) empty_value; h ← hash_text c t; ok (str h))
]

unfoldable pub recipient_fields : Fields → Text → Value → Value → Fields
recipient_fields doc key_id public_value hash = field (lit "type") (str (lit "audit_recipient")) (
    field (lit "key_id") (or_else (get (lit "id") doc) (str key_id)) (
      field (lit "owner") (get (lit "owner") doc) (
        field (lit "role") (or_else (get (lit "role") doc) (str (lit "auditor")))
          (field (lit "public_key") public_value (field (lit "public_key_hash") hash no_fields)))))

abbrev is_empty : {A : Type 0} → List A → Bool
is_empty [] = true
is_empty (x ∷ xs) = false

unfoldable pub summary_fields : EncryptArgs → List Commitment → List Value → List Value → Fields
summary_fields args ms entries skipped = field (lit "include") (str args.include_) (
    field (lit "commitments_found") (int (pos (length ms))) (
      field (lit "no_evidence_found") (bool (is_empty ms)) (
        field (lit "entries_encrypted") (int (pos (length entries))) (
          field (lit "entries_skipped") (int (pos (length skipped))) (
            field (lit "missing_evidence_allowed") (bool args.allow_missing_evidence)
              (field (lit "skipped") (arr (items_of skipped)) no_fields))))))

unfoldable pub audit_boundary : Fields
audit_boundary =
    field (lit "proves")
      (str (
        lit
          "Evidence files were encrypted for a recipient key into a package bound to the target DELTA record hash."))
      (field (lit "does_not_prove")
        (arr (
          items_of (
            map str (
              lit "legal consent"
              ∷ lit "real-world auditor identity"
              ∷ lit "ticket truth"
              ∷ lit "external-world truth"
              ∷ lit "anchoring or publication time"
              ∷ lit "package authorship, unless separately signed in a future release"
              ∷ []))))
        no_fields)

-- The dict `package`.
unfoldable pub package_fields : EncryptArgs → Text → Value → Fields → Fields → List Value → Fields
package_fields args record_hash body_hash recipient summary entries =
    field (lit "type") (str (lit "delta_audit_package")) (
      field (lit "version") (str (lit "1.0.0")) (
        field (lit "protocol") (str (lit "DELTA-0")) (
          field (lit "package_id") (str args.package_id) (
            field (lit "created_at") (str args.created_at) (
              field (lit "target")
                (obj (
                  field (lit "record_hash") (str record_hash) (
                    field (lit "record_type") (str (lit "delta_sensor_record")) (
                      field (lit "record_path_hint") (str args.record_path)
                        (field (lit "record_body_hash") body_hash no_fields)))))
                (field (lit "recipient") (obj recipient) (
                  field (lit "publication")
                    (obj (
                      field (lit "publisher") (str args.publisher) (
                        field (lit "method") (str (lit "encrypted_audit_package_v1")) (
                          field (lit "note")
                            (str (
                              lit
                                "Encrypted evidence disclosure package bound to a full DELTA record hash."))
                            no_fields))))
                    (field (lit "evidence_summary") (obj summary) (
                      field (lit "entries") (arr (items_of entries))
                        (field (lit "security_boundary") (obj audit_boundary) no_fields))))))))))

-- `command_encrypt_evidence`
unfoldable pub encrypt_evidence : Crypto → Sealing → EncryptArgs → Value → Value → Outcome Fields
encrypt_evidence c s args record_value auditor_doc = do
  record_hash ← canonical_sha256 c record_value
  doc ← or_raise (as_dict auditor_doc) public_key_not_object
  let public_value = get (lit "public_key") doc
  auditor ← parse_public_key public_value
  record_ ← or_raise (as_dict record_value) attribute_error
  let ms = collect_evidence_commitments record_ args.include_
  (entries, skipped) ← encrypt_entries c s args auditor record_hash 0 ms
  hash ← recipient_hash c doc public_value
  ok (
      package_fields args record_hash (get (lit "record_body_hash") record_)
        (recipient_fields doc args.auditor_key_id public_value hash)
        (summary_fields args ms entries skipped) entries)
