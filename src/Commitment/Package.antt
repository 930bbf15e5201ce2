-- ===== src/Commitment/Package.antt =====
-- `create_commitment`: the public package and the private opening.
use delta_protocol.Prelude.{true, Option, none, some, List, [], ◌∷◌, length}
use delta_protocol.Text.{Text, Bytes, lit}
use delta_protocol.Json.{
  Value, Fields, null, bool, int, str, arr, obj, no_items, item, no_fields, field, pos, insert,
}
use delta_protocol.Base64.{b64url_encode}
use delta_protocol.Result.{ok, err, ◌>>=◌}
use delta_protocol.Crypto.{Crypto, sha256_prefixed}
use delta_protocol.EvidenceSet.Hashes.{
  Outcome, evidence_missing, hash_json, normalize_sha256, package_body_hash,
}
use delta_protocol.EvidenceSet.Disclose.{EvidenceFile, missing, directory, content}

abbrev pub profile : Text
profile = lit "delta_private_evidence_commitment_v2_14_0"

abbrev pub salted_method : Text
salted_method = lit "salted_sha256_private_evidence_commitment_v1"

-- The object that `commitment_for` hashes.
abbrev pub commitment_object : Text → Text → Text → Text → Value
commitment_object evidence_hash salt label method_id = obj (
    field (lit "domain") (str (lit "DELTA_PRIVATE_EVIDENCE_COMMITMENT_V1")) (
      field (lit "evidence_hash") (str evidence_hash) (
        field (lit "label") (str label)
          (field (lit "method_id") (str method_id) (field (lit "salt") (str salt) no_fields)))))

-- `commitment_for`
unfoldable pub commitment_for : Crypto → Text → Text → Text → Text → Outcome Text
commitment_for c evidence_hash salt label method_id =
    hash_json c (commitment_object evidence_hash salt label method_id)

abbrev flags : List Text → Fields
flags [] = no_fields
flags (k ∷ ks) = field k (bool true) (flags ks)

abbrev optional : Option Text → Value
optional none = null
optional (some t) = str t

-- The record hash is normalised where it is given and not empty.
abbrev record_hash_value : Option Text → Value
record_hash_value none = null
record_hash_value (some []) = null
record_hash_value (some (x ∷ t)) = str (normalize_sha256 (x ∷ t))

-- The arguments of the command, with what the clock and `secrets.token_bytes` give.
pub record CreateArgs : Type 0 where
  pub label : Text
  pub salt : Bytes
  pub created_at : Text
  pub opening_created_at : Text
  pub record_hash : Option Text
  pub policy_id : Option Text
  pub out_public : Text

-- The dict `entry`.
unfoldable pub commitment_entry : Text → Text → Bytes → Fields
commitment_entry label commitment evidence = field (lit "label") (str label) (
    field (lit "method_id") (str salted_method) (
      field (lit "commitment") (str commitment) (
        field (lit "evidence_size_bytes") (int (pos (length evidence))) (
          field (lit "hash_alg") (str (lit "sha256")) (
            field (lit "salt_disclosure_required") (bool true) (
              field (lit "security_boundary")
                (obj (
                  flags (
                    lit "does_not_publish_raw_evidence"
                    ∷ lit "does_not_prove_evidence_truth"
                    ∷ lit "does_not_prove_policy_satisfaction"
                    ∷ lit "not_encryption"
                    ∷ lit "not_zero_knowledge"
                    ∷ [])))
                no_fields))))))

-- The dict `public_package`, without its self check.
unfoldable pub package_body : CreateArgs → Fields → Fields
package_body args entry =
    field (lit "type") (str (lit "delta_private_evidence_commitment_package")) (
      field (lit "profile") (str profile) (
        field (lit "created_at") (str args.created_at) (
          field (lit "record_hash") (record_hash_value args.record_hash) (
            field (lit "policy_id") (optional args.policy_id) (
              field (lit "entries") (arr (item (obj entry) no_items)) (
                field (lit "security_boundary")
                  (obj (
                    flags (
                      lit "public_package_contains_commitments_only"
                      ∷ lit "private_opening_required_for_disclosure"
                      ∷ lit "does_not_prove_legal_truth"
                      ∷ lit "does_not_replace_audit_decryption_or_zk"
                      ∷ [])))
                  no_fields))))))

unfoldable pub self_check_of : Text → Value
self_check_of body_hash = obj (
    field (lit "hash_alg") (str (lit "sha256"))
      (field (lit "package_body_hash") (str body_hash) no_fields))

-- The dict `opening`.
unfoldable pub opening_of : CreateArgs → Text → Text → Text → Fields
opening_of args evidence_hash salt commitment =
    field (lit "type") (str (lit "delta_private_evidence_opening")) (
      field (lit "profile") (str profile) (
        field (lit "created_at") (str args.opening_created_at) (
          field (lit "public_package_hint") (str args.out_public) (
            field (lit "label") (str args.label) (
              field (lit "method_id") (str salted_method) (
                field (lit "evidence_hash") (str evidence_hash) (
                  field (lit "salt") (str salt) (
                    field (lit "commitment") (str commitment) (
                      field (lit "security_boundary")
                        (obj (
                          flags (
                            lit "private_opening_must_not_be_committed_publicly"
                            ∷ lit "reveals_evidence_hash_and_salt"
                            ∷ lit "not_encryption"
                            ∷ lit "not_zero_knowledge"
                            ∷ [])))
                        no_fields)))))))))

-- `create_commitment`: the two dicts that are written.
unfoldable pub create_commitment : Crypto → CreateArgs → EvidenceFile → Outcome (Fields × Fields)
create_commitment c args missing = err evidence_missing
create_commitment c args directory = err evidence_missing
create_commitment c args (content evidence) = do
  let evidence_hash = sha256_prefixed c evidence
  let salt = b64url_encode args.salt
  commitment ← commitment_for c evidence_hash salt args.label salted_method
  let body = package_body args (commitment_entry args.label commitment evidence)
  body_hash ← package_body_hash c body
  ok (
    insert (lit "self_check") (self_check_of body_hash) body,
    opening_of args evidence_hash salt commitment,
  )
