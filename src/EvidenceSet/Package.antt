-- ===== src/EvidenceSet/Package.antt =====
-- `create`: the public package and the private opening, from the evidence files in order.
use delta_protocol.Prelude.{ℕ, suc, true, Option, none, some, List, [], ◌∷◌, map, length}
use delta_protocol.Text.{Text, Bytes, lit}
use delta_protocol.Json.{
  Value, Fields, null, bool, int, str, arr, obj, no_fields, field, pos, insert, items_of,
}
use delta_protocol.Base64.{b64url_encode}
use delta_protocol.Result.{ok, err, ◌>>=◌}
use delta_protocol.Crypto.{Crypto, sha256_prefixed}
use delta_protocol.EvidenceSet.Hashes.{
  Outcome, no_evidence, commitment_for, leaf_hash_for, normalize_sha256, package_body_hash,
}
use delta_protocol.EvidenceSet.Merkle.{build_merkle_tree, merkle_proof_for}

abbrev pub profile : Text
profile = lit "delta_private_evidence_merkle_set_v2_15_0"

-- A file under the evidence directory: its relative path, its bytes, and the 32 bytes that
-- `secrets.token_bytes` gives for it.
pub record Evidence : Type 0 where
  pub label : Text
  pub content : Bytes
  pub path_hint : Text
  pub salt : Bytes

-- What `create` computes for one file.
pub record Entry : Type 0 where
  pub index : ℕ
  pub evidence : Evidence
  pub evidence_hash : Text
  pub salt_text : Text
  pub commitment : Text
  pub leaf_hash : Text

-- The body of the loop over `enumerate(evidence_files)`.
unfoldable pub make_entry : Crypto → ℕ → Evidence → Outcome Entry
make_entry c index e = do
  let evidence_hash = sha256_prefixed c e.content
  let salt = b64url_encode e.salt
  commitment ← commitment_for c evidence_hash salt e.label
  leaf_hash ← leaf_hash_for c (int (pos index)) e.label commitment
  ok (record {
    index = index;
    evidence = e;
    evidence_hash = evidence_hash;
    salt_text = salt;
    commitment = commitment;
    leaf_hash = leaf_hash;
  })

unfoldable pub make_entries : Crypto → ℕ → List Evidence → Outcome (List Entry)
make_entries c index [] = ok []
make_entries c index (e ∷ es) = do
  entry ← make_entry c index e
  rest ← make_entries c (suc index) es
  ok (entry ∷ rest)

-- The dict in `public_entries`.
unfoldable pub public_entry : Entry → Value
public_entry e = obj (
    field (lit "index") (int (pos e.index)) (
      field (lit "label") (str e.evidence.label) (
        field (lit "method_id") (str (lit "salted_sha256_private_evidence_commitment_v1")) (
          field (lit "leaf_method_id") (str (lit "delta_private_evidence_merkle_leaf_v1")) (
            field (lit "commitment") (str e.commitment) (
              field (lit "leaf_hash") (str e.leaf_hash) (
                field (lit "evidence_size_bytes") (int (pos (length e.evidence.content)))
                  (field (lit "salt_disclosure_required") (bool true) no_fields))))))))

-- The dict in `opening_entries`, with the proof and the root that the second loop adds.
unfoldable pub opening_entry : Text → Entry → List Value → Value
opening_entry root e proof = obj (
    field (lit "index") (int (pos e.index)) (
      field (lit "label") (str e.evidence.label) (
        field (lit "evidence_path_hint") (str e.evidence.path_hint) (
          field (lit "evidence_hash") (str e.evidence_hash) (
            field (lit "salt") (str e.salt_text) (
              field (lit "commitment") (str e.commitment) (
                field (lit "leaf_hash") (str e.leaf_hash) (
                  field (lit "merkle_proof") (arr (items_of proof))
                    (field (lit "merkle_root") (str root) no_fields)))))))))

unfoldable pub opening_entries : Text → List (List Text) → List Entry → Outcome (List Value)
opening_entries root levels [] = ok []
opening_entries root levels (e ∷ es) = do
  proof ← merkle_proof_for e.index levels
  rest ← opening_entries root levels es
  ok (opening_entry root e proof ∷ rest)

abbrev pub optional : Option Text → Value
optional none = null
optional (some t) = str t

abbrev flags : List Text → Fields
flags [] = no_fields
flags (k ∷ ks) = field k (bool true) (flags ks)

-- The dict `public_package`, without its self check.
unfoldable pub public_body : Text → Option Text → Option Text → List Entry → Text → Fields
public_body created_at record_hash policy_id entries root =
    field (lit "type") (str (lit "delta_private_evidence_merkle_set")) (
      field (lit "profile") (str profile) (
        field (lit "created_at") (str created_at) (
          field (lit "record_hash") (optional record_hash) (
            field (lit "policy_id") (optional policy_id) (
              field (lit "evidence_count") (int (pos (length entries))) (
                field (lit "merkle")
                  (obj (
                    field (lit "hash_alg") (str (lit "sha256")) (
                      field (lit "tree_method_id")
                        (str (lit "delta_private_evidence_merkle_tree_v1"))
                        (field (lit "leaf_method_id")
                          (str (lit "delta_private_evidence_merkle_leaf_v1"))
                          (field (lit "node_domain")
                            (str (lit "DELTA_PRIVATE_EVIDENCE_MERKLE_NODE_V1"))
                            (field (lit "leaf_count") (int (pos (length entries)))
                              (field (lit "root") (str root) no_fields)))))))
                  (field (lit "entries") (arr (items_of (map public_entry entries))) (
                    field (lit "security_boundary")
                      (obj (
                        flags (
                          lit "public_package_contains_commitments_only"
                          ∷ lit "private_opening_required_for_disclosure"
                          ∷ lit "does_not_reveal_raw_evidence"
                          ∷ lit "does_not_prove_evidence_truth"
                          ∷ lit "does_not_prove_policy_satisfaction"
                          ∷ lit "not_encryption"
                          ∷ lit "not_zero_knowledge"
                          ∷ [])))
                      no_fields))))))))

-- The dict `opening_package`.
unfoldable pub opening_package : Text → Text → Text → List Value → Fields
opening_package created_at out_public root entries =
    field (lit "type") (str (lit "delta_private_evidence_merkle_opening")) (
      field (lit "profile") (str profile) (
        field (lit "created_at") (str created_at) (
          field (lit "public_package_hint") (str out_public) (
            field (lit "merkle_root") (str root) (
              field (lit "entries") (arr (items_of entries)) (
                field (lit "security_boundary")
                  (obj (
                    flags (
                      lit "private_opening_must_not_be_committed_publicly"
                      ∷ lit "reveals_evidence_hashes_salts_and_merkle_proofs"
                      ∷ lit "not_encryption"
                      ∷ lit "not_zero_knowledge"
                      ∷ [])))
                  no_fields))))))

-- What `create` reads besides the evidence: the clock and the arguments.
pub record CreateArgs : Type 0 where
  pub created_at : Text
  pub opening_created_at : Text
  pub record_hash : Option Text
  pub policy_id : Option Text
  pub out_public : Text

-- The record hash is normalised where it is given and not empty.
abbrev normalized : Option Text → Option Text
normalized none = none
normalized (some []) = none
normalized (some (x ∷ t)) = some (normalize_sha256 (x ∷ t))

-- `create`: the two dicts that are written.
unfoldable pub create : Crypto → CreateArgs → List Evidence → Outcome (Fields × Fields)
create c args [] = err no_evidence
create c args (e ∷ es) = do
  entries ← make_entries c 0 (e ∷ es)
  (root, levels) ← build_merkle_tree c (map (λ (x : Entry). x.leaf_hash) entries)
  opened ← opening_entries root levels entries
  let body = public_body args.created_at (normalized args.record_hash) args.policy_id entries root
  body_hash ← package_body_hash c body
  let self_check = obj (
      field (lit "hash_alg") (str (lit "sha256"))
        (field (lit "package_body_hash") (str body_hash) no_fields))
  ok (
    insert (lit "self_check") self_check body,
    opening_package args.opening_created_at args.out_public root opened,
  )
