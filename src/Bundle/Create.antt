-- ===== src/Bundle/Create.antt =====
-- `make_artifact_entry`, and the manifest and the archive that `create_bundle` writes.
use delta_protocol.Prelude.{ℕ, true, false, some, List, [], ◌∷◌, length, leb}
use delta_protocol.Text.{Text, Bytes, lit}
use delta_protocol.Json.{Value, Fields, bool, int, str, arr, obj, pos, no_fields, field, items_of}
use delta_protocol.Json.Pretty.{pretty_bytes}
use delta_protocol.Result.{ok, ◌>>=◌, ◌>>◌, require, or_raise}
use delta_protocol.Crypto.{Crypto, sha256_prefixed}
use delta_protocol.Bundle.Names.{
  Outcome, file_too_large, duplicate_names, unencodable, manifest_name, distinct_names,
  normalize_arcname,
}
use delta_protocol.Bundle.Archive.{Zip}

abbrev pub max_file_size : ℕ
max_file_size = 26214400

abbrev pub max_total_size : ℕ
max_total_size = 104857600

-- `make_artifact_entry`
unfoldable pub make_artifact_entry : Crypto → Text → Bytes → Text → Outcome Value
make_artifact_entry c role raw arcname = do
  require (leb (length raw) max_file_size) file_too_large
  ok (
      obj (
        field (lit "role") (str role) (
          field (lit "filename") (str arcname) (
            field (lit "sha256") (str (sha256_prefixed c raw))
              (field (lit "size_bytes") (int (pos (length raw))) no_fields)))))

-- A file that is bundled: its name, the name that is asked for, or the default, and its bytes.
pub record Source : Type 0 where
  pub path_name : Text
  pub arcname : Text
  pub content : Bytes

abbrev flags : List Text → Fields → Fields
flags [] rest = rest
flags (k ∷ ks) rest = field k (bool true) (flags ks rest)

unfoldable pub security_policy : Fields
security_policy = field (lit "public_artifacts_only") (bool true) (
    field (lit "private_keys_allowed") (bool false) (
      field (lit "private_evidence_allowed") (bool false) (
        field (lit "decrypted_evidence_allowed") (bool false) (
          field (lit "generated_artifacts_may_be_shared") (str (lit "only after local review"))
            no_fields))))

unfoldable pub bundle_boundary : Fields
bundle_boundary =
    flags
      (lit "does_not_create_new_proofs"
        ∷ lit "does_not_replace_proof_specific_verifiers"
        ∷ lit "does_not_prove_legal_truth"
        ∷ lit "does_not_prove_real_world_truth"
        ∷ lit "does_not_prove_identity"
        ∷ lit "does_not_prove_wallet_balance"
        ∷ lit "does_not_prove_regulatory_compliance"
        ∷ [])
      no_fields

-- The dict `manifest_body`.
unfoldable pub manifest_body : Text → List Value → Fields
manifest_body created_at artifacts =
    field (lit "bundle_profile") (str (lit "delta_bundle_v2_7_2")) (
      field (lit "protocol_version") (str (lit "2.7.2")) (
        field (lit "created_at") (str created_at) (
          field (lit "artifact_count") (int (pos (length artifacts))) (
            field (lit "artifacts") (arr (items_of artifacts)) (
              field (lit "security_policy") (obj security_policy)
                (field (lit "security_boundary") (obj bundle_boundary) no_fields))))))

-- The dict `manifest`.
unfoldable pub manifest_of : Fields → Text → Fields
manifest_of body h = field (lit "manifest_profile") (str (lit "delta_bundle_v2_7_2_manifest")) (
    field (lit "manifest_body") (obj body) (
      field (lit "manifest_body_hash") (str h) (
        field (lit "self_check")
          (obj (
            field (lit "hash_alg") (str (lit "sha256"))
              (field (lit "manifest_body_hash") (str h) no_fields)))
          no_fields)))

-- `create_bundle`: the entries of the archive, in order. The time is an argument.
unfoldable pub create_bundle :
    Crypto → (Text → Text) → Text → Source → Source → Source → Outcome Zip
create_bundle c to_lower created_at record_file intent report = do
  record_name ← normalize_arcname to_lower record_file.path_name record_file.arcname
  intent_name ← normalize_arcname to_lower intent.path_name intent.arcname
  report_name ← normalize_arcname to_lower report.path_name report.arcname
  require (distinct_names (record_name ∷ intent_name ∷ report_name ∷ manifest_name ∷ []))
      duplicate_names
  a ← make_artifact_entry c (lit "record") record_file.content record_name
  b ← make_artifact_entry c (lit "intent_draft") intent.content intent_name
  d ← make_artifact_entry c (lit "visual_report") report.content report_name
  let body = manifest_body created_at (a ∷ b ∷ d ∷ [])
  body_bytes ← or_raise (pretty_bytes (obj body)) unencodable
  final_bytes ←
      or_raise (pretty_bytes (obj (manifest_of body (sha256_prefixed c body_bytes)))) unencodable
  ok (
      record {
        filename = record_name;
        file_size = length record_file.content;
        content = some record_file.content;
      }
      ∷ record {
        filename = intent_name;
        file_size = length intent.content;
        content = some intent.content;
      }
      ∷ record {
        filename = report_name;
        file_size = length report.content;
        content = some report.content;
      }
      ∷ record {
        filename = manifest_name;
        file_size = length final_bytes;
        content = some final_bytes;
      }
      ∷ [])
