-- ===== src/Cli/Build.antt =====
-- The documents that the commands build.
use delta_protocol.Prelude.{◌++◌}
use delta_protocol.Text.{Text, Bytes, lit}
use delta_protocol.Json.{ℤ, Fields, int, str, no_fields, field}
use delta_protocol.Base64.{b64url_encode}
use delta_protocol.Crypto.{Crypto, sha256_prefixed}
use delta_protocol.Utf8.{encode}
use delta_protocol.Result.{ok, ◌>>=◌, or_raise}
use delta_protocol.Cli.Validate.{Outcome, unencodable}

-- The two fields that every document starts with.
abbrev pub typed : Text → Fields → Fields
typed kind rest =
    field (lit "type") (str kind) (field (lit "protocol_version") (str (lit "DELTA-0")) rest)

-- `build_public_key_record`; `cli_version` is `CLI_VERSION`.
unfoldable pub build_public_key_record : Crypto → Text → Text → Text → Text → Text → Outcome Fields
build_public_key_record c cli_version key_name role public_key created_at =
    or_raise (encode public_key) unencodable >>= λ b. ok (
      typed (lit "delta_public_key") (
        field (lit "cli_version") (str cli_version) (
          field (lit "alg") (str (lit "Ed25519")) (
            field (lit "key_role") (str role) (
              field (lit "key_name") (str key_name) (
                field (lit "public_key") (str public_key) (
                  field (lit "public_key_fingerprint") (str (sha256_prefixed c b))
                    (field (lit "created_at") (str created_at) no_fields))))))))

-- `build_claim`
unfoldable pub build_claim : Text → Text → Text → Text → Text → Text → Fields
build_claim before_hash action after_hash evidence_hash executor_pubkey created_at =
    typed (lit "delta_claim") (
      field (lit "created_at") (str created_at) (
        field (lit "executor_pubkey") (str executor_pubkey) (
          field (lit "before_hash") (str before_hash) (
            field (lit "action") (str action) (
              field (lit "after_hash") (str after_hash)
                (field (lit "evidence_hash") (str evidence_hash) no_fields))))))

-- The body that the three builders of signatures share.
unfoldable pub build_signature : Text → Text → Text → Text → Bytes → Text → Fields
build_signature role target_type public_key target_hash signature_bytes signed_at =
    typed (lit "delta_signature") (
      field (lit "role") (str role) (
        field (lit "alg") (str (lit "Ed25519")) (
          field (lit "target_type") (str target_type) (
            field (lit "target_hash") (str target_hash) (
              field (lit "public_key") (str public_key) (
                field (lit "signature") (str (lit "ed25519sig:" ++ b64url_encode signature_bytes))
                  (field (lit "signed_at") (str signed_at) no_fields)))))))

abbrev pub build_executor_signature : Text → Text → Bytes → Text → Fields
build_executor_signature = build_signature (lit "executor") (lit "delta_claim")

abbrev pub build_verifier_signature : Text → Text → Bytes → Text → Fields
build_verifier_signature = build_signature (lit "verifier") (lit "delta_attestation")

abbrev pub build_checkpoint_signature : Text → Text → Bytes → Text → Fields
build_checkpoint_signature =
    build_signature (lit "checkpoint_signer") (lit "delta_signed_checkpoint")

-- The keyword arguments of `build_attestation`.
pub record AttestationArgs : Type 0 where
  pub verifier_pubkey : Text
  pub target_claim_hash : Text
  pub target_executor_sig_hash : Text
  pub verification_policy_hash : Text
  pub evidence_hash : Text
  pub publication_mode : Text
  pub intended_ledger_id : Text
  pub result : Text
  pub verified_at : Text

-- `build_attestation`
unfoldable pub build_attestation : AttestationArgs → Fields
build_attestation a = typed (lit "delta_attestation") (
    field (lit "verifier_pubkey") (str a.verifier_pubkey) (
      field (lit "target_claim_hash") (str a.target_claim_hash) (
        field (lit "target_executor_sig_hash") (str a.target_executor_sig_hash) (
          field (lit "verification_policy_hash") (str a.verification_policy_hash) (
            field (lit "evidence_hash") (str a.evidence_hash) (
              field (lit "publication_mode") (str a.publication_mode) (
                field (lit "intended_ledger_id") (str a.intended_ledger_id) (
                  field (lit "result") (str a.result)
                    (field (lit "verified_at") (str a.verified_at) no_fields)))))))))

-- The keyword arguments of `build_ledger_entry`.
pub record LedgerEntryArgs : Type 0 where
  pub ledger_id : Text
  pub seq : ℤ
  pub prev_entry_hash : Text
  pub claim_hash : Text
  pub executor_sig_hash : Text
  pub attestation_hash : Text
  pub verifier_sig_hash : Text
  pub included_at : Text

-- `build_ledger_entry`
unfoldable pub build_ledger_entry : LedgerEntryArgs → Fields
build_ledger_entry a = typed (lit "delta_ledger_entry") (
    field (lit "ledger_id") (str a.ledger_id) (
      field (lit "seq") (int a.seq) (
        field (lit "prev_entry_hash") (str a.prev_entry_hash) (
          field (lit "claim_hash") (str a.claim_hash) (
            field (lit "executor_sig_hash") (str a.executor_sig_hash) (
              field (lit "attestation_hash") (str a.attestation_hash) (
                field (lit "verifier_sig_hash") (str a.verifier_sig_hash)
                  (field (lit "included_at") (str a.included_at) no_fields))))))))

-- `build_checkpoint`
unfoldable pub build_checkpoint : ℤ → Text → ℤ → Text → Fields
build_checkpoint checkpoint_seq head_entry_hash entry_count published_at =
    typed (lit "delta_signed_checkpoint") (
      field (lit "checkpoint_seq") (int checkpoint_seq) (
        field (lit "head_entry_hash") (str head_entry_hash) (
          field (lit "entry_count") (int entry_count)
            (field (lit "published_at") (str published_at) no_fields))))
