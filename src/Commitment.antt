-- ===== src/Commitment.antt =====
-- tools/delta_private_evidence_commitment.py: a public commitment to one piece of evidence, and its
-- private opening. `canonical_json`, `sha256_bytes`, `normalize_sha256`, `validate_sha256` and
-- `package_body_hash` are the same functions as those of the evidence set, and stand there.
pub mod Package
pub mod Verify
pub mod Disclose
pub mod Disclosed
pub mod Binds
pub mod Opens
