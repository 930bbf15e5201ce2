-- ===== src/EvidenceSet.antt =====
-- tools/delta_private_evidence_set.py: private evidence under a public Merkle root.
pub mod Hashes
pub mod Merkle
pub mod Package
pub mod Verify
pub mod Disclose
pub mod Valid
