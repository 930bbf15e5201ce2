-- ===== src/Audit.antt =====
-- tools/delta_audit.py: evidence encrypted for an auditor, bound to a record by its hash.
pub mod Keys
pub mod Commitments
pub mod Names
pub mod Encrypt
pub mod Verify
pub mod Decrypt
pub mod Accepted
pub mod Opens
pub mod Evidence
pub mod Delivered
