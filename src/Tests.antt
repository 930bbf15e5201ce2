-- ===== src/Tests.antt =====
-- Tests, and the theorems at concrete inputs.
mod Toy
mod Canonical
mod Commitment
mod BundleSign
mod Audit
mod EvidenceSet
mod Sdk
mod Trust
mod Intent
mod Cli
mod Genesis
mod Bundle
