-- ===== src/Bundle.antt =====
-- tools/delta_bundle.py: archives of a record, an intent and a report, with a manifest.
pub mod Names
pub mod Archive
pub mod Create
pub mod Verify
pub mod SafeNames
pub mod Extracted
pub mod Manifest
pub mod Artifacts
pub mod Accepted
pub mod Bounds
