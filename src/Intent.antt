-- ===== src/Intent.antt =====
-- tools/delta_intent.py: the approval of a record by a key, its policy and the registry of keys.
pub mod Keys
pub mod Policy
pub mod Approve
pub mod Verify
pub mod Windows
pub mod Deadline
pub mod Matches
pub mod Registered
pub mod Accepted
