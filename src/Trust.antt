-- ===== src/Trust.antt =====
-- tools/delta_trust.py: the ledger of trust entries, a chain of hashes.
pub mod Entry
pub mod Ledger
pub mod Verify
pub mod Chain
pub mod Binds
pub mod Appended
pub mod Passing
pub mod Linked
pub mod Loaded
pub mod Reached
