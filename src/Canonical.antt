-- ===== src/Canonical.antt =====
-- tools/delta_canonical_json.py, the DELTA canonical JSON profile.
pub mod Scan
pub mod Load
pub mod Numbers
pub mod Strings
pub mod Plain
pub mod Pairs
pub mod Steps
pub mod Entries
pub mod RoundTrip
pub mod Sound
pub mod Api
pub mod Laws
