-- ===== src/BundleSign.antt =====
-- tools/delta_bundle_sign.py: a detached Ed25519 signature of a bundle.
pub mod Keys
pub mod Sign
pub mod Verify
pub mod Parts
pub mod Accepted
pub mod Signed
