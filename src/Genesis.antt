-- ===== src/Genesis.antt =====
-- src/genesis_public_verifier.py: the chain proof, the signature envelopes and the evidence
-- manifest of the genesis release.
pub mod Chain
pub mod Linked
pub mod Envelope
pub mod Signed
pub mod Evidence
pub mod Items
pub mod Listed
