-- ===== src/Sdk.antt =====
-- packages/python/delta_protocol/src/delta_protocol/core.py, the SDK that verifies a payload and
-- its detached signature.
pub mod Format
pub mod Signature
pub mod Accepted
