-- ===== src/Lib.antt =====
-- The verification library of the DELTA protocol's Python tools.
--
-- The program. A DELTA record is a JSON document; tools hash its canonical form with SHA-256, sign
-- it with Ed25519, and bind records, approvals and evidence to each other by these hashes. Each tool
-- reads JSON files, checks or builds documents, and writes or prints the result.
--
-- The files.
--   Prelude, Text, Result: helpers. A text is a list of code points, so that a lone surrogate is a
--     value; `Result` is what a function gives that may raise, and `Ensures` its postcondition.
--   Json: Python's JSON values, dict operations, `==`, `json.dumps` with sorted keys, and the bytes.
--   Utf8, Base64: the encodings of the standard library that the tools call.
--   Crypto: SHA-256 and Ed25519 as a parameter, a record of two functions. No law says that
--     SHA-256 has no collisions: a theorem that needs it gives the two colliding inputs instead.
--   Canonical: tools/delta_canonical_json.py. `load_json_text` with its hooks is Canonical.Load, the
--     scanner under it Canonical.Scan, the functions over it Canonical.Api.
--   EvidenceSet: tools/delta_private_evidence_set.py. The hashes, the Merkle tree, `create`,
--     `verify_public` and `disclose`.
--   Sdk: packages/python/delta_protocol/src/delta_protocol/core.py, `verify_signature` and the
--     functions over it.
--   Trust: tools/delta_trust.py, the ledger: its documents, `create_ledger`, `append_entry`, and
--     `verify_ledger`, whose loop is `run` over `step`. Trust.Linked reads the linked proofs of the
--     command line, and Trust.Reached has the sequences of the two commands that write a ledger.
--   Intent: tools/delta_intent.py, the registry of keys, the policies, and `verify`.
--   Cli: src/delta_cli.py. The validators are Cli.Validate, the documents Cli.Build, and the checks
--     of signed documents and ledger entries Cli.Verify.
--   Genesis: src/genesis_public_verifier.py. `verify_chain_proof` is Genesis.Chain,
--     `verify_signature_envelope` Genesis.Envelope, and `verify_evidence_manifest` Genesis.Evidence.
--   Bundle: tools/delta_bundle.py. The archive names are Bundle.Names, the archive as a list of
--     entries Bundle.Archive, and the commands Bundle.Create and Bundle.Verify.
--   Commitment: tools/delta_private_evidence_commitment.py. `create_commitment` is
--     Commitment.Package, `verify_public` and `disclose` are Commitment.Verify and
--     Commitment.Disclose.
--   Audit: tools/delta_audit.py. The commands are Audit.Encrypt, Audit.Verify and Audit.Decrypt; the
--     encryption of the package `cryptography` is the record `Sealing`, with its laws in `IsSound`.
--   BundleSign: tools/delta_bundle_sign.py. The keys are BundleSign.Keys, the commands
--     BundleSign.Sign and BundleSign.Verify; signing is the record `Signer`.
--   Tests: runs at concrete inputs.
--
-- Errors. An exception is the `err` of a result, with one constructor for each message or each kind
-- of exception. Lists of errors that a tool collects are lists of constructors.
--
-- Fuel. The parser of JSON texts takes twice the length of the text and one more; a value is never
-- nested deeper than its text is long. The Merkle tree takes one more than the number of leaves, and
-- each level is shorter than the one below it.
--
-- Not modelled. Files, directories, the command line and printing are not modelled: what a file holds
-- is an argument. Clocks, random values, `datetime.fromisoformat`, standard base64, `str` of a value
-- that is no text, and what the package `cryptography` gives (Ed25519, X25519, HKDF, AES-GCM) are
-- parameters, so that the generation of keys has no model. Python's limit on recursion and on the
-- digits of an integer is left out. Of the repository's Python code the file audit, publication,
-- replay, sensor and wallet tools, the genesis generator, the examples and the tests have no model
-- here.
pub mod Prelude
pub mod Text
pub mod Json
pub mod Result
pub mod Utf8
pub mod Base64
pub mod Crypto
pub mod Canonical
pub mod EvidenceSet
pub mod Sdk
pub mod Trust
pub mod Intent
pub mod Audit
pub mod Bundle
pub mod BundleSign
pub mod Cli
pub mod Commitment
pub mod Genesis
pub mod Tests
