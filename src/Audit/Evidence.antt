-- ===== src/Audit/Evidence.antt =====
-- What the auditor is given of the evidence of a record.
use delta_protocol.Prelude.{
  ℕ, suc, ◌≡◌, refl, true, all, none, some, inl, inr, Option-cases, List, [], ◌∷◌,
}
use delta_protocol.Text.{Text, Bytes, non_empty}
use delta_protocol.Base64.RoundTrip.{is_byte}
use delta_protocol.Json.{Value, Fields, obj, pos}
use delta_protocol.Result.{
  ok, ◌>>=◌, Ensures, holds, Ensures-bind, Ensures-bind_any, Ensures-require,
}
use delta_protocol.Crypto.{Crypto, sha256_prefixed}
use delta_protocol.Audit.Keys.{Sealing, IsSound, missing_evidence_file}
use delta_protocol.Audit.Commitments.{Commitment}
use delta_protocol.Audit.Encrypt.{EvidenceFile, EncryptArgs, encrypt_entry, encrypt_entries}
use delta_protocol.Audit.Decrypt.{Env, Disclosed, decrypt_entries, opened_ok, all_opened}
use delta_protocol.Audit.Opens.{plaintext_of, encrypt_entry-opens}

-- What is disclosed of the evidence of the commitments, in order, from this index on. Evidence
-- that is found is opened to the data of the file, under the index of its commitment; it is
-- missing only where this is allowed, and has the hash of its commitment where this is required.
pub data Delivered (c : Crypto) (args : EncryptArgs)
    : ℕ → List Commitment → List Disclosed → Type 0 where
  nothing_left : {idx : ℕ} → Delivered c args idx [] []
  is_missing :
      {idx : ℕ} {m : Commitment} {ms : List Commitment} {ds : List Disclosed}
      → args.resolve m.path_hint ≡ none
      → args.allow_missing_evidence ≡ true
      → Delivered c args (suc idx) ms ds
      → Delivered c args idx (m ∷ ms) ds
  is_opened :
      {idx : ℕ} {m : Commitment} {ms : List Commitment} {d : Disclosed} {ds : List Disclosed}
      (f : EvidenceFile)
      → args.resolve m.path_hint ≡ some f
      → d.index ≡ pos idx
      → opened_ok d.opened ≡ true
      → plaintext_of d.opened ≡ some f.plaintext
      → (args.require_hash_match ≡ true → sha256_prefixed c f.plaintext ≡ m.evidence_hash)
      → Delivered c args (suc idx) ms ds
      → Delivered c args idx (m ∷ ms) (d ∷ ds)

-- Entries that the auditor's key opens to the evidence of the commitments.
pub record AllOpen (c : Crypto) (s : Sealing) (args : EncryptArgs) (env : Env) (auditor : Bytes)
    (record_hash : Text) (idx : ℕ) (ms : List Commitment) (entries : List Value) : Type 0 where
  pub disclosed : List Disclosed
  pub decrypts : decrypt_entries c s env auditor record_hash entries ≡ ok disclosed
  pub opened : all_opened disclosed ≡ true
  pub same_evidence : Delivered c args idx ms disclosed

module _ (c : Crypto) (s : Sealing) (args : EncryptArgs) (env : Env) (auditor : Bytes)
    (sound : IsSound s) (bytes : (i : ℕ) → all is_byte (args.nonce i) ≡ true)
    (filled : (i : ℕ) → non_empty (args.nonce i) ≡ true) where
  no_entries : (record_hash : Text) (idx : ℕ) → AllOpen c s args env auditor record_hash idx [] []
  unfolding decrypt_entries all_opened
  no_entries record_hash idx = record {
    disclosed = [];
    decrypts = refl;
    opened = refl;
    same_evidence = nothing_left;
  }

  more_entries :
      (record_hash : Text) (idx : ℕ) (m : Commitment) (ms : List Commitment) (f : EvidenceFile)
      (entry : Fields) (entries : List Value)
      → args.resolve m.path_hint ≡ some f
      → encrypt_entry c s args (s.public_of auditor) record_hash idx m f ≡ ok entry
      → AllOpen c s args env auditor record_hash (suc idx) ms entries
      → AllOpen c s args env auditor record_hash idx (m ∷ ms) (obj entry ∷ entries)
  unfolding decrypt_entries all_opened
  more_entries record_hash idx m ms f entry entries found made rest =
      let (d, decrypted, at, good, same, hashed) =
        encrypt_entry-opens c s args env auditor record_hash idx m f entry sound (bytes idx)
          (filled idx) made in
      record {
        disclosed = d ∷ rest.disclosed;
        decrypts = rw (decrypted, ◌>>=◌) (rw (rest.decrypts, ◌>>=◌) refl);
        opened = rw (good, rest.opened) refl;
        same_evidence = is_opened f found at good same hashed rest.same_evidence;
      }

  pub encrypt_entries-opens :
      (record_hash : Text) (ms : List Commitment) (idx : ℕ)
      → Ensures
          (λ p. AllOpen c s args env auditor record_hash idx ms p.0)
          (encrypt_entries c s args (s.public_of auditor) record_hash idx ms)
  unfolding encrypt_entries
  encrypt_entries-opens record_hash [] idx = holds (no_entries record_hash idx)
  encrypt_entries-opens record_hash (m ∷ ms) idx = elim (Option-cases (args.resolve m.path_hint)) [
    | inl lost ↦
        rw (lost, encrypt_entries)
          (Ensures-require args.allow_missing_evidence missing_evidence_file λ allowed.
            Ensures-bind (encrypt_entries-opens record_hash ms (suc idx)) λ p rest. holds (record {
              disclosed = rest.disclosed;
              decrypts = rest.decrypts;
              opened = rest.opened;
              same_evidence = is_missing lost allowed rest.same_evidence;
            }))
    | inr (f, found) ↦
        rw (found, encrypt_entries)
          (Ensures-bind_any (encrypt_entry c s args (s.public_of auditor) record_hash idx m f)
            λ entry made.
              Ensures-bind (encrypt_entries-opens record_hash ms (suc idx))
                λ p rest. holds (more_entries record_hash idx m ms f entry p.0 found made rest))
  ]
