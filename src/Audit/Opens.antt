-- ===== src/Audit/Opens.antt =====
-- What is encrypted for an auditor is decrypted with the auditor's key.
use delta_protocol.Prelude.{
  ℕ, ◌≡◌, refl, Bool, true, false, ◌||◌, not, all, Option, none, some, [], ◌∷◌, ◌++◌, length, drop,
  arith,
}
use delta_protocol.Text.{
  Text, Bytes, lit, text_eq, text_eq_refl, text_eq→≡, starts_with-append, non_empty,
}
use delta_protocol.Base64.{b64url_encode}
use delta_protocol.Base64.RoundTrip.{is_byte, non_empty-b64url_encode, b64url_decode-b64url_encode}
use delta_protocol.Json.{Value, Fields, ℤ, str, obj, pos, get, get_or, lookup, dict_or_empty}
use delta_protocol.Result.{ok, ◌>>=◌, holds, Ensures-ok, Ensures-bind_any, Ensures-require}
use delta_protocol.Crypto.{Crypto, sha256_prefixed}
use delta_protocol.Audit.Keys.{
  Sealing, IsSound, canonical_json_bytes, canonical_sha256, b64url_decode_unpadded, parse_key,
  parse_public_key, public_key_text, shared_key, evidence_hash_mismatch,
}
use delta_protocol.Audit.Commitments.{Commitment, build_aad}
use delta_protocol.Audit.Encrypt.{
  EvidenceFile, EncryptArgs, evidence_fields, encryption_fields, entry_fields, encrypt_entry,
}
use delta_protocol.Audit.Decrypt.{
  Env, Disclosed, Opened, written, to_int, write_plaintext, opened_of, wrong_ciphertext,
  open_ciphertext, decrypt_entry, opened_ok,
}

-- Decoding takes the encoded form of bytes back.
pub b64url_decode_unpadded-b64url_encode :
    (b : Bytes)
    → all is_byte b ≡ true
    → non_empty b ≡ true
    → b64url_decode_unpadded (str (b64url_encode b)) ≡ ok b
unfolding b64url_decode_unpadded
b64url_decode_unpadded-b64url_encode b h filled =
    rw (non_empty-b64url_encode b filled, b64url_decode-b64url_encode b h) refl

filled-32 : (b : Bytes) → length b ≡ 32 → non_empty b ≡ true
filled-32 [] h = ground arith
filled-32 (x ∷ b) h = refl

drop_prefix : (t : Text) → drop 7 (lit "x25519:" ++ t) ≡ t
unfolding lit
drop_prefix t = refl

prefix_length : length (lit "x25519:") ≡ 7
unfolding lit
prefix_length = refl

-- A public key that is printed is read back.
pub parse_public_key-public_key_text :
    (raw : Bytes)
    → length raw ≡ 32
    → all is_byte raw ≡ true
    → parse_public_key (str (public_key_text raw)) ≡ ok raw
unfolding parse_public_key parse_key public_key_text
parse_public_key-public_key_text raw len bytes =
    rw
      (
        starts_with-append (lit "x25519:") (b64url_encode raw),
        prefix_length,
        drop_prefix (b64url_encode raw),
        b64url_decode_unpadded-b64url_encode raw bytes (filled-32 raw len),
        len,
      )
      refl

module _ (c : Crypto) (s : Sealing) (sound : IsSound s) where
  shared_key-agrees :
      (a b : Bytes) (record_hash : Text) (i : ℤ)
      → shared_key s a (s.public_of b) record_hash i ≡ shared_key s b (s.public_of a) record_hash i
  unfolding shared_key
  shared_key-agrees a b record_hash i = rw (sound.agrees a b) refl

  same_ciphertext : (b : Bytes) → wrong_ciphertext c (str (sha256_prefixed c b)) b ≡ false
  unfolding wrong_ciphertext sha256_prefixed lit text_eq
  same_ciphertext b = rw (text_eq_refl (c.hexdigest b)) refl

  open_ciphertext-sealed :
      (env : Env) (i : ℤ) (evidence : Fields) (aad : Value) (key nonce plaintext aad_bytes : Bytes)
      → canonical_json_bytes aad ≡ ok aad_bytes
      → open_ciphertext c s env i evidence aad
          (str (sha256_prefixed c (s.seal key nonce plaintext aad_bytes)))
          key
          nonce
          (s.seal key nonce plaintext aad_bytes)
        ≡ ok (write_plaintext c env i evidence plaintext)
  unfolding opened_of open_ciphertext write_plaintext
  open_ciphertext-sealed env i evidence aad key nonce plaintext aad_bytes made =
      rw (same_ciphertext (s.seal key nonce plaintext aad_bytes), open_ciphertext)
        (rw (made, ◌>>=◌) (rw (sound.opens key nonce plaintext aad_bytes) refl))

  -- An entry with these fields is decrypted to the plaintext.
  decrypt_entry-sealed :
      (env : Env) (auditor ephemeral nonce plaintext key aad_bytes : Bytes)
      (record_hash aad_hash : Text) (idx : ℕ) (evidence aad : Fields)
      → all is_byte nonce ≡ true
      → non_empty nonce ≡ true
      → shared_key s ephemeral (s.public_of auditor) record_hash (pos idx) ≡ ok key
      → canonical_json_bytes (obj aad) ≡ ok aad_bytes
      → decrypt_entry c s env auditor record_hash (
          entry_fields idx evidence (obj aad) aad_hash (
            encryption_fields c
              (s.public_of ephemeral)
              nonce
              (s.seal key nonce plaintext aad_bytes)))
        ≡ ok (record {
          index = pos idx;
          opened = write_plaintext c env (pos idx) evidence plaintext;
        })
  unfolding decrypt_entry entry_fields encryption_fields to_int get get_or lookup lit text_eq
  decrypt_entry-sealed env auditor ephemeral nonce plaintext key aad_bytes record_hash aad_hash idx
        evidence aad bytes filled ek ea =
      let sealed = s.seal key nonce plaintext aad_bytes in
      rw
        (
          parse_public_key-public_key_text (s.public_of ephemeral)
              (sound.length-public_of ephemeral) (sound.bytes-public_of ephemeral),
          ◌>>=◌,
        )
        (rw (shared_key-agrees auditor ephemeral record_hash (pos idx), ek, ◌>>=◌)
          (rw (b64url_decode_unpadded-b64url_encode nonce bytes filled, ◌>>=◌)
            (rw
              (
                b64url_decode_unpadded-b64url_encode sealed
                    (sound.bytes-seal key nonce plaintext aad_bytes)
                    (sound.non_empty-seal key nonce plaintext aad_bytes),
                ◌>>=◌,
              )
              (rw
                (
                  open_ciphertext-sealed env (pos idx) evidence (obj aad) key nonce plaintext
                      aad_bytes ea,
                  ◌>>=◌,
                )
                refl))))

-- What the disclosure of an entry gives: no reason, and the file with this data.
abbrev pub plaintext_of : Opened → Option Bytes
plaintext_of (written hash_ok filename plaintext plaintext_hash expected commitment) =
    some plaintext
plaintext_of _ = none

required_match : (same asked : Bool) → (same || not asked) ≡ true → asked ≡ true → same ≡ true
required_match same asked h q = ground arith

module _ (c : Crypto) (s : Sealing) where
  opened_ok-evidence_fields :
      (env : Env) (i : ℤ) (m : Commitment) (f : EvidenceFile)
      → (opened_ok (write_plaintext c env i (evidence_fields c m f) f.plaintext) ≡ true)
        × (plaintext_of (write_plaintext c env i (evidence_fields c m f) f.plaintext)
            ≡ some f.plaintext)
  unfolding write_plaintext evidence_fields get get_or lookup lit text_eq
  opened_ok-evidence_fields env i m f = (text_eq_refl (sha256_prefixed c f.plaintext), refl)

  -- An entry that is encrypted for the public key of an auditor, with a nonce of bytes, is decrypted
  -- with the auditor's key to the same data, and its hash is the one that the entry declares, and
  -- that of the record where this is asked for. The cryptographic functions are sound.
  pub encrypt_entry-opens :
      (args : EncryptArgs) (env : Env) (auditor : Bytes) (record_hash : Text) (idx : ℕ)
      (m : Commitment) (f : EvidenceFile) (entry : Fields)
      → IsSound s
      → all is_byte (args.nonce idx) ≡ true
      → non_empty (args.nonce idx) ≡ true
      → encrypt_entry c s args (s.public_of auditor) record_hash idx m f ≡ ok entry
      → (d : Disclosed) × (decrypt_entry c s env auditor record_hash entry ≡ ok d)
        × (d.index ≡ pos idx)
        × (opened_ok d.opened ≡ true)
        × (plaintext_of d.opened ≡ some f.plaintext)
        × (args.require_hash_match ≡ true → sha256_prefixed c f.plaintext ≡ m.evidence_hash)
  unfolding encrypt_entry build_aad
  encrypt_entry-opens args env auditor record_hash idx m f entry sound bytes filled run =
      let (good, same) = opened_ok-evidence_fields env (pos idx) m f in
      let aad = build_aad args.package_id record_hash idx m in
      Ensures-ok
        {P = λ entry.
          (d : Disclosed) × (decrypt_entry c s env auditor record_hash entry ≡ ok d)
          × (d.index ≡ pos idx)
          × (opened_ok d.opened ≡ true)
          × (plaintext_of d.opened ≡ some f.plaintext)
          × (args.require_hash_match ≡ true → sha256_prefixed c f.plaintext ≡ m.evidence_hash)}
        (Ensures-require
          (text_eq (sha256_prefixed c f.plaintext) m.evidence_hash || not args.require_hash_match)
          evidence_hash_mismatch
          λ matches.
            Ensures-bind_any
              (shared_key s (args.ephemeral idx) (s.public_of auditor) record_hash (pos idx))
              λ key ek. Ensures-bind_any (canonical_json_bytes aad) λ aad_bytes ea.
                Ensures-bind_any (canonical_sha256 c aad) λ aad_hash eh. holds (
                  record {
                    index = pos idx;
                    opened = write_plaintext c env (pos idx) (evidence_fields c m f) f.plaintext;
                  },
                  decrypt_entry-sealed c s sound env auditor (args.ephemeral idx) (args.nonce idx)
                      f.plaintext key aad_bytes record_hash aad_hash idx (evidence_fields c m f)
                      (dict_or_empty aad) bytes filled ek ea,
                  refl,
                  good,
                  same,
                  λ asked.
                      text_eq→≡ (sha256_prefixed c f.plaintext) m.evidence_hash
                        (required_match _ args.require_hash_match matches asked),
                ))
        run
