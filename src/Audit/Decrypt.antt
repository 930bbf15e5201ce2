-- ===== src/Audit/Decrypt.antt =====
-- `command_decrypt_package`: the files that are written and the disclosure.
use delta_protocol.Prelude.{Bool, true, false, ◌&&◌, not, Option, none, some, List, [], ◌∷◌, map}
use delta_protocol.Text.{Text, Bytes, lit}
use delta_protocol.Json.{
  Value, Fields, ℤ, bool, int, str, arr, obj, no_fields, field, pos, get, get_or, as_dict,
  dict_or_empty, is_text, truthy, items_of,
}
use delta_protocol.Result.{ok, ◌>>=◌, ◌>>◌, require, or_raise}
use delta_protocol.Crypto.{Crypto, sha256_prefixed}
use delta_protocol.Audit.Keys.{
  Outcome, Sealing, attribute_error, not_an_integer, record_hash_mismatch, canonical_json_bytes,
  canonical_sha256, b64url_decode_unpadded, parse_public_key, parse_private_key, shared_key,
}
use delta_protocol.Audit.Commitments.{or_else}
use delta_protocol.Audit.Names.{disclosed_name}
use delta_protocol.Audit.Verify.{entries_in, text_of}

-- What the tool takes from Python's library, the clock and the output directory.
pub record Env : Type 0 where
  -- `str` of what is no text
  pub repr : Value → Text
  -- `int` of a text or a float; `none` is an exception.
  pub int_of : Value → Option ℤ
  -- `Path(value).name`
  pub name_of : Text → Text
  -- `(out_dir / filename).as_posix()`
  pub place : Text → Text
  -- `now_utc()`
  pub now : Text

-- `int(v)`
unfoldable pub to_int : Env → Value → Outcome ℤ
to_int env (int i) = ok i
to_int env (bool true) = ok (pos 1)
to_int env (bool false) = ok (pos 0)
to_int env v = or_raise (env.int_of v) not_an_integer

-- What comes of an entry: a reason, or the file that is written and its hashes.
pub data Opened : Type 0 where
  ciphertext_hash_mismatch aes_gcm_invalid_tag : Opened
  written :
      (hash_ok : Bool) (filename : Text) (plaintext : Bytes) (plaintext_hash : Text)
      (expected commitment : Value)
      → Opened

pub record Disclosed : Type 0 where
  pub index : ℤ
  pub opened : Opened

-- The name, the hashes and the data of a plaintext.
unfoldable pub write_plaintext : Crypto → Env → ℤ → Fields → Bytes → Opened
write_plaintext c env idx evidence plaintext =
    let plaintext_hash = sha256_prefixed c plaintext in
    let hint =
      or_else (get (lit "resolved_basename") evidence)
        (or_else (get (lit "path_hint") evidence) (str (lit "evidence.bin"))) in
    written (is_text (get (lit "plaintext_hash") evidence) plaintext_hash)
      (disclosed_name env.name_of idx (text_of env.repr hint)) plaintext plaintext_hash
      (get (lit "plaintext_hash") evidence) (get (lit "commitment_hash") evidence)

unfoldable pub opened_of : Crypto → Env → ℤ → Fields → Option Bytes → Opened
opened_of c env idx evidence none = aes_gcm_invalid_tag
opened_of c env idx evidence (some plaintext) = write_plaintext c env idx evidence plaintext

-- A declared hash of the ciphertext that is another one.
unfoldable pub wrong_ciphertext : Crypto → Value → Bytes → Bool
wrong_ciphertext c declared ciphertext =
    truthy declared && not (is_text declared (sha256_prefixed c ciphertext))

-- The `try` over the decryption, behind the check of the ciphertext.
unfoldable pub open_ciphertext :
    Crypto → Sealing → Env → ℤ → Fields → Value → Value → Bytes → Bytes → Bytes → Outcome Opened
open_ciphertext c s env idx evidence aad declared key nonce ciphertext =
    elim (wrong_ciphertext c declared ciphertext) [
      | true ↦ ok ciphertext_hash_mismatch
      | false ↦ (do
        aad_bytes ← canonical_json_bytes aad
        ok (opened_of c env idx evidence (s.unseal key nonce ciphertext aad_bytes)))
    ]

-- The body of the loop.
unfoldable pub decrypt_entry : Crypto → Sealing → Env → Bytes → Text → Fields → Outcome Disclosed
decrypt_entry c s env private record_hash entry = do
  idx ← to_int env (get (lit "index") entry)
  let enc = dict_or_empty (get (lit "encryption") entry)
  let evidence = dict_or_empty (get (lit "evidence") entry)
  let aad = obj (dict_or_empty (get (lit "aad") entry))
  ephemeral ← parse_public_key (get (lit "ephemeral_public_key") enc)
  key ← shared_key s private ephemeral record_hash idx
  nonce ← b64url_decode_unpadded (get (lit "nonce") enc)
  ciphertext ← b64url_decode_unpadded (get (lit "ciphertext") enc)
  o ←
      open_ciphertext c s env idx evidence aad (get (lit "ciphertext_hash") enc) key nonce
        ciphertext
  ok (record { index = idx; opened = o })

unfoldable pub decrypt_entries :
    Crypto → Sealing → Env → Bytes → Text → List Value → Outcome (List Disclosed)
decrypt_entries c s env private record_hash [] = ok []
decrypt_entries c s env private record_hash (v ∷ vs) = do
  entry ← or_raise (as_dict v) attribute_error
  d ← decrypt_entry c s env private record_hash entry
  ds ← decrypt_entries c s env private record_hash vs
  ok (d ∷ ds)

abbrev pub opened_ok : Opened → Bool
opened_ok ciphertext_hash_mismatch = false
opened_ok aes_gcm_invalid_tag = false
opened_ok (written hash_ok filename plaintext plaintext_hash expected commitment) = hash_ok

-- `all_ok`
unfoldable pub all_opened : List Disclosed → Bool
all_opened [] = true
all_opened (d ∷ ds) = opened_ok d.opened && all_opened ds

abbrev failure : ℤ → Text → Fields
failure idx reason =
    field (lit "index") (int idx)
      (field (lit "ok") (bool false) (field (lit "reason") (str reason) no_fields))

-- The dict in `disclosure_entries`.
unfoldable pub disclosure_entry : Env → Disclosed → Value
disclosure_entry env d = elim d.opened [
  | ciphertext_hash_mismatch ↦ obj (failure d.index (lit "ciphertext_hash_mismatch"))
  | aes_gcm_invalid_tag ↦ obj (failure d.index (lit "aes_gcm_invalid_tag"))
  | written hash_ok filename plaintext plaintext_hash expected commitment ↦ obj (
      field (lit "index") (int d.index) (
        field (lit "ok") (bool hash_ok) (
          field (lit "path") (str (env.place filename)) (
            field (lit "plaintext_hash") (str plaintext_hash) (
              field (lit "expected_plaintext_hash") expected
                (field (lit "commitment_hash") commitment no_fields))))))
]

-- `package.get("target", {}).get("record_hash")`
unfoldable pub declared_record_hash : Fields → Outcome Value
declared_record_hash package_ = do
  target ← or_raise (as_dict (get_or (lit "target") (obj no_fields) package_)) attribute_error
  ok (get (lit "record_hash") target)

-- The hash of the record that is given, which must be the declared one, or the declared one.
unfoldable pub record_hash_of : Crypto → Fields → Option Value → Outcome Value
record_hash_of c package_ (some (obj record_)) = do
  h ← canonical_sha256 c (obj record_)
  declared ← declared_record_hash package_
  require (is_text declared h) record_hash_mismatch
  ok (str h)
record_hash_of c package_ _ = declared_record_hash package_

-- The dict `disclosure`.
unfoldable pub disclosure_fields : Env → Text → Value → List Disclosed → Fields
disclosure_fields env package_hash record_hash ds =
    field (lit "type") (str (lit "delta_audit_disclosure")) (
      field (lit "version") (str (lit "1.0.0")) (
        field (lit "protocol") (str (lit "DELTA-0")) (
          field (lit "created_at") (str env.now) (
            field (lit "package_hash") (str package_hash) (
              field (lit "record_hash") record_hash (
                field (lit "entries") (arr (items_of (map (disclosure_entry env) ds)))
                  (field (lit "ok") (bool (all_opened ds)) no_fields)))))))

-- `command_decrypt_package`: what is disclosed, and the document over it.
unfoldable pub decrypt_package :
    Crypto → Sealing → Env → Value → Value → Option Value → Outcome (List Disclosed × Fields)
decrypt_package c s env package_value private_value record_value = do
  private ← parse_private_key private_value
  package_ ← or_raise (as_dict package_value) attribute_error
  record_hash ← record_hash_of c package_ record_value
  ds ← decrypt_entries c s env private (text_of env.repr record_hash) (entries_in package_)
  package_hash ← canonical_sha256 c package_value
  ok (ds, disclosure_fields env package_hash record_hash ds)
