-- ===== src/Intent/Keys.antt =====
-- Hashes, prefixed base64 values, time stamps, and the registry of keys.
use delta_protocol.Prelude.{
  ℕ, Bool, true, false, ◌||◌, all, ltb, Option, none, some, List, [], ◌∷◌, ◌++◌, length, drop, ◌==◌,
  if◌then◌else◌,
}
use delta_protocol.Text.{Text, Bytes, lit, starts_with, strip}
use delta_protocol.Json.{
  Value, Fields, null, str, arr, obj, no_fields, field, get, insert, has_key, as_text, as_list,
  as_dict, is_text, truthy, items_of,
}
use delta_protocol.Json.Bytes.{json_bytes}
use delta_protocol.Result.{Result, ok, err, ◌>>=◌, ◌>>◌, require, or_raise}
use delta_protocol.Crypto.{Crypto, sha256_prefixed}

-- The exceptions, by their cause.
pub data IntentError : Type 0 where
  unencodable attribute_error not_object : IntentError
  wrong_prefix wrong_length not_base64 : IntentError
  timestamp_not_string bad_timestamp : IntentError
  bad_registry invalid_signature : IntentError

abbrev pub Outcome : Type 0 → Type 0
Outcome A = Result IntentError A

-- What the tool takes from Python's library and from the clock. Instants are counted in
-- microseconds.
pub record Env : Type 0 where
  -- `base64.b64decode(value, validate=True)` of a text in ASCII
  pub b64decode : Text → Option Bytes
  -- `base64.b64encode`
  pub b64encode : Bytes → Text
  -- `datetime.fromisoformat`, in UTC where it names no zone, as an instant
  pub instant : Text → Option ℕ
  -- `datetime.now(timezone.utc)`
  pub now : ℕ

-- `canonical_json_bytes`
unfoldable pub canonical_json_bytes : Value → Outcome Bytes
canonical_json_bytes v = or_raise (json_bytes true v) unencodable

-- `canonical_sha256`
unfoldable pub canonical_sha256 : Crypto → Value → Outcome Text
canonical_sha256 c v = do b ← canonical_json_bytes v; ok (sha256_prefixed c b)

unfoldable pub b64d : Env → Text → Option Bytes
b64d env t = if all (λ x. ltb x 128) t then env.b64decode t else none

-- `parse_prefixed_b64`
unfoldable pub parse_prefixed_b64 : Env → Value → Text → ℕ → Outcome Bytes
parse_prefixed_b64 env v prefix expected_len = do
  t ← or_raise (as_text v) wrong_prefix
  require (starts_with t prefix) wrong_prefix
  raw ← or_raise (b64d env (drop (length prefix) t)) not_base64
  require (length raw == expected_len) wrong_length
  ok raw

-- `public_key_hash`
unfoldable pub public_key_hash : Crypto → Env → Value → Outcome Text
public_key_hash c env v = do
  raw ← parse_prefixed_b64 env v (lit "ed25519:") 32
  ok (sha256_prefixed c raw)

abbrev pub ends_in_z : Text → Text
ends_in_z [] = []
ends_in_z (c ∷ []) = if c == b'Z' then lit "+00:00" else c ∷ []
ends_in_z (c ∷ d ∷ t) = c ∷ ends_in_z (d ∷ t)

-- `parse_iso_z`
unfoldable pub parse_iso_z : Env → Value → Outcome (Option ℕ)
parse_iso_z env null = ok none
parse_iso_z env (str []) = ok none
parse_iso_z env (str (c ∷ t)) = do
  i ← or_raise (env.instant (ends_in_z (strip (c ∷ t)))) bad_timestamp
  ok (some i)
parse_iso_z env _ = err timestamp_not_string

-- `parse_iso_z(v) if v else None`
unfoldable pub time_of : Env → Value → Outcome (Option ℕ)
time_of env v = elim (truthy v) [ true ↦ parse_iso_z env v | false ↦ ok none ]

-- `make_registry_entry`
unfoldable pub make_registry_entry :
    Crypto → Env → Text → Text → Text → Text → Text → Outcome Fields
make_registry_entry c env key_id public_key owner role active_from = do
  h ← public_key_hash c env (str public_key)
  ok (
      field (lit "id") (str key_id) (
        field (lit "public_key") (str public_key) (
          field (lit "public_key_hash") (str h) (
            field (lit "owner") (str owner) (
              field (lit "role") (str role) (
                field (lit "active_from") (str active_from)
                  (field (lit "revoked_at") null no_fields)))))))

-- `load_registry`, from the value in the file.
unfoldable pub load_registry : Option Value → Outcome (Option (List Value))
load_registry none = ok none
load_registry (some v) = do
  registry ← or_raise (as_dict v) bad_registry
  keys ← or_raise (as_list (get (lit "keys") registry)) bad_registry
  ok (some keys)

-- `[k for k in keys if k.get("id") != key_id]`
unfoldable pub without_id : Text → List Value → Outcome (List Value)
without_id key_id [] = ok []
without_id key_id (obj k ∷ ks) = do
  rest ← without_id key_id ks
  ok (if is_text (get (lit "id") k) key_id then rest else obj k ∷ rest)
without_id key_id (v ∷ ks) = err attribute_error

-- `registry.setdefault(key, value)`
unfoldable pub setdefault : Text → Text → Fields → Fields
setdefault k v fs = if has_key k fs then fs else insert k (str v) fs

-- What `cmd_keygen` writes over a registry that exists.
unfoldable pub update_registry : Text → Text → Fields → Value → Outcome Fields
update_registry key_id updated_at entry v = do
  registry ← or_raise (as_dict v) bad_registry
  keys ← or_raise (as_list (get (lit "keys") registry)) bad_registry
  kept ← without_id key_id keys
  let with_key = insert (lit "keys") (arr (items_of (kept ++ obj entry ∷ []))) registry
  let typed = setdefault (lit "type") (lit "delta_intent_key_registry") with_key
  let versioned = setdefault (lit "version") (lit "1.0.0") typed
  let named = setdefault (lit "protocol") (lit "DELTA-0") versioned
  ok (insert (lit "updated_at") (str updated_at) named)

-- `a == b` where `a` is a text.
abbrev pub same_text : Value → Value → Bool
same_text (str t) v = is_text v t
same_text _ v = false

-- `matches` of `find_registry_key`; the public key is a text there.
unfoldable pub registry_matches : Value → Text → List Value → Outcome (List Fields)
registry_matches public_key pk_hash [] = ok []
registry_matches public_key pk_hash (obj e ∷ es) = do
  rest ← registry_matches public_key pk_hash es
  let found =
      same_text public_key (get (lit "public_key") e)
      || is_text (get (lit "public_key_hash") e) pk_hash
  ok (if found then e ∷ rest else rest)
registry_matches public_key pk_hash (v ∷ es) = err attribute_error
