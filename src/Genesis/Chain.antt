-- ===== src/Genesis/Chain.antt =====
-- `verify_chain_proof`, with the checks of single fields that it uses.
use delta_protocol.Prelude.{false, none, some, List, [], ◌∷◌}
use delta_protocol.Text.{Text, lit, text_eq}
use delta_protocol.Json.{Value, Fields, obj, lookup, as_list, is_text}
use delta_protocol.Json.Bytes.{json_bytes}
use delta_protocol.Result.{Result, ok, err, ◌>>=◌, ◌>>◌, require, or_raise}
use delta_protocol.Crypto.{Crypto, sha256_prefixed}

-- The calls of `fail` by what they are about. `unencodable` is an exception of the canonical bytes.
pub data GenesisError : Type 0 where
  missing_field mismatch not_object bad_format : Text → GenesisError
  entries_empty entry_not_object unencodable signature_invalid : GenesisError
  unhashable unexpected_path missing_paths : GenesisError

abbrev pub Outcome : Type 0 → Type 0
Outcome A = Result GenesisError A

-- `sha256_object`
unfoldable pub sha256_object : Crypto → Value → Outcome Text
sha256_object c v = or_raise (json_bytes false v) unencodable >>= λ b. ok (sha256_prefixed c b)

-- `require_field`, on a dict.
unfoldable pub require_field : Fields → Text → Outcome Value
require_field o key = or_raise (lookup key o) (missing_field key)

-- `require_equal(name, require_field(o, key, ...), expected)`
unfoldable pub require_field_equal : Fields → Text → Text → Outcome (Unit {0})
require_field_equal o key expected = do
  v ← require_field o key
  require (is_text v expected) (mismatch key)

-- `if not isinstance(entries, list) or not entries: fail(...)`
unfoldable pub first_entry : Value → Outcome (Value × List Value)
first_entry v = elim (as_list v) [
  | none ↦ err entries_empty
  | some [] ↦ err entries_empty
  | some (e ∷ es) ↦ ok (e, es)
]

-- The loop over the entries behind the first one: the hash of the last entry.
unfoldable pub follow_entries : Crypto → Text → List Value → Outcome Text
follow_entries c current [] = ok current
follow_entries c current (obj e ∷ es) = do
  require_field_equal e (lit "prev_entry_hash") current
  h ← sha256_object c (obj e)
  follow_entries c h es
follow_entries c current (v ∷ es) = err entry_not_object

-- What the proof is checked against.
pub record ChainExpected : Type 0 where
  pub target_entry_hash : Text
  pub checkpoint_hash : Text
  pub head_entry_hash : Text

-- The six fields in front of the entries.
unfoldable pub check_chain_header : Fields → ChainExpected → Outcome (Unit {0})
check_chain_header proof x = do
  require_field_equal proof (lit "type") (lit "delta_chain_proof")
  require_field_equal proof (lit "protocol_version") (lit "DELTA-0")
  require_field_equal proof (lit "ledger_id") (lit "delta-ledger:genesis-local")
  require_field_equal proof (lit "target_entry_hash") x.target_entry_hash
  require_field_equal proof (lit "checkpoint_hash") x.checkpoint_hash
  require_field_equal proof (lit "head_entry_hash") x.head_entry_hash

-- `verify_chain_proof`
unfoldable pub verify_chain_proof : Crypto → Fields → ChainExpected → Outcome (Unit {0})
verify_chain_proof c proof x = do
  check_chain_header proof x
  entries ← require_field proof (lit "entries")
  (first, rest) ← first_entry entries
  first_hash ← sha256_object c first
  require (text_eq first_hash x.target_entry_hash) (mismatch (lit "first"))
  final_hash ← follow_entries c first_hash rest
  require (text_eq final_hash x.head_entry_hash) (mismatch (lit "final"))
