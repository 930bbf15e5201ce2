-- ===== src/Trust/Ledger.antt =====
-- `make_ledger`, `load_ledger`, and the commands that create a ledger and append to it.
use delta_protocol.Prelude.{true, false, ◌||◌, not, List, [], ◌∷◌, ◌++◌, length}
use delta_protocol.Text.{Text, lit, starts_with, text_eq, non_empty}
use delta_protocol.Json.{
  Value, Fields, bool, str, arr, obj, no_fields, field, get, insert, as_text, as_dict, as_list,
  truthy, items_of,
}
use delta_protocol.Result.{ok, err, ◌>>=◌, ◌>>◌, require, or_raise}
use delta_protocol.Crypto.{Crypto}
use delta_protocol.Trust.Entry.{
  Outcome, attribute_error, ledger_not_object, no_ledger_body, no_entries_list, empty_ledger,
  last_hash_invalid, chain_id_mismatch, canonical_sha256, str_of, or_else, EntryArgs,
  make_entry_body, wrap_entry, integrity_fields,
}

unfoldable pub ledger_boundary : Fields
ledger_boundary = field (lit "proves_hash_chain_continuity") (bool true) (
    field (lit "proves_actor_identity") (bool false) (
      field (lit "proves_legal_trust") (bool false) (
        field (lit "proves_external_truth") (bool false) (
          field (lit "note")
            (str (
              lit
                "This ledger is a cryptographic continuity layer. Trust policy and signed identities are future layers."))
            no_fields))))

-- The dict `ledger_body` of `make_ledger`.
unfoldable pub ledger_body : Text → Text → List Value → Fields
ledger_body created_at chain_id entries = field (lit "type") (str (lit "delta_trust_ledger_body")) (
    field (lit "version") (str (lit "1.0.0")) (
      field (lit "protocol") (str (lit "DELTA-0")) (
        field (lit "chain_id") (str chain_id) (
          field (lit "created_at") (str created_at) (
            field (lit "hash_algorithm") (str (lit "sha256(canonical_json(entry_body))")) (
              field (lit "link_algorithm")
                (str (lit "entry[n].entry_body.previous_entry_hash == entry[n-1].entry_body_hash"))
                (field (lit "entries") (arr (items_of entries))
                  (field (lit "security_boundary") (obj ledger_boundary) no_fields))))))))

-- The dict around a ledger body whose hash is `h`.
unfoldable pub ledger_of : Fields → Text → Fields
ledger_of body h = field (lit "type") (str (lit "delta_trust_ledger")) (
    field (lit "version") (str (lit "1.0.0")) (
      field (lit "protocol") (str (lit "DELTA-0")) (
        field (lit "ledger_body_hash") (str h) (
          field (lit "ledger_body") (obj body) (
            field (lit "ledger_integrity")
              (obj (integrity_fields (lit "sha256(canonical_json(ledger_body))") h)) no_fields)))))

-- `make_ledger`
unfoldable pub make_ledger : Crypto → Text → Text → List Value → Outcome Fields
make_ledger c created_at chain_id entries = do
  let body = ledger_body created_at chain_id entries
  h ← canonical_sha256 c (obj body)
  ok (ledger_of body h)

-- `load_ledger`: the ledger, its body and its entries.
unfoldable pub load_ledger : Value → Outcome (Fields × Fields × List Value)
load_ledger v = do
  ledger ← or_raise (as_dict v) ledger_not_object
  body ← or_raise (as_dict (get (lit "ledger_body") ledger)) no_ledger_body
  entries ← or_raise (as_list (get (lit "entries") body)) no_entries_list
  ok (ledger, body, entries)

-- `command_create_ledger`: the ledger that is written. The chain id stands in `args`.
unfoldable pub create_ledger : Crypto → (Value → Text) → Text → EntryArgs → Outcome Fields
create_ledger c repr created_at args = do
  body ← make_entry_body c repr (record args { sequence = 0; previous_entry_hash = lit "GENESIS" })
  entry ← wrap_entry c body
  make_ledger c created_at args.chain_id (obj entry ∷ [])

-- `entries[-1].get("entry_body_hash")`
unfoldable pub last_entry_hash : List Value → Outcome Value
last_entry_hash [] = err empty_ledger
last_entry_hash (obj e ∷ []) = ok (get (lit "entry_body_hash") e)
last_entry_hash (v ∷ []) = err attribute_error
last_entry_hash (v ∷ w ∷ vs) = last_entry_hash (w ∷ vs)

-- The last hash, which must be a text with the prefix.
unfoldable pub previous_hash_of : List Value → Outcome Text
previous_hash_of entries = do
  declared ← last_entry_hash entries
  h ← or_raise (as_text declared) last_hash_invalid
  require (starts_with h (lit "sha256:")) last_hash_invalid
  ok h

-- The time of the ledger that is appended to replaces the new one, where there is one; the hashes
-- are computed again.
unfoldable pub keep_created_at : Crypto → Value → Fields → Fields → Outcome Fields
keep_created_at c created_at new_body new_ledger = elim (truthy created_at) [
  | false ↦ ok new_ledger
  | true ↦ (do
    let kept = insert (lit "created_at") created_at new_body
    h ← canonical_sha256 c (obj kept)
    ok (ledger_of kept h))
]

-- `command_append_entry`, on the loaded ledger: the ledger that is written.
unfoldable pub append_entry :
    Crypto → (Value → Text) → Text → EntryArgs → Fields → List Value → Outcome Fields
append_entry c repr created_at args body entries = do
  previous ← previous_hash_of entries
  let chain_id = str_of repr (or_else (get (lit "chain_id") body) (str args.chain_id))
  require (not (non_empty args.chain_id) || text_eq args.chain_id chain_id) chain_id_mismatch
  new ← make_entry_body c repr (record args {
    chain_id = chain_id;
    sequence = length entries;
    previous_entry_hash = previous;
  })
  entry ← wrap_entry c new
  let all_entries = entries ++ obj entry ∷ []
  ledger ← make_ledger c created_at chain_id all_entries
  keep_created_at c (get (lit "created_at") body) (ledger_body created_at chain_id all_entries)
      ledger
