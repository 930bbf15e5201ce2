-- ===== src/Trust/Entry.antt =====
-- `make_entry_body` and `wrap_entry`, with the functions under them.
use delta_protocol.Prelude.{ℕ, true, false, List, [], ◌∷◌, if◌then◌else◌}
use delta_protocol.Text.{Text, lit, one_of, strip}
use delta_protocol.Json.{
  Value, Fields, null, bool, int, str, arr, obj, no_fields, field, pos, get, as_dict, dict_or_empty,
  truthy, items_of,
}
use delta_protocol.Json.Bytes.{json_bytes}
use delta_protocol.Result.{Result, ok, ◌>>=◌, ◌>>◌, require, or_raise}
use delta_protocol.Crypto.{Crypto, sha256_prefixed}

-- The `SystemExit`s by their messages. `unencodable` is a `ValueError` or `UnicodeEncodeError` of
-- the canonical bytes, `unhashable` the `TypeError` of a list or dict in a set, `attribute_error`
-- the call of `get` on what is no dict.
pub data TrustError : Type 0 where
  unencodable unhashable attribute_error : TrustError
  unsupported_role unsupported_event_type : TrustError
  record_not_object ledger_not_object no_ledger_body no_entries_list : TrustError
  empty_ledger last_hash_invalid chain_id_mismatch : TrustError

abbrev pub Outcome : Type 0 → Type 0
Outcome A = Result TrustError A

-- `canonical_sha256`: `json.dumps(..., allow_nan=False)` with no check of the value before it.
unfoldable pub canonical_sha256 : Crypto → Value → Outcome Text
canonical_sha256 c v = do b ← or_raise (json_bytes false v) unencodable; ok (sha256_prefixed c b)

abbrev pub valid_roles : List Text
valid_roles =
    lit "executor"
    ∷ lit "verifier"
    ∷ lit "intent_approver"
    ∷ lit "auditor"
    ∷ lit "publisher"
    ∷ lit "regulator"
    ∷ lit "observer"
    ∷ []

abbrev pub valid_event_types : List Text
valid_event_types =
    lit "record_observed"
    ∷ lit "replay_verified"
    ∷ lit "intent_verified"
    ∷ lit "audit_verified"
    ∷ lit "publication_verified"
    ∷ lit "manual_reviewed"
    ∷ lit "regulatory_reviewed"
    ∷ []

-- `normalize_role`
unfoldable pub normalize_role : Text → Outcome Text
normalize_role role = do
  let stripped = strip role
  require (one_of stripped valid_roles) unsupported_role
  ok stripped

-- `normalize_event_type`
unfoldable pub normalize_event_type : Text → Outcome Text
normalize_event_type event_type = do
  let stripped = strip event_type
  require (one_of stripped valid_event_types) unsupported_event_type
  ok stripped

-- `v or w`
abbrev pub or_else : Value → Value → Value
or_else v w = if truthy v then v else w

-- `str(v)`: a text is itself. `repr` gives the rest, which Python's library prints.
abbrev pub str_of : (Value → Text) → Value → Text
str_of repr (str t) = t
str_of repr v = repr v

-- `load_record`, from the value that the file holds.
unfoldable pub load_record : Value → Outcome Fields
load_record v = or_raise (as_dict v) record_not_object

-- `record_type`
unfoldable pub record_type : (Value → Text) → Fields → Text
record_type repr record_ =
    let body = dict_or_empty (get (lit "record_body") record_) in
    str_of repr (
      or_else (get (lit "type") body)
        (or_else (get (lit "type") record_) (str (lit "delta_sensor_record"))))

-- `record_target`
unfoldable pub record_target : Crypto → (Value → Text) → Fields → Text → Outcome Fields
record_target c repr record_ path = do
  h ← canonical_sha256 c (obj record_)
  ok (
      field (lit "record_hash") (str h) (
        field (lit "record_type") (str (record_type repr record_)) (
          field (lit "record_path_hint") (str path) (
            field (lit "hash_algorithm")
              (str (lit "sha256(canonical_json(full_delta_record_json))")) no_fields))))

-- The keyword arguments of `make_entry_body`, and what the clock gives.
pub record EntryArgs : Type 0 where
  pub chain_id : Text
  pub sequence : ℕ
  pub entry_id : Text
  pub previous_entry_hash : Text
  pub target : Fields
  pub path : Text
  pub actor : Text
  pub role : Text
  pub event_type : Text
  pub note : Text
  pub linked_proofs : List Value
  pub created_at : Text

unfoldable pub actor_fields : Text → Text → Fields
actor_fields actor role = field (lit "id") (str actor) (
    field (lit "role") (str role) (
      field (lit "identity_verified_by_delta") (bool false) (
        field (lit "note")
          (str (
            lit
              "Actor label is metadata unless combined with a future signed trust entry or external identity registry."))
          no_fields)))

unfoldable pub entry_boundary : Fields
entry_boundary = field (lit "proves_hash_chain_continuity") (bool true) (
    field (lit "proves_actor_identity") (bool false) (
      field (lit "proves_legal_trust") (bool false) (
        field (lit "proves_external_truth") (bool false) (
          field (lit "signed") (bool false) (
            field (lit "note")
              (str (
                lit
                  "Proof of Trust v2.2.0 is a hash-chain ledger MVP. It proves continuity and binding, not authority by itself."))
              no_fields)))))

-- `make_entry_body`
unfoldable pub make_entry_body : Crypto → (Value → Text) → EntryArgs → Outcome Fields
make_entry_body c repr a = do
  role ← normalize_role a.role
  event_type ← normalize_event_type a.event_type
  target ← record_target c repr a.target a.path
  ok (
      field (lit "type") (str (lit "delta_trust_entry")) (
        field (lit "version") (str (lit "1.0.0")) (
          field (lit "protocol") (str (lit "DELTA-0")) (
            field (lit "chain_id") (str a.chain_id) (
              field (lit "sequence") (int (pos a.sequence)) (
                field (lit "entry_id") (str a.entry_id) (
                  field (lit "previous_entry_hash") (str a.previous_entry_hash) (
                    field (lit "created_at") (str a.created_at) (
                      field (lit "actor") (obj (actor_fields a.actor role)) (
                        field (lit "event")
                          (obj (
                            field (lit "type") (str event_type)
                              (field (lit "note") (str a.note) no_fields)))
                          (field (lit "target") (obj target) (
                            field (lit "linked_proofs") (arr (items_of a.linked_proofs)) (
                              field (lit "security_boundary") (obj entry_boundary)
                                no_fields)))))))))))))

-- `entry_integrity` and `ledger_integrity`.
unfoldable pub integrity_fields : Text → Text → Fields
integrity_fields algorithm h = field (lit "hash_algorithm") (str algorithm) (
    field (lit "self_check_hash") (str h)
      (field (lit "signed") (bool false) (field (lit "signature") null no_fields)))

-- `wrap_entry`
unfoldable pub wrap_entry : Crypto → Fields → Outcome Fields
wrap_entry c body = do
  h ← canonical_sha256 c (obj body)
  ok (
      field (lit "entry_body_hash") (str h) (
        field (lit "entry_body") (obj body) (
          field (lit "entry_integrity")
            (obj (integrity_fields (lit "sha256(canonical_json(entry_body))") h)) no_fields)))
