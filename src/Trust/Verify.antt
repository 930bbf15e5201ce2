-- ===== src/Trust/Verify.antt =====
-- `verify_ledger`: the checks over a ledger, and over its entries in order.
use delta_protocol.Json.{is_dict}
use delta_protocol.Prelude.{
  ℕ, suc, ◌+◌, Bool, true, false, ◌&&◌, ◌||◌, not, Option, none, some, List, [], ◌∷◌, length, ltb,
  if◌then◌else◌,
}
use delta_protocol.Text.{Text, lit, starts_with, one_of}
use delta_protocol.Json.{
  Value, Fields, str, arr, obj, pos, get, as_dict, dict_or_empty, is_text, is_int, is_optional,
  truthy, elements,
}
use delta_protocol.Result.{ok, err, ◌>>=◌}
use delta_protocol.Crypto.{Crypto}
use delta_protocol.Trust.Entry.{
  Outcome, unhashable, canonical_sha256, valid_roles, valid_event_types, str_of, or_else,
}

-- The flags of the loop over the entries.
pub record Flags : Type 0 where
  pub shapes : Bool
  pub hashes : Bool
  pub self_checks : Bool
  pub links : Bool
  pub sequence : Bool
  pub roles : Bool
  pub event_types : Bool
  pub linked_proofs : Bool
  pub record_binding : Bool

-- What the loop carries.
pub record Loop : Type 0 where
  pub flags : Flags
  pub matching_record_entries : ℕ
  pub previous_hash : Text
  pub last_hash : Text

-- `v in names`, for a set of texts.
unfoldable pub in_set : Value → List Text → Outcome Bool
in_set (str t) names = ok (one_of t names)
in_set (arr xs) names = err unhashable
in_set (obj fs) names = err unhashable
in_set _ names = ok false

-- `v in (None, h)`
abbrev pub absent_or : Value → Text → Bool
absent_or v h = is_optional v none || is_text v h

-- `isinstance(v, str) and v.startswith("sha256:")`
unfoldable pub is_prefixed : Value → Bool
is_prefixed (str t) = starts_with t (lit "sha256:")
is_prefixed _ = false

-- An item of `linked_proofs`: `str` of what is no text starts with no prefix.
unfoldable pub linked_proof_ok : Value → Bool
linked_proof_ok (obj proof) =
    not (truthy (get (lit "file_hash") proof)) || is_prefixed (get (lit "file_hash") proof)
linked_proof_ok _ = false

unfoldable pub all_linked_proofs_ok : List Value → Bool
all_linked_proofs_ok [] = true
all_linked_proofs_ok (v ∷ vs) = linked_proof_ok v && all_linked_proofs_ok vs

unfoldable pub linked_proofs_list_ok : Value → Bool
linked_proofs_list_ok (arr xs) = all_linked_proofs_ok (elements xs)
linked_proofs_list_ok _ = false

-- `target_hash` of an entry body.
abbrev pub target_hash : Fields → Value
target_hash body = get (lit "record_hash") (dict_or_empty (get (lit "target") body))

-- The binding to the record that is given with its hash.
unfoldable pub binding_ok : Option Text → Fields → Bool
binding_ok none body = true
binding_ok (some h) body = is_prefixed (target_hash body)

unfoldable pub matches_record : Option Text → Fields → Bool
matches_record none body = false
matches_record (some h) body = is_text (target_hash body) h

-- The entry is no dict, or has no body: `continue`.
abbrev bad_shape : Loop → Loop
bad_shape l = record l { flags = record l.flags { shapes = false; hashes = false; links = false } }

-- The state after an entry whose body has the hash `expected`.
unfoldable pub next_loop : Option Text → ℕ → Loop → Fields → Fields → Text → Bool → Bool → Loop
next_loop record_hash idx l entry body expected role event =
    let integrity = dict_or_empty (get (lit "entry_integrity") entry) in
    let f = l.flags in
    record {
      flags = record {
        shapes = f.shapes;
        hashes = f.hashes && is_text (get (lit "entry_body_hash") entry) expected;
        self_checks = f.self_checks && absent_or (get (lit "self_check_hash") integrity) expected;
        links = f.links && is_text (get (lit "previous_entry_hash") body) l.previous_hash;
        sequence = f.sequence && is_int (get (lit "sequence") body) (pos idx);
        roles = f.roles && role;
        event_types = f.event_types && event;
        linked_proofs = f.linked_proofs && linked_proofs_list_ok (get (lit "linked_proofs") body);
        record_binding = f.record_binding && binding_ok record_hash body;
      };
      matching_record_entries =
          (if matches_record record_hash body then 1 else 0) + l.matching_record_entries;
      previous_hash = expected;
      last_hash = expected;
    }

-- The rest of the body of the loop.
unfoldable pub check_entry : Crypto → Option Text → ℕ → Loop → Fields → Fields → Outcome Loop
check_entry c record_hash idx l entry body = do
  expected ← canonical_sha256 c (obj body)
  role ← in_set (get (lit "role") (dict_or_empty (get (lit "actor") body))) valid_roles
  event ← in_set (get (lit "type") (dict_or_empty (get (lit "event") body))) valid_event_types
  ok (next_loop record_hash idx l entry body expected role event)

unfoldable pub step : Crypto → Option Text → ℕ → Loop → Value → Outcome Loop
step c record_hash idx l (obj entry) = elim (as_dict (get (lit "entry_body") entry)) [
  | none ↦ ok (bad_shape l)
  | some body ↦ check_entry c record_hash idx l entry body
]
step c record_hash idx l _ = ok (bad_shape l)

unfoldable pub run : Crypto → Option Text → ℕ → Loop → List Value → Outcome Loop
run c record_hash idx l [] = ok l
run c record_hash idx l (v ∷ vs) = do
  next ← step c record_hash idx l v
  run c record_hash (suc idx) next vs

abbrev pub start : Loop
start = record {
  flags = record {
    shapes = true;
    hashes = true;
    self_checks = true;
    links = true;
    sequence = true;
    roles = true;
    event_types = true;
    linked_proofs = true;
    record_binding = true;
  };
  matching_record_entries = 0;
  previous_hash = lit "GENESIS";
  last_hash = [];
}

-- `checks`, and what else the result has.
pub record Report : Type 0 where
  pub ledger_shape_ok : Bool
  pub ledger_type_ok : Bool
  pub body_type_ok : Bool
  pub entry_count_ok : Bool
  pub ledger_body_hash_ok : Bool
  pub ledger_self_check_ok : Bool
  pub entries_ok : Flags
  pub chain_id : Text
  pub entry_count : ℕ
  pub ledger_body_hash : Text
  pub last_entry_hash : Text
  pub matching_record_entries : ℕ
  pub record_hash : Text

unfoldable pub entry_flags_ok : Flags → Bool
entry_flags_ok f =
    f.shapes
    && (f.hashes
        && (f.self_checks
            && (f.links
                && (f.sequence
                    && (f.roles && (f.event_types && (f.linked_proofs && f.record_binding)))))))

-- `all(checks.values())`
unfoldable pub report_ok : Report → Bool
report_ok r =
    r.ledger_shape_ok
    && (r.ledger_type_ok
        && (r.body_type_ok
            && (r.entry_count_ok
                && (r.ledger_body_hash_ok
                    && (r.ledger_self_check_ok && entry_flags_ok r.entries_ok)))))

unfoldable pub supplied_hash : Crypto → Option Fields → Outcome (Option Text)
supplied_hash c none = ok none
supplied_hash c (some r) = canonical_sha256 c (obj r) >>= λ h. ok (some h)

abbrev text_or_empty : Option Text → Text
text_or_empty none = []
text_or_empty (some t) = t

-- With a record, some entry must be about it.
unfoldable pub found_record : Option Text → ℕ → Bool
found_record none n = true
found_record (some h) n = ltb 0 n

abbrev pub list_or_empty : Value → List Value
list_or_empty (arr xs) = elements xs
list_or_empty _ = []

-- The result, from what has been computed.
unfoldable pub make_report : (Value → Text) → Fields → Text → Option Text → Loop → Report
make_report repr ledger expected record_hash l =
    let body = dict_or_empty (get (lit "ledger_body") ledger) in
    let entries = list_or_empty (get (lit "entries") body) in
    let integrity = dict_or_empty (get (lit "ledger_integrity") ledger) in
    record {
      ledger_shape_ok = is_dict (get (lit "ledger_body") ledger);
      ledger_type_ok =
          is_text (get (lit "type") ledger) (lit "delta_trust_ledger")
          && is_text (get (lit "protocol") ledger) (lit "DELTA-0");
      body_type_ok =
          is_text (get (lit "type") body) (lit "delta_trust_ledger_body")
          && is_text (get (lit "protocol") body) (lit "DELTA-0");
      entry_count_ok = ltb 0 (length entries);
      ledger_body_hash_ok = is_text (get (lit "ledger_body_hash") ledger) expected;
      ledger_self_check_ok = absent_or (get (lit "self_check_hash") integrity) expected;
      entries_ok = record l.flags {
        record_binding =
            l.flags.record_binding && found_record record_hash l.matching_record_entries;
      };
      chain_id = str_of repr (or_else (get (lit "chain_id") body) (str []));
      entry_count = length entries;
      ledger_body_hash = expected;
      last_entry_hash = l.last_hash;
      matching_record_entries = l.matching_record_entries;
      record_hash = text_or_empty record_hash;
    }

-- `verify_ledger`
unfoldable pub verify_ledger : Crypto → (Value → Text) → Fields → Option Fields → Outcome Report
verify_ledger c repr ledger record_ = do
  let body = dict_or_empty (get (lit "ledger_body") ledger)
  expected ← canonical_sha256 c (obj body)
  record_hash ← supplied_hash c record_
  l ← run c record_hash 0 start (list_or_empty (get (lit "entries") body))
  ok (make_report repr ledger expected record_hash l)
