-- ===== src/Intent/Approve.antt =====
-- `extract_sensor_method`, `extract_commit_after`, and the two documents that `cmd_approve` writes.
use delta_protocol.Prelude.{Bool, Option, none, some, List, [], ◌∷◌, ◌++◌, if◌then◌else◌}
use delta_protocol.Text.{Text, lit}
use delta_protocol.Json.{
  Value, Fields, null, bool, str, obj, no_fields, field, get, dict_or_empty, truthy,
}

-- The first `record[first][second]` that is true; `str` of it, by `show`.
unfoldable pub nested : List (Text × Text) → Fields → Option Value
nested [] record_ = none
nested ((first, second) ∷ rest) record_ =
    let later = nested rest record_ in
    let value = get second (dict_or_empty (get first record_)) in
    if truthy value then some value else later

unfoldable pub first_true : List Text → Fields → Option Value
first_true [] record_ = none
first_true (k ∷ ks) record_ =
    let later = first_true ks record_ in
    if truthy (get k record_) then some (get k record_) else later

abbrev pub str_of : (Value → Text) → Value → Text
str_of repr (str t) = t
str_of repr v = repr v

abbrev or_first : Option Value → Option Value → Option Value
or_first none w = w
or_first (some v) w = some v

-- `extract_sensor_method`
unfoldable pub extract_sensor_method : (Value → Text) → Fields → Text
extract_sensor_method repr record_ =
    let candidates =
      (lit "measurement", lit "method_id")
      ∷ (lit "measurement", lit "method")
      ∷ (lit "method", lit "id")
      ∷ (lit "sensor", lit "method_id")
      ∷ (lit "sensor", lit "method")
      ∷ [] in
    let flat = lit "measurement_method" ∷ lit "method_id" ∷ lit "sensor_method" ∷ [] in
    elim (or_first (nested candidates record_) (first_true flat record_)) [
      | none ↦ lit "unknown"
      | some v ↦ str_of repr v
    ]

-- The first key whose value is a text that is not empty.
unfoldable pub first_text : List Text → Fields → Option Text
first_text [] record_ = none
first_text (k ∷ ks) record_ = elim (get k record_) [
  | str [] ↦ first_text ks record_
  | str (x ∷ t) ↦ some (x ∷ t)
  | _ ↦ first_text ks record_
]

-- `extract_commit_after`
unfoldable pub extract_commit_after : (Value → Text) → Fields → Option Text
extract_commit_after repr record_ =
    let candidates =
      (lit "git", lit "commit_after")
      ∷ (lit "git", lit "after")
      ∷ (lit "commit", lit "after")
      ∷ (lit "repository", lit "commit_after")
      ∷ [] in
    let flat = lit "commit_after" ∷ lit "after_commit" ∷ lit "commit_sha" ∷ lit "commit" ∷ [] in
    elim (nested candidates record_) [
      | none ↦ first_text flat record_
      | some v ↦ some (str_of repr v)
    ]

-- The arguments of the command; an argument that is not given is `none`.
pub record ApproveArgs : Type 0 where
  pub sensor_method : Option Text
  pub commit_after : Option Text
  pub ticket : Text
  pub approver : Text
  pub role : Text
  pub reason : Text
  pub requires_mfa : Bool
  pub valid_from : Option Text
  pub valid_until : Option Text
  pub created_at : Text

abbrev pub optional : Option Text → Value
optional none = null
optional (some t) = str t

-- `given or default`
abbrev text_or : Option Text → Value → Value
text_or none default = default
text_or (some []) default = default
text_or (some (x ∷ t)) default = str (x ∷ t)

abbrev time_window : Option Text → Option Text → Value
time_window (some (x ∷ a)) (some (y ∷ b)) = str ((x ∷ a) ++ lit "/" ++ (y ∷ b))
time_window _ _ = null

-- The dict `attestation`.
unfoldable pub attestation_of : (Value → Text) → ApproveArgs → Fields → Text → Fields
attestation_of repr a record_ record_hash =
    field (lit "type") (str (lit "delta_intent_attestation")) (
      field (lit "version") (str (lit "1.0.0")) (
        field (lit "protocol") (str (lit "DELTA-0")) (
          field (lit "target")
            (obj (
              field (lit "record_hash") (str record_hash) (
                field (lit "record_type") (str (lit "delta_sensor_record")) (
                  field (lit "sensor_method")
                    (text_or a.sensor_method (str (extract_sensor_method repr record_)))
                    (field (lit "commit_after")
                      (text_or a.commit_after (optional (extract_commit_after repr record_)))
                      no_fields)))))
            (field (lit "approval")
              (obj (
                field (lit "ticket_id") (str a.ticket) (
                  field (lit "approver") (str a.approver) (
                    field (lit "role") (str a.role)
                      (field (lit "reason") (str a.reason) no_fields)))))
              (field (lit "policy")
                (obj (
                  field (lit "requires_mfa") (bool a.requires_mfa) (
                    field (lit "valid_from") (optional a.valid_from) (
                      field (lit "valid_until") (optional a.valid_until) (
                        field (lit "time_window") (time_window a.valid_from a.valid_until)
                          no_fields)))))
                (field (lit "created_at") (str a.created_at) no_fields))))))

-- The dict `signature_doc`.
unfoldable pub signature_doc_of : Text → Text → Text → Text → Text → Text → Fields
signature_doc_of target_hash public_key pk_hash signature key_hint created_at =
    field (lit "type") (str (lit "delta_intent_signature")) (
      field (lit "version") (str (lit "1.0.0")) (
        field (lit "protocol") (str (lit "DELTA-0")) (
          field (lit "alg") (str (lit "Ed25519")) (
            field (lit "target_hash") (str target_hash) (
              field (lit "public_key") (str public_key) (
                field (lit "public_key_hash") (str pk_hash) (
                  field (lit "signature") (str signature) (
                    field (lit "key_hint") (str key_hint)
                      (field (lit "created_at") (str created_at) no_fields)))))))))
