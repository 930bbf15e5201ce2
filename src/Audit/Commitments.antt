-- ===== src/Audit/Commitments.antt =====
-- `collect_evidence_commitments` and `build_aad`.
use delta_protocol.Prelude.{ℕ, Option, none, some, List, [], ◌∷◌, ◌++◌, if◌then◌else◌}
use delta_protocol.Text.{Text, lit, text_eq, starts_with, non_empty}
use delta_protocol.Json.{
  Value, Fields, int, str, arr, obj, no_fields, field, pos, get, insert, dict_or_empty, truthy,
  elements,
}

-- `v or w`
abbrev pub or_else : Value → Value → Value
or_else v w = if truthy v then v else w

-- The value of `--include`.
abbrev pub sections_of : Text → List Text
sections_of include_ =
    if text_eq include_ (lit "private")
    then lit "private_evidence_commitments" ∷ []
    else if text_eq include_ (lit "public")
    then lit "evidence_commitments" ∷ []
    else lit "private_evidence_commitments" ∷ lit "evidence_commitments" ∷ []

-- An item with a prefixed hash and a path hint that is a text.
pub record Commitment : Type 0 where
  pub item : Fields
  pub section : Text
  pub path_hint : Text
  pub evidence_hash : Text

abbrev prefixed_hash : Value → Option Text
prefixed_hash (str h) = if starts_with h (lit "sha256:") then some h else none
prefixed_hash _ = none

abbrev filled_text : Value → Option Text
filled_text (str t) = if non_empty t then some t else none
filled_text _ = none

-- The body of the loop over the items of a section; `none` is `continue`.
unfoldable pub commitment_of : Text → Value → Option Commitment
commitment_of section (obj fs) =
    let hash = or_else (get (lit "hash") fs) (get (lit "sha256") fs) in
    let hint =
      or_else (get (lit "path") fs) (or_else (get (lit "name") fs) (get (lit "type") fs)) in
    elim (prefixed_hash hash) [
      | none ↦ none
      | some h ↦ elim (filled_text hint) [
        | none ↦ none
        | some p ↦ some (record { item = fs; section = section; path_hint = p; evidence_hash = h })
      ]
    ]
commitment_of section _ = none

unfoldable pub commitments_of : Text → List Value → List Commitment
commitments_of section [] = []
commitments_of section (v ∷ vs) =
    let rest = commitments_of section vs in
    elim (commitment_of section v) [ none ↦ rest | some c ↦ c ∷ rest ]

abbrev list_items : Value → List Value
list_items (arr xs) = elements xs
list_items _ = []

-- `body.get(section) or []`, where it is a list.
abbrev items_in : Text → Fields → List Value
items_in section body = list_items (get section body)

unfoldable pub collect_sections : Fields → List Text → List Commitment
collect_sections body [] = []
collect_sections body (section ∷ sections) =
    commitments_of section (items_in section body) ++ collect_sections body sections

-- `collect_evidence_commitments`
unfoldable pub collect_evidence_commitments : Fields → Text → List Commitment
collect_evidence_commitments record_ include_ =
    collect_sections (dict_or_empty (get (lit "record_body") record_)) (sections_of include_)

-- The dict with the three keys that begin with `_`.
unfoldable pub enriched : Commitment → Fields
enriched c =
    insert (lit "_evidence_hash") (str c.evidence_hash)
      (insert (lit "_path_hint") (str c.path_hint) (insert (lit "_section") (str c.section) c.item))

-- `build_aad`
unfoldable pub build_aad : Text → Text → ℕ → Commitment → Value
build_aad package_id record_hash entry_index c = obj (
    field (lit "type") (str (lit "delta_audit_aad")) (
      field (lit "version") (str (lit "1.0.0")) (
        field (lit "protocol") (str (lit "DELTA-0")) (
          field (lit "package_id") (str package_id) (
            field (lit "record_hash") (str record_hash) (
              field (lit "entry_index") (int (pos entry_index)) (
                field (lit "evidence_path_hint") (get (lit "_path_hint") (enriched c)) (
                  field (lit "evidence_hash") (get (lit "_evidence_hash") (enriched c)) (
                    field (lit "evidence_type") (get (lit "type") (enriched c)) (
                      field (lit "commitment_section") (get (lit "_section") (enriched c))
                        no_fields))))))))))
