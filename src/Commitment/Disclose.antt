-- ===== src/Commitment/Disclose.antt =====
-- `disclose` of one commitment: the errors that it collects.
use delta_protocol.Prelude.{Bool, false, Option, none, some, List, [], ◌∷◌, ◌++◌, if◌then◌else◌}
use delta_protocol.Text.{Text, lit, text_eq, non_empty}
use delta_protocol.Json.{Value, Fields, str, obj, no_fields, field, get, is_text}
use delta_protocol.Json.Same.{same_value}
use delta_protocol.Result.{ok, ◌>>=◌}
use delta_protocol.Crypto.{Crypto}
use delta_protocol.EvidenceSet.Hashes.{Outcome}
use delta_protocol.EvidenceSet.Disclose.{EvidenceFile, is_file, evidence_hash_of}
use delta_protocol.EvidenceSet.Verify.{unless, entries_of}
use delta_protocol.Commitment.Package.{profile, salted_method, commitment_for}

-- The strings that `disclose` appends to `errors`.
pub data OpeningError : Type 0 where
  evidence_file_missing public_profile_invalid opening_profile_invalid : OpeningError
  public_entries_missing public_entry_not_found : OpeningError
  opening_evidence_hash_missing opening_evidence_hash_mismatch : OpeningError
  opening_salt_missing opening_label_missing opening_method_id_invalid : OpeningError
  opening_commitment_mismatch public_commitment_mismatch : OpeningError

-- `args.label or opening.get("label")`
abbrev pub label_value : Option Text → Fields → Value
label_value none opening = get (lit "label") opening
label_value (some []) opening = get (lit "label") opening
label_value (some (x ∷ t)) opening = str (x ∷ t)

-- `matches[0] if matches else None`
unfoldable pub first_match : Value → List Value → Option Fields
first_match label [] = none
first_match label (obj e ∷ vs) =
    let rest = first_match label vs in
    if same_value (get (lit "label") e) label then some e else rest
first_match label (v ∷ vs) = first_match label vs

-- `if entry`: a dict that is not empty.
abbrev pub filled : Option Fields → Option Fields
filled none = none
filled (some no_fields) = none
filled (some (field k v fs)) = some (field k v fs)

abbrev pub missing_entry : List Value → Option Fields → List OpeningError
missing_entry [] _ = public_entries_missing ∷ []
missing_entry (v ∷ vs) none = public_entry_not_found ∷ []
missing_entry (v ∷ vs) (some e) = []

unfoldable pub evidence_errors : Value → Option Text → List OpeningError
evidence_errors (str declared) none = []
evidence_errors (str declared) (some h) = unless (text_eq declared h) opening_evidence_hash_mismatch
evidence_errors _ h = opening_evidence_hash_missing ∷ []

-- `isinstance(v, str) and v`
abbrev pub is_filled_text : Value → Bool
is_filled_text (str t) = non_empty t
is_filled_text _ = false

-- `computed_commitment`
unfoldable pub opened_commitment : Crypto → Value → Value → Value → Value → Outcome (Option Text)
opened_commitment c (str h) (str salt) (str label) (str method_id) =
    commitment_for c h salt label method_id >>= λ x. ok (some x)
opened_commitment c _ _ _ _ = ok none

unfoldable pub mismatch : Value → Option Text → OpeningError → List OpeningError
mismatch declared none e = []
mismatch declared (some h) e = unless (is_text declared h) e

unfoldable pub entry_mismatch : Option Fields → Option Text → List OpeningError
entry_mismatch none computed = []
entry_mismatch (some e) computed =
    mismatch (get (lit "commitment") e) computed public_commitment_mismatch

-- The errors of a disclosure of evidence with this hash, whose opening gives this commitment.
unfoldable pub opening_errors :
    Fields → Fields → EvidenceFile → Option Text → Option Text → Option Text → List OpeningError
opening_errors package_ opening evidence label_arg evidence_hash computed =
    let entries = entries_of (get (lit "entries") package_) in
    let entry = filled (first_match (label_value label_arg opening) entries) in
    let method_id = get (lit "method_id") opening in
    unless (is_file evidence) evidence_file_missing
    ++ (unless (is_text (get (lit "profile") package_) profile) public_profile_invalid
        ++ (unless (is_text (get (lit "profile") opening) profile) opening_profile_invalid
            ++ (missing_entry entries entry
                ++ (evidence_errors (get (lit "evidence_hash") opening) evidence_hash
                    ++ (unless (is_filled_text (get (lit "salt") opening)) opening_salt_missing
                        ++ (unless (is_filled_text (get (lit "label") opening))
                              opening_label_missing
                            ++ (unless (is_text method_id salted_method) opening_method_id_invalid
                                ++ (mismatch (get (lit "commitment") opening) computed
                                      opening_commitment_mismatch
                                    ++ entry_mismatch entry computed))))))))

-- `disclose`
unfoldable pub disclose_commitment :
    Crypto → Fields → Fields → EvidenceFile → Option Text → Outcome (List OpeningError)
disclose_commitment c package_ opening evidence label_arg = do
  evidence_hash ← evidence_hash_of c evidence
  computed ←
      opened_commitment c (get (lit "evidence_hash") opening) (get (lit "salt") opening)
        (get (lit "label") opening) (get (lit "method_id") opening)
  ok (opening_errors package_ opening evidence label_arg evidence_hash computed)
