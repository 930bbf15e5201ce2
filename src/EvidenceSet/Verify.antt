-- ===== src/EvidenceSet/Verify.antt =====
-- `verify_public`: the errors that it collects for a public package. `err` is an exception that it
-- does not catch. A read of the file is `read_json`, whose result is the argument.
use delta_protocol.Prelude.{
  ℕ, suc, Bool, true, false, Option, none, some, List, [], ◌∷◌, ◌++◌, if◌then◌else◌,
}
use delta_protocol.Text.{Text, lit}
use delta_protocol.Json.{
  Value, Fields, arr, obj, get, as_text, as_int, dict_or_empty, is_text, is_optional, elements,
}
use delta_protocol.Result.{ok, err, ◌>>=◌, ◌>>◌}
use delta_protocol.Crypto.{Crypto}
use delta_protocol.EvidenceSet.Hashes.{
  Outcome, SetError, leaf_hash_for, validate_sha256, package_body_hash,
}
use delta_protocol.EvidenceSet.Merkle.{build_merkle_tree}
use delta_protocol.EvidenceSet.Package.{profile}

-- The strings that `verify_public` appends to `errors`.
pub data PublicError : Type 0 where
  type_invalid : PublicError
  profile_invalid : PublicError
  entries_missing_or_empty : PublicError
  entry_not_object : ℕ → PublicError
  hash_invalid : ℕ → SetError → PublicError
  entry_leaf_hash_mismatch : ℕ → PublicError
  merkle_root_mismatch : PublicError
  self_check_mismatch : PublicError

abbrev pub unless {ℓ} : {A : Type ℓ} → Bool → A → List A
unless b e = if b then [] else e ∷ []

-- The `try` around the two calls of `validate_sha256`.
unfoldable pub hash_errors : ℕ → Fields → List PublicError
hash_errors idx entry =
    elim (do
      validate_sha256 (get (lit "commitment") entry) (lit "commitment")
      validate_sha256 (get (lit "leaf_hash") entry) (lit "leaf_hash")) [
        | ok _ ↦ []
        | err e ↦ hash_invalid idx e ∷ []
      ]

-- The leaf hash that an entry must have, where its label, commitment and index have their types.
unfoldable pub expected_leaf : Crypto → Fields → Outcome (Option Text)
expected_leaf c entry = elim (as_text (get (lit "label") entry)) [
  | none ↦ ok none
  | some label ↦ elim (as_text (get (lit "commitment") entry)) [
    | none ↦ ok none
    | some commitment ↦ elim (as_int (get (lit "index") entry)) [
      | none ↦ ok none
      | some i ↦ leaf_hash_for c (get (lit "index") entry) label commitment >>= λ h. ok (some h)
    ]
  ]
]

unfoldable pub leaf_errors : ℕ → Fields → Option Text → List PublicError
leaf_errors idx entry none = []
leaf_errors idx entry (some h) =
    unless (is_text (get (lit "leaf_hash") entry) h) (entry_leaf_hash_mismatch idx)

unfoldable pub entry_errors : Crypto → ℕ → Value → Outcome (List PublicError)
entry_errors c idx (obj entry) = do
  expected ← expected_leaf c entry
  ok (hash_errors idx entry ++ leaf_errors idx entry expected)
entry_errors c idx _ = ok (entry_not_object idx ∷ [])

unfoldable pub all_entry_errors : Crypto → ℕ → List Value → Outcome (List PublicError)
all_entry_errors c idx [] = ok []
all_entry_errors c idx (v ∷ vs) = do
  here ← entry_errors c idx v
  rest ← all_entry_errors c (suc idx) vs
  ok (here ++ rest)

-- `leaves`: the leaf hashes of the entries that have one.
abbrev pub leaf_of : Value → Option Text
leaf_of (obj entry) = as_text (get (lit "leaf_hash") entry)
leaf_of _ = none

unfoldable pub leaves_of : List Value → List Text
leaves_of [] = []
leaves_of (v ∷ vs) = elim (leaf_of v) [ none ↦ leaves_of vs | some h ↦ h ∷ leaves_of vs ]

unfoldable pub computed_root : Crypto → List Text → Outcome (Option Text)
computed_root c [] = ok none
computed_root c (x ∷ leaves) = build_merkle_tree c (x ∷ leaves) >>= λ (root, levels). ok (some root)

-- `entries`, where they are a list that is not empty.
abbrev pub entries_of : Value → List Value
entries_of (arr xs) = elements xs
entries_of _ = []

abbrev some_entries : List Value → Bool
some_entries [] = false
some_entries (v ∷ vs) = true

-- `verify_public`
unfoldable pub verify_public : Crypto → Fields → Outcome (List PublicError)
verify_public c p = do
  let entries = entries_of (get (lit "entries") p)
  per_entry ← all_entry_errors c 0 entries
  root ← computed_root c (leaves_of entries)
  body_hash ← package_body_hash c p
  let declared_root = get (lit "root") (dict_or_empty (get (lit "merkle") p))
  let declared_hash = get (lit "package_body_hash") (dict_or_empty (get (lit "self_check") p))
  ok (
      unless (is_text (get (lit "type") p) (lit "delta_private_evidence_merkle_set")) type_invalid
      ++ (unless (is_text (get (lit "profile") p) profile) profile_invalid
          ++ (unless (some_entries entries) entries_missing_or_empty
              ++ (per_entry
                  ++ (unless (is_optional declared_root root) merkle_root_mismatch
                      ++ unless (is_text declared_hash body_hash) self_check_mismatch)))))
