-- ===== src/Trust/Linked.antt =====
-- `linked_proof_from_args`: the linked proofs of the command line.
use delta_protocol.Prelude.{
  ◌≡◌, refl, Bool, true, false, Option, none, some, List, [], ◌∷◌, if◌then◌else◌, Bool-cases, inl,
  inr,
}
use delta_protocol.Text.{Text, Bytes, lit, text_eq, starts_with, strip, non_empty}
use delta_protocol.Json.{Value, Fields, bool, str, obj, no_fields, field, get, get_or, lookup}
use delta_protocol.Crypto.{Crypto, sha256_prefixed}
use delta_protocol.Trust.Verify.{linked_proof_ok, all_linked_proofs_ok, is_prefixed}

-- What stands at a path.
pub data Node : Type 0 where
  missing directory : Node
  file : Bytes → Node

-- The paths of the computer: `Path(text).resolve()`, and what is there.
pub record Paths : Type 0 where
  pub resolve : Text → Text
  pub at : Text → Node

-- `raw.split("=", 1)`, where there is a `=`.
unfoldable pub split_at_equals : Text → Option (Text × Text)
split_at_equals [] = none
split_at_equals (c ∷ cs) =
    let rest = split_at_equals cs in
    if text_eq (c ∷ []) (lit "=")
    then some ([], cs)
    else elim rest [ none ↦ none | some (before, after) ↦ some (c ∷ before, after) ]

unfoldable pub type_and_path : Text → Text × Text
type_and_path raw = elim (split_at_equals raw) [
  | none ↦ (lit "generic_proof", raw)
  | some (proof_type, path) ↦ (
    (let stripped = strip proof_type in
        if non_empty stripped then stripped else lit "generic_proof"),
    path,
  )
]

unfoldable pub node_exists : Node → Bool
node_exists missing = false
node_exists _ = true

-- The hash stands last, where the path is a file.
unfoldable pub file_hash_fields : Crypto → Node → Fields
file_hash_fields c (file data_) = field (lit "file_hash") (str (sha256_prefixed c data_)) no_fields
file_hash_fields c _ = no_fields

unfoldable pub linked_proof : Crypto → Paths → Text → Value
linked_proof c paths raw =
    let (proof_type, text) = type_and_path raw in
    let path = paths.resolve text in
    let node = paths.at path in
    obj (
      field (lit "type") (str proof_type) (
        field (lit "path_hint") (str path)
          (field (lit "exists_at_creation") (bool (node_exists node)) (file_hash_fields c node))))

unfoldable pub linked_proof_from_args : Crypto → Paths → List Text → List Value
linked_proof_from_args c paths [] = []
linked_proof_from_args c paths (item ∷ items) =
    let rest = linked_proof_from_args c paths items in
    let raw = strip item in if non_empty raw then linked_proof c paths raw ∷ rest else rest

module _ (c : Crypto) (paths : Paths) where
  linked_proof_ok-fields :
      (proof_type path : Text) (n : Node)
      → linked_proof_ok (
          obj (
            field (lit "type") (str proof_type) (
              field
                (lit "path_hint")
                (str path)
                (field (lit "exists_at_creation") (bool (node_exists n)) (file_hash_fields c n)))))
        ≡ true
  unfolding linked_proof_ok file_hash_fields sha256_prefixed is_prefixed starts_with get get_or
      lookup lit text_eq node_exists
  linked_proof_ok-fields proof_type path missing = refl
  linked_proof_ok-fields proof_type path directory = refl
  linked_proof_ok-fields proof_type path (file data_) = refl

  -- The linked proofs of the command line have the form that the verifier asks for.
  pub all_linked_proofs_ok-linked_proof_from_args :
      (items : List Text) → all_linked_proofs_ok (linked_proof_from_args c paths items) ≡ true
  unfolding all_linked_proofs_ok linked_proof_from_args linked_proof
  all_linked_proofs_ok-linked_proof_from_args [] = refl
  all_linked_proofs_ok-linked_proof_from_args (item ∷ items) =
      let rest = all_linked_proofs_ok-linked_proof_from_args items in
      elim (Bool-cases (non_empty (strip item))) [
        | inl given ↦ rw given (rw (linked_proof_ok-fields _ _ _) rest)
        | inr empty ↦ rw empty rest
      ]
