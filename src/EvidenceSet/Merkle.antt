-- ===== src/EvidenceSet/Merkle.antt =====
-- `build_merkle_tree`, `merkle_proof_for` and `verify_proof`.
pub mod Complete
pub mod Proofs
pub mod Binding
pub mod Total
use delta_protocol.Prelude.{
  ℕ, zero, suc, ◌+◌, ◌-◌, ◌/◌, ◌%◌, Bool, true, false, ◌||◌, not, Option, none, some, List, [], ◌∷◌,
  ◌++◌, get_elem?, length, ◌==◌, if◌then◌else◌,
}
use delta_protocol.Text.{Text, lit, text_eq}
use delta_protocol.Json.{
  Value, Fields, str, arr, obj, no_fields, field, get, as_text, as_dict, is_text,
}
use delta_protocol.Result.{Result, ok, err, ◌>>=◌, ◌>>◌, or_raise}
use delta_protocol.Crypto.{Crypto}
use delta_protocol.EvidenceSet.Hashes.{
  Outcome, zero_leaves, index_error, out_of_fuel, type_error, node_hash,
}

module _ (c : Crypto) where
  -- One pass of the `while` loop: neighbours are hashed, an odd one out is promoted.
  unfoldable pub next_level : List Text → Outcome (List Text)
  next_level [] = ok []
  next_level (x ∷ []) = ok (x ∷ [])
  next_level (x ∷ y ∷ rest) = do h ← node_hash c x y; t ← next_level rest; ok (h ∷ t)

  -- The root over `current`, and the levels from `current` up.
  unfoldable pub build_from : ℕ → List Text → Outcome (Text × List (List Text))
  build_from zero current = err out_of_fuel
  build_from (suc f) [] = err zero_leaves
  build_from (suc f) (x ∷ []) = ok (x, (x ∷ []) ∷ [])
  build_from (suc f) (x ∷ y ∷ rest) = do
    nxt ← next_level (x ∷ y ∷ rest)
    (root, levels) ← build_from f nxt
    ok (root, (x ∷ y ∷ rest) ∷ levels)

  -- `build_merkle_tree`. A level is shorter than the one below, so the leaves are fuel enough.
  unfoldable pub build_merkle_tree : List Text → Outcome (Text × List (List Text))
  build_merkle_tree leaves = build_from (suc (length leaves)) leaves

-- `{"position": ..., "sibling_hash": ...}`
abbrev pub proof_step : Text → Text → Value
proof_step position sibling =
    obj (field (lit "position") (str position) (field (lit "sibling_hash") (str sibling) no_fields))

-- What a level adds to the proof of the leaf at `idx`.
unfoldable pub level_steps : ℕ → List Text → Outcome (List Value)
level_steps idx level =
    if idx % 2 == 0
    then elim (get_elem? level (idx + 1)) [
      | none ↦ ok []
      | some sibling ↦ ok (proof_step (lit "right") sibling ∷ [])
    ]
    else elim (get_elem? level (idx - 1)) [
      | none ↦ err index_error
      | some sibling ↦ ok (proof_step (lit "left") sibling ∷ [])
    ]

-- `merkle_proof_for`, over `levels[:-1]`.
unfoldable pub merkle_proof_for : ℕ → List (List Text) → Outcome (List Value)
merkle_proof_for idx [] = ok []
merkle_proof_for idx (level ∷ []) = ok []
merkle_proof_for idx (level ∷ above ∷ levels) = do
  steps ← level_steps idx level
  rest ← merkle_proof_for (idx / 2) (above ∷ levels)
  ok (steps ++ rest)

-- A step of a proof as `verify_proof` reads it: `none` where it returns `False`.
pub data Step : Type 0 where
  left : Text → Step
  right : Text → Step

unfoldable pub read_step : Value → Option Step
read_step (obj step) = elim (as_text (get (lit "sibling_hash") step)) [
  | none ↦ none
  | some sibling ↦
      if is_text (get (lit "position") step) (lit "left")
      then some (left sibling)
      else if is_text (get (lit "position") step) (lit "right")
      then some (right sibling)
      else none
]
read_step _ = none

-- `position not in {"left", "right"}` raises where the position is a list or a dict.
abbrev pub unhashable : Value → Bool
unhashable (arr xs) = true
unhashable (obj fs) = true
unhashable _ = false

abbrev pub refused_step : Value → Outcome (Option Text)
refused_step (obj step) = if unhashable (get (lit "position") step) then err type_error else ok none
refused_step _ = ok none

module _ (c : Crypto) where
  unfoldable pub combine : Text → Step → Outcome Text
  combine current (left sibling) = node_hash c sibling current
  combine current (right sibling) = node_hash c current sibling

  -- The loop of `verify_proof`.
  unfoldable pub climb : Text → List Value → Outcome (Option Text)
  climb current [] = ok (some current)
  climb current (v ∷ proof) = elim (read_step v) [
    | none ↦ refused_step v
    | some step ↦ combine current step >>= λ next. climb next proof
  ]

  -- `verify_proof`
  unfoldable pub verify_proof : Text → List Value → Text → Outcome Bool
  verify_proof leaf_hash proof expected_root = do
    reached ← climb leaf_hash proof
    ok (elim reached [ none ↦ false | some root ↦ text_eq root expected_root ])
