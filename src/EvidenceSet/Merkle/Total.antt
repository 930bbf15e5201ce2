-- ===== src/EvidenceSet/Merkle/Total.antt =====
-- `build_merkle_tree` comes to an end: a level is shorter than the one below it.
use delta_protocol.Prelude.{
  ℕ, zero, suc, ◌+◌, ◌*◌, ◌≤◌, ◌<◌, ◌≡◌, refl, Bool, true, false, Option, none, some, List, [], ◌∷◌,
  length, arith,
}
use delta_protocol.Text.{Text}
use delta_protocol.Json.Bytes.{json_bytes}
use delta_protocol.Result.{
  ok, err, ◌>>=◌, or_raise, Ensures, holds, Ensures-ok, Ensures-bind, Ensures-bind_any,
}
use delta_protocol.Crypto.{Crypto}
use delta_protocol.EvidenceSet.Hashes.{
  Outcome, encode_error, out_of_fuel, hash_json, canonical_json, node_hash, node_object,
}
use delta_protocol.EvidenceSet.Merkle.{next_level, build_from, build_merkle_tree}

-- The run ended for want of fuel.
unfoldable pub exhausted : {A : Type 0} → Outcome A → Bool
exhausted (ok a) = false
exhausted (err out_of_fuel) = true
exhausted (err _) = false

exhausted-bind :
    {A B : Type 0} (r : Outcome A) (next : A → Outcome B)
    → exhausted r ≡ false
    → ((x : A) → r ≡ ok x → exhausted (next x) ≡ false)
    → exhausted (r >>= next) ≡ false
unfolding exhausted
exhausted-bind (ok x) next h k = k x refl
exhausted-bind (err out_of_fuel) next h k = cc
exhausted-bind (err _) next h k = h

exhausted-or_raise : {A : Type 0} (o : Option A) → exhausted (or_raise o encode_error) ≡ false
unfolding exhausted
exhausted-or_raise none = refl
exhausted-or_raise (some x) = refl

module _ (c : Crypto) where
  exhausted-node_hash : (l r : Text) → exhausted (node_hash c l r) ≡ false
  unfolding node_hash hash_json canonical_json exhausted
  exhausted-node_hash l r =
      exhausted-bind (or_raise (json_bytes true (node_object l r)) encode_error) _
        (exhausted-or_raise (json_bytes true (node_object l r))) λ b e. refl

  exhausted-next_level : (xs : List Text) → exhausted (next_level c xs) ≡ false
  unfolding next_level exhausted
  exhausted-next_level [] = refl
  exhausted-next_level (x ∷ []) = refl
  exhausted-next_level (x ∷ y ∷ rest) =
      exhausted-bind (node_hash c x y) _ (exhausted-node_hash x y)
        λ h e1. exhausted-bind (next_level c rest) _ (exhausted-next_level rest) λ t e2. refl

  -- A pass halves the level, rounding up.
  next_level-length :
      (xs : List Text) → Ensures (λ ys. 2 * length ys ≤ length xs + 1) (next_level c xs)
  unfolding next_level
  next_level-length [] = holds (omega arith)
  next_level-length (x ∷ []) = holds (omega arith)
  next_level-length (x ∷ y ∷ rest) =
      Ensures-bind_any (node_hash c x y)
        λ h e. Ensures-bind (next_level-length rest) λ t shorter. holds (omega arith)

  exhausted-build_from :
      (fuel : ℕ) (xs : List Text) → length xs < fuel → exhausted (build_from c fuel xs) ≡ false
  unfolding build_from exhausted
  exhausted-build_from zero xs h = absurd (omega arith)
  exhausted-build_from (suc f) [] h = refl
  exhausted-build_from (suc f) (x ∷ []) h = refl
  exhausted-build_from (suc f) (x ∷ y ∷ rest) h =
      exhausted-bind (next_level c (x ∷ y ∷ rest)) _ (exhausted-next_level (x ∷ y ∷ rest)) λ nxt e.
        let shorter = Ensures-ok (next_level-length (x ∷ y ∷ rest)) e in
        exhausted-bind (build_from c f nxt) _ (exhausted-build_from f nxt (omega arith))
          λ (root, levels) e2. refl

  -- The tree is built, or an error of the source is raised: the fuel is always enough.
  pub exhausted-build_merkle_tree :
      (leaves : List Text) → exhausted (build_merkle_tree c leaves) ≡ false
  unfolding build_merkle_tree
  exhausted-build_merkle_tree leaves =
      exhausted-build_from (suc (length leaves)) leaves (omega arith)
