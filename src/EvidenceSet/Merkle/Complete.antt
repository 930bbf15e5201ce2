-- ===== src/EvidenceSet/Merkle/Complete.antt =====
-- Every leaf of a tree has a proof that leads to the root.
use mathlib.Core.Option.{some-injective}
use delta_protocol.Prelude.{
  ℕ, zero, suc, ◌+◌, ◌-◌, ◌/◌, ◌%◌, ◌≡◌, refl, sym, ◌∙◌, some, List, [], ◌∷◌, ◌++◌, get_elem?,
  arith,
}
use delta_protocol.Text.{Text, lit, text_eq}
use delta_protocol.Json.{Value, get, lookup}
use delta_protocol.Result.{ok, ◌>>=◌, >>=-eq-ok, ok-injective}
use delta_protocol.Crypto.{Crypto}
use delta_protocol.EvidenceSet.Hashes.{node_hash}
use delta_protocol.EvidenceSet.Merkle.{
  left, right, next_level, proof_step, level_steps, read_step, combine, climb,
}

-- The fields of a step, read back.
read-left : (sibling : Text) → read_step (proof_step (lit "left") sibling) ≡ some (left sibling)
unfolding read_step get lookup lit text_eq
read-left sibling = refl

read-right : (sibling : Text) → read_step (proof_step (lit "right") sibling) ≡ some (right sibling)
unfolding read_step get lookup lit text_eq
read-right sibling = refl

module _ (c : Crypto) where
  climb-left :
      (h s : Text) (rest : List Value)
      → climb c h (proof_step (lit "left") s ∷ rest)
        ≡ (node_hash c s h >>= λ next. climb c next rest)
  unfolding climb combine
  climb-left h s rest = rw (read-left s, climb) refl

  climb-right :
      (h s : Text) (rest : List Value)
      → climb c h (proof_step (lit "right") s ∷ rest)
        ≡ (node_hash c h s >>= λ next. climb c next rest)
  unfolding climb combine
  climb-right h s rest = rw (read-right s, climb) refl

  -- What one level does: the steps that it adds lead from the hash at `idx` to that at `idx / 2`
  -- one level up.
  abbrev pub Lifts : List Text → List Text → ℕ → Text → Type 0
  Lifts level above idx h =
      (steps : List Value) × (h' : Text) × (level_steps idx level ≡ ok steps)
      × (get_elem? above (idx / 2) ≡ some h')
      × ((rest : List Value) → climb c h (steps ++ rest) ≡ climb c h' rest)

  -- Two places further on, the steps are those of the list behind the first pair.
  level_steps-shift :
      (x y : Text) (rest : List Text) (i : ℕ)
      → level_steps (suc (suc i)) (x ∷ y ∷ rest) ≡ level_steps i rest
  unfolding level_steps
  level_steps-shift x y rest zero = refl
  level_steps-shift x y rest (suc i) =
      let parity : suc (suc (suc i)) % 2 ≡ suc i % 2 = omega arith in
      let up : suc (suc (suc i)) + 1 ≡ suc (suc (suc i + 1)) = omega arith in
      let down : suc (suc (suc i)) - 1 ≡ suc (suc (suc i - 1)) = omega arith in
      rw (parity, up, down) refl

  next_level-pair :
      (x y : Text) (rest above : List Text)
      → next_level c (x ∷ y ∷ rest) ≡ ok above
      → (n : Text) × (t : List Text) × (node_hash c x y ≡ ok n)
        × (next_level c rest ≡ ok t)
        × (above ≡ n ∷ t)
  unfolding next_level
  next_level-pair x y rest above e =
      let (n, hashed, e1) = >>=-eq-ok (node_hash c x y) _ e in
      let (t, lifted, e2) = >>=-eq-ok (next_level c rest) _ e1 in
      (n, t, hashed, lifted, sym (ok-injective _ _ e2))

  Lifts-single :
      (x h : Text) (above : List Text) → above ≡ x ∷ [] → x ≡ h → Lifts (x ∷ []) above 0 h
  unfolding level_steps
  Lifts-single x h above e g = ([], h, refl, rw (e, g) refl, λ rest. refl)

  Lifts-even :
      (x y h n : Text) (rest t above : List Text)
      → node_hash c x y ≡ ok n
      → above ≡ n ∷ t
      → x ≡ h
      → Lifts (x ∷ y ∷ rest) above 0 h
  unfolding level_steps
  Lifts-even x y h n rest t above hashed e g = (
    proof_step (lit "right") y ∷ [],
    n,
    refl,
    rw e refl,
    λ more. climb-right h y more ∙ rw (← g) (rw hashed refl),
  )

  Lifts-odd :
      (x y h n : Text) (rest t above : List Text)
      → node_hash c x y ≡ ok n
      → above ≡ n ∷ t
      → y ≡ h
      → Lifts (x ∷ y ∷ rest) above 1 h
  unfolding level_steps
  Lifts-odd x y h n rest t above hashed e g = (
    proof_step (lit "left") x ∷ [],
    n,
    refl,
    rw e refl,
    λ more. climb-left h x more ∙ rw (← g) (rw hashed refl),
  )

  half : (i : ℕ) → suc (suc i) / 2 ≡ suc (i / 2)
  half i = omega arith

  pub level-Lifts :
      (level above : List Text) (idx : ℕ) (h : Text)
      → next_level c level ≡ ok above
      → get_elem? level idx ≡ some h
      → Lifts level above idx h
  unfolding next_level
  level-Lifts [] above idx h e g = absurd (cc)
  level-Lifts (x ∷ []) above zero h e g =
      Lifts-single x h above (sym (ok-injective _ _ e)) (some-injective _ _ g)
  level-Lifts (x ∷ []) above (suc i) h e g = absurd (cc)
  level-Lifts (x ∷ y ∷ rest) above zero h e g =
      let (n, t, hashed, lifted, split) = next_level-pair x y rest above e in
      Lifts-even x y h n rest t above hashed split (some-injective _ _ g)
  level-Lifts (x ∷ y ∷ rest) above (suc zero) h e g =
      let (n, t, hashed, lifted, split) = next_level-pair x y rest above e in
      Lifts-odd x y h n rest t above hashed split (some-injective _ _ g)
  level-Lifts (x ∷ y ∷ rest) above (suc (suc i)) h e g =
      let (n, t, hashed, lifted, split) = next_level-pair x y rest above e in
      let (steps, h', added, there, climbs) = level-Lifts rest t i h lifted g in
      (steps, h', level_steps-shift x y rest i ∙ added, rw (half i, split) there, climbs)
