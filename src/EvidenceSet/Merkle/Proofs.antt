-- ===== src/EvidenceSet/Merkle/Proofs.antt =====
-- The proof that `merkle_proof_for` gives leads from every leaf to the root.
use mathlib.Core.Option.{some-injective}
use delta_protocol.Prelude.{
  ℕ, zero, suc, ◌/◌, ◌≡◌, refl, sym, ap, ◌∙◌, true, some, List, [], ◌∷◌, ◌++◌, get_elem?, length,
}
use delta_protocol.Text.{Text, text_eq_refl}
use delta_protocol.Json.{Value}
use delta_protocol.Result.{ok, ◌>>=◌, >>=-eq-ok, ok-injective}
use delta_protocol.Crypto.{Crypto}
use delta_protocol.EvidenceSet.Merkle.{
  next_level, build_from, build_merkle_tree, merkle_proof_for, climb, verify_proof,
}
use delta_protocol.EvidenceSet.Merkle.Complete.{level-Lifts}

module _ (c : Crypto) where
  -- The lowest of the levels is the list that the tree stands on.
  pub build_from-head :
      (f : ℕ) (current : List Text) (root : Text) (levels : List (List Text))
      → build_from c f current ≡ ok (root, levels)
      → (above : List (List Text)) × (levels ≡ current ∷ above)
  unfolding build_from
  build_from-head zero current root levels e = absurd (cc)
  build_from-head (suc f) [] root levels e = absurd (cc)
  build_from-head (suc f) (x ∷ []) root levels e = ([], sym (ap (λ p. p.1) (ok-injective _ _ e)))
  build_from-head (suc f) (x ∷ y ∷ rest) root levels e =
      let (nxt, lifted, e1) = >>=-eq-ok (next_level c (x ∷ y ∷ rest)) _ e in
      let ((r, ls), built, e2) = >>=-eq-ok (build_from c f nxt) _ e1 in
      (ls, sym (ap (λ p. p.1) (ok-injective _ _ e2)))

  abbrev Proves : ℕ → List (List Text) → Text → Text → Type 0
  Proves idx levels h root =
      (proof : List Value) × (merkle_proof_for idx levels ≡ ok proof)
      × (climb c h proof ≡ ok (some root))

  proof-single :
      (x root h : Text) (idx : ℕ) (levels : List (List Text))
      → x ≡ root
      → levels ≡ (x ∷ []) ∷ []
      → get_elem? (x ∷ []) idx ≡ some h
      → Proves idx levels h root
  unfolding merkle_proof_for climb
  proof-single x root h zero levels r l g = ([], rw l refl, rw (← some-injective _ _ g, r) refl)
  proof-single x root h (suc i) levels r l g = absurd (cc)

  proof-step :
      (current nxt : List Text) (above : List (List Text)) (root h : Text) (idx : ℕ)
      → next_level c current ≡ ok nxt
      → get_elem? current idx ≡ some h
      → ((h' : Text) → get_elem? nxt (idx / 2) ≡ some h' → Proves (idx / 2) (nxt ∷ above) h' root)
      → Proves idx (current ∷ nxt ∷ above) h root
  unfolding merkle_proof_for
  proof-step current nxt above root h idx lifted g up =
      let (steps, h', added, there, climbs) = level-Lifts c current nxt idx h lifted g in
      let (proof, made, reaches) = up h' there in
      (steps ++ proof, rw (added, made) refl, climbs proof ∙ reaches)

  proof_of :
      (f : ℕ) (current : List Text) (root : Text) (levels : List (List Text))
      → build_from c f current ≡ ok (root, levels)
      → (idx : ℕ) (h : Text) → get_elem? current idx ≡ some h
      → Proves idx levels h root
  unfolding build_from
  proof_of zero current root levels e idx h g = absurd (cc)
  proof_of (suc f) [] root levels e idx h g = absurd (cc)
  proof_of (suc f) (x ∷ []) root levels e idx h g =
      let same = ok-injective _ _ e in
      proof-single x root h idx levels (ap (λ p. p.0) same) (sym (ap (λ p. p.1) same)) g
  proof_of (suc f) (x ∷ y ∷ rest) root levels e idx h g =
      let (nxt, lifted, e1) = >>=-eq-ok (next_level c (x ∷ y ∷ rest)) _ e in
      let ((r, ls), built, e2) = >>=-eq-ok (build_from c f nxt) _ e1 in
      let same = ok-injective _ _ e2 in
      let (above, split) = build_from-head f nxt r ls built in
      rw (sym (ap (λ p. p.1) same), split)
        (proof-step (x ∷ y ∷ rest) nxt above root h idx lifted g λ h' there.
          rw (← split, sym (ap (λ p. p.0) same)) (proof_of f nxt r ls built (idx / 2) h' there))

  -- Completeness: for each leaf of a tree the generated proof is accepted against the root.
  pub verify_proof-merkle_proof_for :
      (leaves : List Text) (root : Text) (levels : List (List Text)) (idx : ℕ) (leaf : Text)
      → build_merkle_tree c leaves ≡ ok (root, levels)
      → get_elem? leaves idx ≡ some leaf
      → (proof : List Value) × (merkle_proof_for idx levels ≡ ok proof)
        × (verify_proof c leaf proof root ≡ ok true)
  unfolding build_merkle_tree verify_proof
  verify_proof-merkle_proof_for leaves root levels idx leaf e g =
      let (proof, made, reaches) = proof_of (suc (length leaves)) leaves root levels e idx leaf g in
      (proof, made, rw (reaches, ◌>>=◌) (ap ok (text_eq_refl root)))
