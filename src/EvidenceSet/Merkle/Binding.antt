-- ===== src/EvidenceSet/Merkle/Binding.antt =====
-- What the root binds: two proofs of one shape cannot lead two leaves to one root, unless SHA-256
-- has a collision.
use mathlib.Core.Option.{some-injective}
use delta_protocol.Prelude.{
  ◌≡◌, refl, sym, ap, ◌∙◌, Bool, true, false, ◌⊎◌, inl, inr, Bool-cases, Option-cases, ◌&&◌,
  &&-split, Option, none, some, List, [], ◌∷◌,
}
use delta_protocol.Text.{Text, Bytes, lit, text_eq, text_eq→≡}
use delta_protocol.Utf8.{encode}
use delta_protocol.Json.{
  Value, null, bool, int, float, str, arr, obj, other, get, distinct_keys, has_key,
}
use delta_protocol.Json.Bytes.{json_bytes, serializable}
use delta_protocol.Json.Dump.{dump}
use delta_protocol.Json.Sort.{sort_keys, insert_sorted, text_leb}
use delta_protocol.Result.{
  ok, >>=-eq-ok, ok-injective, or_raise-eq-ok, Ensures, holds, raised, Ensures-ok, Ensures-if,
}
use delta_protocol.Crypto.{Crypto, Collision, sha256_prefixed, sha256_prefixed-binds}
use delta_protocol.Canonical.Plain.{is_plain}
use delta_protocol.Canonical.Laws.{encode-dump-injective}
use delta_protocol.EvidenceSet.Hashes.{
  encode_error, canonical_json, hash_json, node_object, node_hash,
}
use delta_protocol.EvidenceSet.Merkle.{
  Step, left, right, read_step, unhashable, refused_step, combine, climb, verify_proof,
}

json_bytes-encode :
    (v : Value) (b : Bytes) → json_bytes true v ≡ some b → encode (dump (sort_keys v)) ≡ some b
unfolding json_bytes
json_bytes-encode v b h = elim (Bool-cases (serializable true v)) [
  | inl good ↦ rw good at h
  | inr bad ↦ cc (rw bad at h)
]

module _ (c : Crypto) where
  hash_json-bytes :
      (v : Value) (h : Text)
      → hash_json c v ≡ ok h
      → (b : Bytes) × (encode (dump (sort_keys v)) ≡ some b) × (sha256_prefixed c b ≡ h)
  unfolding hash_json canonical_json
  hash_json-bytes v h e =
      let (b, made, hashed) = >>=-eq-ok (canonical_json v) _ e in
      (
        b,
        json_bytes-encode v b (or_raise-eq-ok (json_bytes true v) encode_error b made),
        ok-injective _ _ hashed,
      )

  -- Objects with one hash are equal up to the order of keys, or show a collision.
  pub hash_json-binds :
      (v w : Value) (h : Text)
      → is_plain v ≡ true
      → is_plain w ≡ true
      → hash_json c v ≡ ok h
      → hash_json c w ≡ ok h
      → (sort_keys v ≡ sort_keys w) ⊎ Collision c
  hash_json-binds v w h p q hv hw =
      let (a, ea, sa) = hash_json-bytes v h hv in
      let (b, eb, sb) = hash_json-bytes w h hw in
      elim (sha256_prefixed-binds c a b (sa ∙ sym sb)) [
        | inl same ↦ inl (encode-dump-injective v w b p q (rw (← same) ea) eb)
        | inr collision ↦ inr collision
      ]

  node_object-plain : (l r : Text) → is_plain (node_object l r) ≡ true
  unfolding is_plain distinct_keys has_key lit text_eq
  node_object-plain l r = refl

  -- The keys of the literal stand in order.
  node_object-sorted : (l r : Text) → sort_keys (node_object l r) ≡ node_object l r
  unfolding sort_keys insert_sorted text_leb lit
  node_object-sorted l r = refl

  node_object-injective :
      (l r l' r' : Text) → node_object l r ≡ node_object l' r' → (l ≡ l') × (r ≡ r')
  node_object-injective l r l' r' h = (cc, cc)

  pub node_hash-binds :
      (l r l' r' h : Text)
      → node_hash c l r ≡ ok h
      → node_hash c l' r' ≡ ok h
      → ((l ≡ l') × (r ≡ r')) ⊎ Collision c
  unfolding node_hash
  node_hash-binds l r l' r' h e e' =
      elim (hash_json-binds (node_object l r) (node_object l' r') h (node_object-plain l r)
        (node_object-plain l' r') e e') [
          | inl same ↦ inl (
              node_object-injective l r l' r'
                (sym (node_object-sorted l r) ∙ (same ∙ node_object-sorted l' r')))
          | inr collision ↦ inr collision
        ]

-- Two proofs name the same side at every step.
abbrev pub same_side : Option Step → Option Step → Bool
same_side (some (left s)) (some (left t)) = true
same_side (some (right s)) (some (right t)) = true
same_side _ _ = false

unfoldable pub same_shape : List Value → List Value → Bool
same_shape [] [] = true
same_shape [] (w ∷ q) = false
same_shape (v ∷ p) [] = false
same_shape (v ∷ p) (w ∷ q) = same_side (read_step v) (read_step w) && same_shape p q

module _ (c : Crypto) where
  combine-binds :
      (h h' : Text) (s s' : Step) (x : Text)
      → same_side (some s) (some s') ≡ true
      → combine c h s ≡ ok x
      → combine c h' s' ≡ ok x
      → (h ≡ h') ⊎ Collision c
  unfolding combine
  combine-binds h h' (left s) (left s') x k e e' = elim (node_hash-binds c s h s' h' x e e') [
    | inl (a, b) ↦ inl b
    | inr collision ↦ inr collision
  ]
  combine-binds h h' (right s) (right s') x k e e' = elim (node_hash-binds c h s h' s' x e e') [
    | inl (a, b) ↦ inl a
    | inr collision ↦ inr collision
  ]
  combine-binds h h' (left s) (right s') x k e e' = absurd (cc)
  combine-binds h h' (right s) (left s') x k e e' = absurd (cc)

  refused_step-none : (v : Value) → Ensures (λ o. o ≡ none) (refused_step v)
  refused_step-none (obj step) =
      Ensures-if (unhashable (get (lit "position") step)) (λ bad. raised) (λ hashed. holds refl)
  refused_step-none null = holds refl
  refused_step-none (bool b) = holds refl
  refused_step-none (int i) = holds refl
  refused_step-none (float r i) = holds refl
  refused_step-none (str t) = holds refl
  refused_step-none (arr xs) = holds refl
  refused_step-none (other n) = holds refl

  climb-cons :
      (h root : Text) (v : Value) (p : List Value)
      → climb c h (v ∷ p) ≡ ok (some root)
      → (s : Step) × (n : Text) × (read_step v ≡ some s)
        × (combine c h s ≡ ok n)
        × (climb c n p ≡ ok (some root))
  unfolding climb
  climb-cons h root v p e = elim (Option-cases (read_step v)) [
    | inl lost ↦
        let refused = Ensures-ok (refused_step-none v) (rw (lost, climb) at e) in absurd (cc)
    | inr (s, found) ↦
        let (n, made, rest) = >>=-eq-ok (combine c h s) _ (rw (found, climb) at e) in
        (s, n, found, made, rest)
  ]

  climb-nil : (h root : Text) → climb c h [] ≡ ok (some root) → h ≡ root
  unfolding climb
  climb-nil h root e = some-injective _ _ (ok-injective _ _ e)

  climb-binds :
      (h h' root : Text) (p q : List Value)
      → same_shape p q ≡ true
      → climb c h p ≡ ok (some root)
      → climb c h' q ≡ ok (some root)
      → (h ≡ h') ⊎ Collision c
  unfolding same_shape
  climb-binds h h' root [] [] k e e' = inl (climb-nil h root e ∙ sym (climb-nil h' root e'))
  climb-binds h h' root [] (w ∷ q) k e e' = absurd (cc)
  climb-binds h h' root (v ∷ p) [] k e e' = absurd (cc)
  climb-binds h h' root (v ∷ p) (w ∷ q) k e e' =
      let (s, n, fs, ms, up) = climb-cons h root v p e in
      let (s', n', fs', ms', up') = climb-cons h' root w q e' in
      let (side, shape) = &&-split (same_side (read_step v) (read_step w)) (same_shape p q) k in
      elim (climb-binds n n' root p q shape up up') [
        | inl same ↦ combine-binds h h' s s' n (rw (fs, fs') at side) ms (rw (← same) at ms')
        | inr collision ↦ inr collision
      ]

  verify_proof-reaches :
      (leaf root : Text) (p : List Value)
      → verify_proof c leaf p root ≡ ok true
      → climb c leaf p ≡ ok (some root)
  unfolding verify_proof
  verify_proof-reaches leaf root p e =
      let (reached, climbed, end) = >>=-eq-ok (climb c leaf p) _ e in
      climbed ∙ ap ok (at_root reached (ok-injective _ _ end))
    where
      at_root :
          (o : Option Text)
          → elim o [ none ↦ false | some r ↦ text_eq r root ] ≡ true
          → o ≡ some root
      at_root none h = cc
      at_root (some r) h = ap some (text_eq→≡ r root h)

  -- Binding: two accepted proofs of one shape against one root are of one leaf hash, or SHA-256
  -- has a collision.
  pub verify_proof-binds :
      (leaf leaf' root : Text) (p q : List Value)
      → same_shape p q ≡ true
      → verify_proof c leaf p root ≡ ok true
      → verify_proof c leaf' q root ≡ ok true
      → (leaf ≡ leaf') ⊎ Collision c
  verify_proof-binds leaf leaf' root p q k e e' =
      climb-binds leaf leaf' root p q k (verify_proof-reaches leaf root p e)
        (verify_proof-reaches leaf' root q e')
