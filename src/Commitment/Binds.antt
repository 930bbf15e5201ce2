-- ===== src/Commitment/Binds.antt =====
-- A commitment binds the evidence, its salt and its label.
use mathlib.Core.Option.{some-injective}
use delta_protocol.Prelude.{ℕ, ◌≡◌, refl, sym, ap, ◌∙◌, true, ◌⊎◌, inl, inr, some, [], ◌∷◌}
use delta_protocol.Text.{Text, Bytes, lit, text_eq}
use delta_protocol.Json.{Fields, str, get, distinct_keys, has_key}
use delta_protocol.Json.Sort.{sort_keys, insert_sorted, text_leb}
use delta_protocol.Result.{ok}
use delta_protocol.Crypto.{Crypto, Collision, sha256_prefixed, sha256_prefixed-binds}
use delta_protocol.Canonical.Plain.{is_plain}
use delta_protocol.EvidenceSet.Disclose.{content}
use delta_protocol.EvidenceSet.Merkle.Binding.{hash_json-binds}
use delta_protocol.Commitment.Package.{salted_method, commitment_object, commitment_for}
use delta_protocol.Commitment.Disclose.{disclose_commitment}
use delta_protocol.Commitment.Disclosed.{disclose_commitment-Disclosed}

commitment_object-plain : (h s l m : Text) → is_plain (commitment_object h s l m) ≡ true
unfolding is_plain distinct_keys has_key lit text_eq
commitment_object-plain h s l m = refl

commitment_object-sorted :
    (h s l m : Text) → sort_keys (commitment_object h s l m) ≡ commitment_object h s l m
unfolding sort_keys insert_sorted text_leb lit
commitment_object-sorted h s l m = refl

commitment_object-injective :
    (h s l h' s' l' m : Text)
    → commitment_object h s l m ≡ commitment_object h' s' l' m
    → (h ≡ h') × (s ≡ s') × (l ≡ l')
commitment_object-injective h s l h' s' l' m e = (cc, cc, cc)

str-injective : (s t : Text) → str s ≡ str t → s ≡ t
str-injective s t h = cc

content-injective : (a b : Bytes) → content a ≡ content b → a ≡ b
content-injective a b h = cc

module _ (c : Crypto) where
  -- One commitment has one evidence hash, salt and label.
  pub commitment_for-binds :
      (h s l h' s' l' x : Text)
      → commitment_for c h s l salted_method ≡ ok x
      → commitment_for c h' s' l' salted_method ≡ ok x
      → ((h ≡ h') × (s ≡ s') × (l ≡ l')) ⊎ Collision c
  unfolding commitment_for
  commitment_for-binds h s l h' s' l' x e e' =
      elim (hash_json-binds c (commitment_object h s l salted_method)
        (commitment_object h' s' l' salted_method) x (commitment_object-plain h s l salted_method)
        (commitment_object-plain h' s' l' salted_method) e e') [
          | inl same ↦ inl (
              commitment_object-injective h s l h' s' l' salted_method (
                sym (commitment_object-sorted h s l salted_method)
                ∙ (same ∙ commitment_object-sorted h' s' l' salted_method)))
          | inr collision ↦ inr collision
        ]

  -- Two disclosures of one entry of a package, each without errors, show the same evidence, or two
  -- inputs of SHA-256 collide. The entry is named by a label on the command line.
  pub disclose_commitment-binds :
      (package_ opening opening' : Fields) (b b' : Bytes) (x : ℕ) (label : Text)
      → disclose_commitment c package_ opening (content b) (some (x ∷ label)) ≡ ok []
      → disclose_commitment c package_ opening' (content b') (some (x ∷ label)) ≡ ok []
      → (b ≡ b') ⊎ Collision c
  disclose_commitment-binds package_ opening opening' b b' x label run run' =
      let d = disclose_commitment-Disclosed c package_ opening (content b) (some (x ∷ label)) run in
      let d' =
        disclose_commitment-Disclosed c package_ opening' (content b') (some (x ∷ label)) run' in
      let same_entry : d.entry ≡ d'.entry = some-injective _ _ (sym d.found ∙ d'.found) in
      let same_commitment : d'.commitment ≡ d.commitment =
        str-injective _ _ (
          sym d'.entry_commits
          ∙ (ap (get (lit "commitment")) (sym same_entry) ∙ d.entry_commits)) in
      elim (commitment_for-binds (sha256_prefixed c d.bytes) d.salt d.label
        (sha256_prefixed c d'.bytes) d'.salt d'.label d.commitment d.commits
        (rw same_commitment at d'.commits)) [
          | inr collision ↦ inr collision
          | inl (hashes, salts, labels) ↦
              rw
                (
                  content-injective b d.bytes d.is_content,
                  content-injective b' d'.bytes d'.is_content,
                )
                (sha256_prefixed-binds c d.bytes d'.bytes hashes)
        ]
