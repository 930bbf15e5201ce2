-- ===== src/Genesis/Items.antt =====
-- The paths and hashes that the items of an evidence manifest list.
use mathlib.Core.Option.{some-injective}
use delta_protocol.Prelude.{
  ℕ, ◌≡◌, refl, ap, subst, sym, ◌∙◌, Bool, true, &&-split, Bool-cases, inl, inr, some, List, [],
  ◌∷◌,
}
use delta_protocol.Text.{Text, lit, text_eq, text_eq→≡, one_of}
use delta_protocol.Json.{
  Value, Fields, null, bool, int, float, str, arr, obj, other, lookup, is_text, is_text→≡,
}
use delta_protocol.Result.{
  or_raise, or_raise-eq-ok, Ensures, holds, raised, Ensures-bind, Ensures-bind_any, Ensures-require,
}
use delta_protocol.Genesis.Chain.{missing_field, mismatch, unexpected_path, require_field}
use delta_protocol.Genesis.Envelope.{assert_hash_format}
use delta_protocol.Genesis.Evidence.{
  Hashes, hash_at, expected_hash, check_item, check_items, all_seen,
}

-- A list of items has one with this path and hash.
pub data Listed (p h : Text) : List Value → Type 0 where
  listed_here :
      {item : Fields} {vs : List Value}
      → lookup (lit "path") item ≡ some (str p)
      → lookup (lit "hash") item ≡ some (str h)
      → Listed p h (obj item ∷ vs)
  listed_there : {v : Value} {vs : List Value} → Listed p h vs → Listed p h (v ∷ vs)

-- The path is listed with the hash that is expected.
pub record Correct (hs : Hashes) (vs : List Value) (p : Text) : Type 0 where
  pub hash : Text
  pub expected : hash_at p hs ≡ some hash
  pub listed : Listed p hash vs

expected_hash-text :
    (hs : Hashes) (v : Value)
    → Ensures (λ kv. (v ≡ str kv.0) × (hash_at kv.0 hs ≡ some kv.1)) (expected_hash hs v)
unfolding expected_hash
expected_hash-text hs (str p) =
    Ensures-bind_any (or_raise (hash_at p hs) unexpected_path)
      λ h e. holds (refl, or_raise-eq-ok (hash_at p hs) unexpected_path h e)
expected_hash-text hs null = raised
expected_hash-text hs (bool b) = raised
expected_hash-text hs (int i) = raised
expected_hash-text hs (float r i) = raised
expected_hash-text hs (arr xs) = raised
expected_hash-text hs (obj fs) = raised
expected_hash-text hs (other n) = raised

module _ (wide : ℕ → Bool) (hs : Hashes) where
  check_item-Correct :
      (v : Value) (vs : List Value) → Ensures (λ p. Correct hs (v ∷ vs) p) (check_item wide hs v)
  unfolding check_item require_field
  check_item-Correct (obj item) vs =
      Ensures-bind_any (or_raise (lookup (lit "path") item) (missing_field (lit "path"))) λ path ep.
        Ensures-bind_any (or_raise (lookup (lit "hash") item) (missing_field (lit "hash")))
          λ item_hash eh.
            Ensures-bind_any (assert_hash_format wide (lit "hash") item_hash) λ u formatted.
              Ensures-bind (expected_hash-text hs path) λ kv facts.
                Ensures-require (is_text item_hash kv.1) (mismatch (lit "hash")) λ same.
                  holds (record {
                    hash = kv.1;
                    expected = facts.1;
                    listed =
                        listed_here (or_raise-eq-ok _ _ _ ep ∙ ap some facts.0)
                          (or_raise-eq-ok _ _ _ eh ∙ ap some (is_text→≡ item_hash kv.1 same));
                  })
  check_item-Correct null vs = raised
  check_item-Correct (bool b) vs = raised
  check_item-Correct (int i) vs = raised
  check_item-Correct (float r i) vs = raised
  check_item-Correct (str t) vs = raised
  check_item-Correct (arr xs) vs = raised
  check_item-Correct (other n) vs = raised

  pub check_items-Correct :
      (vs : List Value)
      → Ensures
          (λ seen. (p : Text) → one_of p seen ≡ true → Correct hs vs p)
          (check_items wide hs vs)
  unfolding check_items one_of
  check_items-Correct [] = holds λ p k. cc
  check_items-Correct (v ∷ vs) = Ensures-bind (check_item-Correct v vs) λ q here.
      Ensures-bind (check_items-Correct vs) λ seen there. holds λ p k.
        elim (Bool-cases (text_eq p q)) [
          | inl same ↦ rw (text_eq→≡ p q same) here
          | inr differ ↦
              let r = there p (rw differ at k) in
              record { hash = r.hash; expected = r.expected; listed = listed_there r.listed }
        ]

pub all_seen-one_of :
    (paths seen : List Text) (p : Text)
    → all_seen paths seen ≡ true
    → one_of p paths ≡ true
    → one_of p seen ≡ true
unfolding one_of
all_seen-one_of [] seen p h k = cc
all_seen-one_of (q ∷ paths) seen p h k =
    let (here, there) = &&-split (one_of q seen) (all_seen paths seen) h in
    elim (Bool-cases (text_eq p q)) [
      | inl same ↦ rw (text_eq→≡ p q same) here
      | inr differ ↦ all_seen-one_of paths seen p there (rw differ at k)
    ]

pub Correct-Listed :
    {hs : Hashes} {vs : List Value} {p h : Text}
    → Correct hs vs p
    → hash_at p hs ≡ some h
    → Listed p h vs
Correct-Listed {hs} {vs} {p} {h} k e =
    subst (λ x. Listed p x vs) (some-injective _ _ (sym k.expected ∙ e)) k.listed
