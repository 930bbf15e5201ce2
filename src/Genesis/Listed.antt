-- ===== src/Genesis/Listed.antt =====
-- What an accepted evidence manifest shows.
use delta_protocol.Genesis.Items.{
  Listed, Correct, check_items-Correct, all_seen-one_of, Correct-Listed,
}
use delta_protocol.Prelude.{ℕ, ◌≡◌, refl, Option-cases, Bool, true, inl, inr, some, List, [], ◌∷◌}
use delta_protocol.Text.{Text, lit, text_eq, one_of}
use delta_protocol.Json.{Value, Fields, str, obj, lookup, as_list}
use delta_protocol.Result.{
  ok, or_raise, or_raise-eq-ok, Ensures, holds, raised, Ensures-ok, Ensures-bind, Ensures-bind_any,
  Ensures-require,
}
use delta_protocol.Crypto.{Crypto, sha256_prefixed}
use delta_protocol.Genesis.Chain.{
  missing_field, missing_paths, sha256_object, require_field, require_field_equal,
}
use delta_protocol.Genesis.Envelope.{assert_hash_format}
use delta_protocol.Genesis.Evidence.{
  Release, expected_hashes_by_path, hash_at, paths_of, all_seen, filled_list,
  verify_evidence_manifest,
}

-- A list of items has the path of a document with the hash of the document.
pub record DocumentListed (c : Crypto) (path : Text) (v : Value) (items : List Value) : Type 0 where
  pub hash : Text
  pub hashes : sha256_object c v ≡ ok hash
  pub listed : Listed path hash items

-- A list of items has the two files and the three documents of the release.
pub record ReleaseListed (c : Crypto) (r : Release) (items : List Value) : Type 0 where
  pub spec : Listed (lit "spec/DELTA-0-v0.5.2-core-structures.md") (sha256_prefixed c r.spec) items
  pub generator : Listed (lit "src/genesis_generator.py") (sha256_prefixed c r.generator) items
  pub before : DocumentListed c (lit "genesis/before_statement.json") r.before_statement items
  pub after : DocumentListed c (lit "genesis/after_statement.json") r.after_statement items
  pub policy : DocumentListed c (lit "genesis/verification_policy.json") r.verification_policy items

expected_hashes_by_path-ReleaseListed :
    (c : Crypto) (r : Release) (items : List Value)
    → Ensures
        (λ hs.
          ((p : Text) → one_of p (paths_of hs) ≡ true → Correct hs items p)
          → ReleaseListed c r items)
        (expected_hashes_by_path c r)
unfolding expected_hashes_by_path hash_at one_of lit text_eq
expected_hashes_by_path-ReleaseListed c r items =
    Ensures-bind_any (sha256_object c r.before_statement) λ b eb.
      Ensures-bind_any (sha256_object c r.after_statement) λ a ea.
        Ensures-bind_any (sha256_object c r.verification_policy) λ p ep. holds λ covers. record {
          spec = Correct-Listed (covers (lit "spec/DELTA-0-v0.5.2-core-structures.md") refl) refl;
          generator = Correct-Listed (covers (lit "src/genesis_generator.py") refl) refl;
          before = record {
            hash = b;
            hashes = eb;
            listed = Correct-Listed (covers (lit "genesis/before_statement.json") refl) refl;
          };
          after = record {
            hash = a;
            hashes = ea;
            listed = Correct-Listed (covers (lit "genesis/after_statement.json") refl) refl;
          };
          policy = record {
            hash = p;
            hashes = ep;
            listed = Correct-Listed (covers (lit "genesis/verification_policy.json") refl) refl;
          };
        }

-- A manifest that is accepted, with its hash.
pub record ManifestAccepted (c : Crypto) (manifest : Fields) (r : Release) (h : Text) : Type 0 where
  pub items_value : Value
  pub items : List Value
  pub has_items : lookup (lit "items") manifest ≡ some items_value
  pub are_items : as_list items_value ≡ some items
  pub release : ReleaseListed c r items
  pub hashes : sha256_object c (obj manifest) ≡ ok h

filled_list-as_list : (v : Value) → Ensures (λ xs. as_list v ≡ some xs) (filled_list v)
unfolding filled_list
filled_list-as_list v = elim (Option-cases (as_list v)) [
  | inl no_list ↦ rw (no_list, filled_list) raised
  | inr ([], found) ↦ rw (found, filled_list) raised
  | inr (x ∷ xs, found) ↦ rw (found, filled_list) (holds refl)
]

-- An accepted evidence manifest has a list of items, in which stand the specification and the
-- generator with the hash of their bytes, and the statement before, the statement after and the
-- policy with the canonical hash of the document, each under its own path; and the hash that is
-- given is that of the manifest.
pub verify_evidence_manifest-ManifestAccepted :
    (c : Crypto) (wide : ℕ → Bool) (manifest : Fields) (r : Release) (h : Text)
    → verify_evidence_manifest c wide manifest r ≡ ok h
    → ManifestAccepted c manifest r h
unfolding verify_evidence_manifest require_field
verify_evidence_manifest-ManifestAccepted c wide manifest r h run =
    Ensures-ok {P = ManifestAccepted c manifest r}
      (Ensures-bind_any (require_field_equal manifest (lit "type") (lit "delta_evidence_manifest"))
        λ u1 q1.
          Ensures-bind_any (require_field_equal manifest (lit "protocol_version") (lit "DELTA-0"))
            λ u2 q2.
              Ensures-bind_any
                (or_raise (lookup (lit "items") manifest) (missing_field (lit "items")))
                λ items_value ei. Ensures-bind (filled_list-as_list items_value) λ items el.
                  Ensures-bind (expected_hashes_by_path-ReleaseListed c r items) λ hs eh.
                    Ensures-bind (check_items-Correct wide hs items) λ seen correct.
                      Ensures-require (all_seen (paths_of hs) seen) missing_paths λ complete.
                        Ensures-bind_any (sha256_object c (obj manifest)) λ g eg.
                          Ensures-bind_any (assert_hash_format wide (lit "evidence_hash") (str g))
                            λ u3 q3. holds (record {
                              items_value = items_value;
                              items = items;
                              has_items = or_raise-eq-ok _ _ _ ei;
                              are_items = el;
                              release = eh λ p k.
                                  correct p (all_seen-one_of (paths_of hs) seen p complete k);
                              hashes = eg;
                            }))
      run
