-- ===== src/Audit/Accepted.antt =====
-- What an audit package that passes every check is.
use delta_protocol.Prelude.{◌≡◌, refl, Bool, true, All, Option, List, [], ◌∷◌, arith}
use delta_protocol.Text.{Text, lit}
use delta_protocol.Json.{
  Value, Fields, null, bool, int, float, str, arr, obj, other, get, as_dict, dict_or_empty, is_text,
  is_text→≡, as_dict-obj,
}
use delta_protocol.Result.{
  ok, or_raise, or_raise-eq-ok, Ensures, holds, raised, Ensures-ok, Ensures-bind, Ensures-weaken,
  Ensures-bind_any,
}
use delta_protocol.Crypto.{Crypto}
use delta_protocol.Audit.Keys.{canonical_sha256, attribute_error}
use delta_protocol.Audit.Commitments.{Commitment, collect_evidence_commitments}
use delta_protocol.Audit.Verify.{
  EntryFlags, known_hash, in_known, encryption_shape, next_flags, check_entry, check_entries,
  all_set, check_recipient, Checks, entries_in, verify_package, flags_ok, all_ok,
}

-- An entry whose evidence hash is one of the record's, and whose associated data has its hash.
pub record EntryAccepted (c : Crypto) (ms : List Commitment) (v : Value) : Type 0 where
  pub entry : Fields
  pub is_entry : v ≡ obj entry
  pub hash : Text
  pub commits : get (lit "commitment_hash") (dict_or_empty (get (lit "evidence") entry)) ≡ str hash
  pub known : known_hash ms hash ≡ true
  pub aad_hash : Text
  pub hashes_aad : canonical_sha256 c (obj (dict_or_empty (get (lit "aad") entry))) ≡ ok aad_hash
  pub declares_aad : get (lit "aad_hash") entry ≡ str aad_hash
  pub shape : encryption_shape (dict_or_empty (get (lit "encryption") entry)) ≡ true

in_known-text :
    (ms : List Commitment) (v : Value)
    → Ensures
        (λ known. known ≡ true → (h : Text) × (v ≡ str h) × (known_hash ms h ≡ true))
        (in_known ms v)
unfolding in_known
in_known-text ms (str h) = holds λ k. (h, refl, k)
in_known-text ms null = holds λ k. cc
in_known-text ms (bool b) = holds λ k. cc
in_known-text ms (int i) = holds λ k. cc
in_known-text ms (float r i) = holds λ k. cc
in_known-text ms (arr xs) = raised
in_known-text ms (obj fs) = raised
in_known-text ms (other n) = holds λ k. cc

module _ (c : Crypto) (repr : Value → Text) where
  next_flags-parts :
      (entry : Fields) (f : EntryFlags) (known : Bool) (h : Text)
      → flags_ok (next_flags c repr entry f known h) ≡ true
      → (flags_ok f ≡ true)
        × (known ≡ true)
        × (is_text (get (lit "aad_hash") entry) h ≡ true)
        × (encryption_shape (dict_or_empty (get (lit "encryption") entry)) ≡ true)
  unfolding next_flags flags_ok
  next_flags-parts entry f known h k = ground arith

  check_entry-Accepted :
      (ms : List Commitment) (f : EntryFlags) (v : Value)
      → Ensures
          (λ g. flags_ok g ≡ true → (flags_ok f ≡ true) × EntryAccepted c ms v)
          (check_entry c repr ms f v)
  unfolding check_entry flags_ok
  check_entry-Accepted ms f (obj entry) =
      Ensures-bind
        (in_known-text ms
          (get (lit "commitment_hash") (dict_or_empty (get (lit "evidence") entry))))
        λ known facts.
          Ensures-bind_any (canonical_sha256 c (obj (dict_or_empty (get (lit "aad") entry))))
            λ h hashed. holds λ k.
              let (before, is_known, declared, shape) = next_flags-parts entry f known h k in
              let (hash, commits, in_record) = facts is_known in
              (
                before,
                record {
                  entry = entry;
                  is_entry = refl;
                  hash = hash;
                  commits = commits;
                  known = in_record;
                  aad_hash = h;
                  hashes_aad = hashed;
                  declares_aad = is_text→≡ (get (lit "aad_hash") entry) h declared;
                  shape = shape;
                },
              )
  check_entry-Accepted ms f null = holds λ k. cc
  check_entry-Accepted ms f (bool b) = holds λ k. cc
  check_entry-Accepted ms f (int i) = holds λ k. cc
  check_entry-Accepted ms f (float r i) = holds λ k. cc
  check_entry-Accepted ms f (str t) = holds λ k. cc
  check_entry-Accepted ms f (arr xs) = holds λ k. cc
  check_entry-Accepted ms f (other n) = holds λ k. cc

  check_entries-Accepted :
      (ms : List Commitment) (vs : List Value) (f : EntryFlags)
      → Ensures
          (λ g. flags_ok g ≡ true → (flags_ok f ≡ true) × All (EntryAccepted c ms) vs)
          (check_entries c repr ms f vs)
  unfolding check_entries
  check_entries-Accepted ms [] f = holds λ k. (k, tt)
  check_entries-Accepted ms (v ∷ vs) f = Ensures-bind (check_entry-Accepted ms f v) λ next here.
      Ensures-weaken (check_entries-Accepted ms vs next) λ g there k.
        let (between, rest) = there k in
        let (before, accepted) = here between in (before, (accepted, rest))

-- A package that is bound to a record, with the entries that were accepted.
pub record PackageAccepted (c : Crypto) (record_value package_value : Value) : Type 0 where
  pub package_ : Fields
  pub record_ : Fields
  pub record_hash : Text
  pub is_package : package_value ≡ obj package_
  pub is_record : record_value ≡ obj record_
  pub hashes : canonical_sha256 c record_value ≡ ok record_hash
  pub binds :
      get (lit "record_hash") (dict_or_empty (get (lit "target") package_)) ≡ str record_hash
  pub entries :
      All (EntryAccepted c (collect_evidence_commitments record_ (lit "all"))) (entries_in package_)

all_ok-parts :
    (k : Checks) → all_ok k ≡ true → (k.record_binding_ok ≡ true) × (flags_ok k.entries_ok ≡ true)
unfolding all_ok
all_ok-parts k h = ground arith

-- A package that passes every check names the canonical hash of the record, and each of its
-- entries commits to a hash among the evidence commitments of the record, declares the canonical
-- hash of its associated data, and has the shape of an encryption with the algorithm of the tool.
pub verify_package-PackageAccepted :
    (c : Crypto) (repr : Value → Text) (record_value package_value : Value)
    (auditor_doc : Option Value) (k : Checks)
    → verify_package c repr record_value package_value auditor_doc ≡ ok k
    → all_ok k ≡ true
    → PackageAccepted c record_value package_value
unfolding verify_package
verify_package-PackageAccepted c repr record_value package_value auditor_doc k run good =
    Ensures-ok {P = λ k. all_ok k ≡ true → PackageAccepted c record_value package_value}
      (Ensures-bind_any (canonical_sha256 c record_value) λ record_hash hashed.
        Ensures-bind_any (or_raise (as_dict package_value) attribute_error) λ package_ is_package.
          Ensures-bind_any (check_recipient package_ auditor_doc) λ recipient checked.
            Ensures-bind_any (or_raise (as_dict record_value) attribute_error) λ record_ is_record.
              Ensures-bind
                (check_entries-Accepted c repr (collect_evidence_commitments record_ (lit "all"))
                  (entries_in package_) all_set)
                λ flags accepted. holds λ q.
                  let (bound, set) = all_ok-parts _ q in
                  record {
                    package_ = package_;
                    record_ = record_;
                    record_hash = record_hash;
                    is_package =
                        as_dict-obj package_value package_ (or_raise-eq-ok _ _ _ is_package);
                    is_record = as_dict-obj record_value record_ (or_raise-eq-ok _ _ _ is_record);
                    hashes = hashed;
                    binds = is_text→≡ _ record_hash bound;
                    entries = (accepted set).1;
                  })
      run good
