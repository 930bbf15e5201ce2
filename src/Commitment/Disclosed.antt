-- ===== src/Commitment/Disclosed.antt =====
-- What a disclosure without errors shows.
use delta_protocol.Prelude.{
  ◌≡◌, refl, sym, Bool, true, false, inl, inr, Bool-cases, Option, none, some, List, [], ◌∷◌, ◌++◌,
  arith,
}
use delta_protocol.Text.{Text, Bytes, lit, text_eq→≡, non_empty}
use delta_protocol.Json.{
  Value, Fields, null, bool, int, float, str, arr, obj, other, get, is_text, is_text→≡,
}
use delta_protocol.Result.{
  ok, >>=-eq-ok, ok-injective, Ensures, holds, raised, Ensures-ok, Ensures-bind, Ensures-bind_any,
}
use delta_protocol.Crypto.{Crypto, sha256_prefixed}
use delta_protocol.EvidenceSet.Disclose.{
  EvidenceFile, missing, directory, content, is_file, evidence_hash_of,
}
use delta_protocol.EvidenceSet.Verify.{unless, entries_of}
use delta_protocol.Commitment.Package.{salted_method, commitment_for}
use delta_protocol.Commitment.Disclose.{
  OpeningError, label_value, first_match, filled, missing_entry, evidence_errors, is_filled_text,
  opened_commitment, mismatch, entry_mismatch, disclose_commitment, opening_errors,
  public_commitment_mismatch, evidence_file_missing, public_profile_invalid,
  opening_profile_invalid, opening_salt_missing, opening_label_missing, opening_method_id_invalid,
  opening_commitment_mismatch,
}

-- The entry of the package that a disclosure looks at.
abbrev pub disclosed_entry : Fields → Fields → Option Text → Option Fields
disclosed_entry package_ opening label_arg =
    filled (first_match (label_value label_arg opening) (entries_of (get (lit "entries") package_)))

-- The evidence has the hash of the opening, and the opening's commitment is that of the entry.
pub record Disclosed (c : Crypto) (package_ opening : Fields) (evidence : EvidenceFile)
    (label_arg : Option Text) : Type 0 where
  pub bytes : Bytes
  pub salt : Text
  pub label : Text
  pub commitment : Text
  pub entry : Fields
  pub is_content : evidence ≡ content bytes
  pub opening_hash : get (lit "evidence_hash") opening ≡ str (sha256_prefixed c bytes)
  pub has_salt : get (lit "salt") opening ≡ str salt
  pub salt_filled : non_empty salt ≡ true
  pub has_label : get (lit "label") opening ≡ str label
  pub commits : commitment_for c (sha256_prefixed c bytes) salt label salted_method ≡ ok commitment
  pub opening_commits : get (lit "commitment") opening ≡ str commitment
  pub found : disclosed_entry package_ opening label_arg ≡ some entry
  pub entry_commits : get (lit "commitment") entry ≡ str commitment

unless-nil :
    {E : Type 0} (b : Bool) (e : E) (rest : List E)
    → unless b e ++ rest ≡ []
    → (b ≡ true) × (rest ≡ [])
unless-nil true e rest h = (refl, h)
unless-nil false e rest h = cc

append-nil : {E : Type 0} (xs ys : List E) → xs ++ ys ≡ [] → (xs ≡ []) × (ys ≡ [])
append-nil [] ys h = (refl, h)
append-nil (x ∷ xs) ys h = cc

missing_entry-nil :
    (vs : List Value) (o : Option Fields) → missing_entry vs o ≡ [] → (e : Fields) × (o ≡ some e)
missing_entry-nil [] o h = cc
missing_entry-nil (v ∷ vs) none h = cc
missing_entry-nil (v ∷ vs) (some e) h = (e, refl)

is_filled_text-parts :
    (v : Value) → is_filled_text v ≡ true → (t : Text) × (v ≡ str t) × (non_empty t ≡ true)
is_filled_text-parts (str t) h = (t, refl, h)
is_filled_text-parts null h = cc
is_filled_text-parts (bool b) h = cc
is_filled_text-parts (int i) h = cc
is_filled_text-parts (float r i) h = cc
is_filled_text-parts (arr xs) h = cc
is_filled_text-parts (obj fs) h = cc
is_filled_text-parts (other n) h = cc

evidence_errors-nil : (v : Value) (h : Text) → evidence_errors v (some h) ≡ [] → v ≡ str h
unfolding evidence_errors
evidence_errors-nil (str t) h e = ground (arith, text_eq→≡ t h)
evidence_errors-nil null h e = cc
evidence_errors-nil (bool b) h e = cc
evidence_errors-nil (int i) h e = cc
evidence_errors-nil (float r i) h e = cc
evidence_errors-nil (arr xs) h e = cc
evidence_errors-nil (obj fs) h e = cc
evidence_errors-nil (other n) h e = cc

mismatch-nil : (v : Value) (h : Text) (e : OpeningError) → mismatch v (some h) e ≡ [] → v ≡ str h
unfolding mismatch
mismatch-nil v h e n = elim (Bool-cases (is_text v h)) [
  | inl same ↦ is_text→≡ v h same
  | inr differ ↦ absurd (cc (rw (differ, mismatch) at n))
]

evidence_hash_of-content :
    (c : Crypto) (file : EvidenceFile)
    → Ensures
        (λ h.
          is_file file ≡ true → (b : Bytes) × (file ≡ content b) × (h ≡ some (sha256_prefixed c b)))
        (evidence_hash_of c file)
unfolding evidence_hash_of
evidence_hash_of-content c missing = holds λ k. cc
evidence_hash_of-content c directory = raised
evidence_hash_of-content c (content b) = holds λ k. (b, refl, refl)

module _ (c : Crypto) where
  opened_commitment-texts :
      (ht st lt : Text) (o : Option Text)
      → opened_commitment c (str ht) (str st) (str lt) (str salted_method) ≡ ok o
      → (x : Text) × (o ≡ some x) × (commitment_for c ht st lt salted_method ≡ ok x)
  unfolding opened_commitment
  opened_commitment-texts ht st lt o run =
      let (x, made, same) = >>=-eq-ok (commitment_for c ht st lt salted_method) _ run in
      (x, sym (ok-injective _ _ same), made)

  opened_commitment-some :
      (h s l m : Value) (ht st lt : Text) (o : Option Text)
      → h ≡ str ht
      → s ≡ str st
      → l ≡ str lt
      → m ≡ str salted_method
      → opened_commitment c h s l m ≡ ok o
      → (x : Text) × (o ≡ some x) × (commitment_for c ht st lt salted_method ≡ ok x)
  opened_commitment-some h s l m ht st lt o eh es el em run =
      opened_commitment-texts ht st lt o (rw (eh, es, el, em) at run)

  entry_mismatch-some :
      (e : Fields) (h : Text)
      → entry_mismatch (some e) (some h) ≡ []
      → get (lit "commitment") e ≡ str h
  unfolding entry_mismatch
  entry_mismatch-some e h n = mismatch-nil (get (lit "commitment") e) h public_commitment_mismatch n

  entry_mismatch-nil :
      (o : Option Fields) (computed : Option Text) (e : Fields) (h : Text)
      → o ≡ some e
      → computed ≡ some h
      → entry_mismatch o computed ≡ []
      → get (lit "commitment") e ≡ str h
  entry_mismatch-nil o computed e h found made n = entry_mismatch-some e h (rw (found, made) at n)

  -- A disclosure that collects no error opens the entry of the package: the evidence has the hash
  -- that the opening declares, and both documents hold the commitment to it.
  pub disclose_commitment-Disclosed :
      (package_ opening : Fields) (evidence : EvidenceFile) (label_arg : Option Text)
      → disclose_commitment c package_ opening evidence label_arg ≡ ok []
      → Disclosed c package_ opening evidence label_arg
  unfolding disclose_commitment opening_errors
  disclose_commitment-Disclosed package_ opening evidence label_arg run =
      let entry = disclosed_entry package_ opening label_arg in
      let entries = entries_of (get (lit "entries") package_) in
      let opening_hash = get (lit "evidence_hash") opening in
      let salt = get (lit "salt") opening in
      let label = get (lit "label") opening in
      let method_id = get (lit "method_id") opening in
      Ensures-ok {P = λ errs. errs ≡ [] → Disclosed c package_ opening evidence label_arg}
        (Ensures-bind (evidence_hash_of-content c evidence) λ eh facts.
          Ensures-bind_any (opened_commitment c opening_hash salt label method_id)
            λ computed opened. holds λ nil.
              let (is_there, r1) = unless-nil (is_file evidence) evidence_file_missing _ nil in
              let (p1, r2) = unless-nil _ public_profile_invalid _ r1 in
              let (p2, r3) = unless-nil _ opening_profile_invalid _ r2 in
              let (m1, r4) = append-nil (missing_entry entries entry) _ r3 in
              let (m2, r5) = append-nil (evidence_errors opening_hash eh) _ r4 in
              let (s1, r6) = unless-nil (is_filled_text salt) opening_salt_missing _ r5 in
              let (l1, r7) = unless-nil (is_filled_text label) opening_label_missing _ r6 in
              let (k1, r8) =
                unless-nil (is_text method_id salted_method) opening_method_id_invalid _ r7 in
              let (c1, c2) =
                append-nil
                  (mismatch (get (lit "commitment") opening) computed opening_commitment_mismatch) _
                  r8 in
              let (b, is_content, is_hash) = facts is_there in
              let (e, found) = missing_entry-nil entries entry m1 in
              let (st, has_salt, salt_filled) = is_filled_text-parts salt s1 in
              let (lt, has_label, label_filled) = is_filled_text-parts label l1 in
              let declared =
                evidence_errors-nil opening_hash (sha256_prefixed c b) (rw is_hash at m2) in
              let (x, is_some, commits) =
                opened_commitment-some opening_hash salt label method_id (sha256_prefixed c b) st lt
                  computed declared has_salt has_label (is_text→≡ method_id salted_method k1)
                  opened in
              record {
                bytes = b;
                salt = st;
                label = lt;
                commitment = x;
                entry = e;
                is_content = is_content;
                opening_hash = declared;
                has_salt = has_salt;
                salt_filled = salt_filled;
                has_label = has_label;
                commits = commits;
                opening_commits =
                    mismatch-nil (get (lit "commitment") opening) x opening_commitment_mismatch
                      (rw is_some at c1);
                found = found;
                entry_commits = entry_mismatch-nil entry computed e x found is_some c2;
              })
        run refl
