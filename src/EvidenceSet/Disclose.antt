-- ===== src/EvidenceSet/Disclose.antt =====
-- `disclose`: the errors that it collects for one piece of evidence.
use delta_protocol.Prelude.{
  Bool, true, false, Option, none, some, List, [], ◌∷◌, ◌++◌, if◌then◌else◌,
}
use delta_protocol.Text.{Text, Bytes, lit, non_empty}
use delta_protocol.Json.{
  Value, Fields, null, str, arr, obj, get, as_text, as_int, dict_or_empty, is_text, is_optional,
}
use delta_protocol.Result.{ok, err, ◌>>=◌}
use delta_protocol.Crypto.{Crypto, sha256_prefixed}
use delta_protocol.EvidenceSet.Hashes.{Outcome, unreadable, commitment_for, leaf_hash_for}
use delta_protocol.EvidenceSet.Merkle.{verify_proof}
use delta_protocol.EvidenceSet.Package.{profile}
use delta_protocol.EvidenceSet.Verify.{unless, entries_of}

-- The strings that `disclose` appends to `errors`.
pub data DiscloseError : Type 0 where
  public_profile_invalid opening_profile_invalid : DiscloseError
  evidence_file_missing label_required : DiscloseError
  public_entries_missing opening_entries_missing : DiscloseError
  public_entry_not_found opening_entry_not_found : DiscloseError
  opening_evidence_hash_mismatch opening_commitment_mismatch opening_leaf_hash_mismatch :
      DiscloseError
  public_commitment_mismatch public_leaf_hash_mismatch : DiscloseError
  opening_merkle_proof_missing merkle_proof_invalid : DiscloseError

-- What stands at the path of the evidence.
pub data EvidenceFile : Type 0 where
  missing : EvidenceFile
  directory : EvidenceFile
  content : Bytes → EvidenceFile

abbrev pub is_file : EvidenceFile → Bool
is_file missing = false
is_file directory = false
is_file (content b) = true

-- `sha256_file(evidence) if evidence.exists() else None`: a directory cannot be read.
unfoldable pub evidence_hash_of : Crypto → EvidenceFile → Outcome (Option Text)
evidence_hash_of c missing = ok none
evidence_hash_of c directory = err unreadable
evidence_hash_of c (content b) = ok (some (sha256_prefixed c b))

-- `next((e for e in entries if isinstance(e, dict) and e.get("label") == label), None)`
unfoldable pub find_entry : Text → List Value → Option Fields
find_entry label [] = none
find_entry label (obj e ∷ vs) =
    if is_text (get (lit "label") e) label then some e else find_entry label vs
find_entry label (v ∷ vs) = find_entry label vs

-- `e.get(key) if e else None`
abbrev pub get_of : Text → Option Fields → Value
get_of key none = null
get_of key (some e) = get key e

unfoldable pub computed_commitment : Crypto → Option Text → Value → Text → Outcome (Option Text)
computed_commitment c (some h) (str salt) label = commitment_for c h salt label >>= λ x. ok (some x)
computed_commitment c _ _ label = ok none

unfoldable pub computed_leaf : Crypto → Value → Text → Option Text → Outcome (Option Text)
computed_leaf c index label none = ok none
computed_leaf c index label (some commitment) = elim (as_int index) [
  | none ↦ ok none
  | some i ↦ leaf_hash_for c index label commitment >>= λ x. ok (some x)
]

unfoldable pub opening_errors :
    Option Fields → Option Text → Option Text → Option Text → List DiscloseError
opening_errors none evidence_hash commitment leaf = opening_entry_not_found ∷ []
opening_errors (some e) evidence_hash commitment leaf =
    unless (is_optional (get (lit "evidence_hash") e) evidence_hash) opening_evidence_hash_mismatch
    ++ (unless (is_optional (get (lit "commitment") e) commitment) opening_commitment_mismatch
        ++ unless (is_optional (get (lit "leaf_hash") e) leaf) opening_leaf_hash_mismatch)

unfoldable pub public_errors : Option Fields → Option Text → Option Text → List DiscloseError
public_errors none commitment leaf = public_entry_not_found ∷ []
public_errors (some e) commitment leaf =
    unless (is_optional (get (lit "commitment") e) commitment) public_commitment_mismatch
    ++ unless (is_optional (get (lit "leaf_hash") e) leaf) public_leaf_hash_mismatch

-- The proof is looked at only where there is a leaf hash and the root is a text.
unfoldable pub proof_errors : Crypto → Option Text → Value → Value → Outcome (List DiscloseError)
proof_errors c (some leaf) root proof = elim (as_text root) [
  | none ↦ ok []
  | some expected ↦ verify_proof c leaf (entries_of proof) expected >>= λ good.
      ok (unless good merkle_proof_invalid)
]
proof_errors c none root proof = ok []

abbrev pub is_list : Value → Bool
is_list (arr xs) = true
is_list _ = false

-- `disclose`, with the errors in groups.
unfoldable pub disclose :
    Crypto → Fields → Fields → EvidenceFile → Text → Outcome (List DiscloseError)
disclose c public opening evidence label = do
  let public_entry = find_entry label (entries_of (get (lit "entries") public))
  let opening_entry = find_entry label (entries_of (get (lit "entries") opening))
  evidence_hash ← evidence_hash_of c evidence
  commitment ← computed_commitment c evidence_hash (get_of (lit "salt") opening_entry) label
  leaf ← computed_leaf c (get_of (lit "index") opening_entry) label commitment
  let proof = get_of (lit "merkle_proof") opening_entry
  let root = get (lit "root") (dict_or_empty (get (lit "merkle") public))
  invalid ← proof_errors c leaf root proof
  ok (
      unless (is_text (get (lit "profile") public) profile) public_profile_invalid
      ++ (unless (is_text (get (lit "profile") opening) profile) opening_profile_invalid
          ++ (unless (is_file evidence) evidence_file_missing
              ++ (unless (non_empty label) label_required
                  ++ (unless (is_list (get (lit "entries") public)) public_entries_missing
                      ++ (unless (is_list (get (lit "entries") opening)) opening_entries_missing
                          ++ (opening_errors opening_entry evidence_hash commitment leaf
                              ++ (public_errors public_entry commitment leaf
                                  ++ (unless (is_list proof) opening_merkle_proof_missing
                                      ++ invalid)))))))))
