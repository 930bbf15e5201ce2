-- ===== src/Genesis/Evidence.antt =====
-- `verify_evidence_manifest`.
use delta_protocol.Prelude.{ℕ, Bool, Option, none, some, List, [], ◌∷◌, all, map, if◌then◌else◌}
use delta_protocol.Text.{Text, Bytes, lit, text_eq, one_of}
use delta_protocol.Json.{Value, Fields, str, arr, obj, as_list, is_text}
use delta_protocol.Result.{ok, err, ◌>>=◌, ◌>>◌, require, or_raise}
use delta_protocol.Crypto.{Crypto, sha256_prefixed}
use delta_protocol.Genesis.Chain.{
  Outcome, mismatch, entries_empty, entry_not_object, unhashable, unexpected_path, missing_paths,
  sha256_object, require_field, require_field_equal,
}
use delta_protocol.Genesis.Envelope.{assert_hash_format}

-- What the release holds beside the manifest: two files and three documents.
pub record Release : Type 0 where
  pub spec : Bytes
  pub generator : Bytes
  pub before_statement : Value
  pub after_statement : Value
  pub verification_policy : Value

abbrev pub Hashes : Type 0
Hashes = List (Text × Text)

-- `expected_hashes_by_path`
unfoldable pub expected_hashes_by_path : Crypto → Release → Outcome Hashes
expected_hashes_by_path c r = do
  before ← sha256_object c r.before_statement
  after ← sha256_object c r.after_statement
  policy ← sha256_object c r.verification_policy
  ok (
      (lit "spec/DELTA-0-v0.5.2-core-structures.md", sha256_prefixed c r.spec)
      ∷ (lit "src/genesis_generator.py", sha256_prefixed c r.generator)
      ∷ (lit "genesis/before_statement.json", before)
      ∷ (lit "genesis/after_statement.json", after)
      ∷ (lit "genesis/verification_policy.json", policy)
      ∷ [])

unfoldable pub hash_at : Text → Hashes → Option Text
hash_at p [] = none
hash_at p ((q, h) ∷ hs) = let rest = hash_at p hs in if text_eq q p then some h else rest

-- `expected_hashes_by_path[path]`, with the path.
unfoldable pub expected_hash : Hashes → Value → Outcome (Text × Text)
expected_hash hs (str p) = or_raise (hash_at p hs) unexpected_path >>= λ h. ok (p, h)
expected_hash hs (arr xs) = err unhashable
expected_hash hs (obj fs) = err unhashable
expected_hash hs _ = err unexpected_path

-- The body of the loop over the items: the path.
unfoldable pub check_item : (ℕ → Bool) → Hashes → Value → Outcome Text
check_item wide hs (obj item) = do
  path ← require_field item (lit "path")
  item_hash ← require_field item (lit "hash")
  assert_hash_format wide (lit "hash") item_hash
  (p, h) ← expected_hash hs path
  require (is_text item_hash h) (mismatch (lit "hash"))
  ok p
check_item wide hs _ = err entry_not_object

-- `seen_paths`
unfoldable pub check_items : (ℕ → Bool) → Hashes → List Value → Outcome (List Text)
check_items wide hs [] = ok []
check_items wide hs (v ∷ vs) = do
  p ← check_item wide hs v
  seen ← check_items wide hs vs
  ok (p ∷ seen)

abbrev pub paths_of : Hashes → List Text
paths_of hs = map (λ (kv : Text × Text). kv.0) hs

-- No path that is missing.
abbrev pub all_seen : List Text → List Text → Bool
all_seen paths seen = all (λ p. one_of p seen) paths

-- `items`, a list that is not empty.
unfoldable pub filled_list : Value → Outcome (List Value)
filled_list v = elim (as_list v) [
  | none ↦ err entries_empty
  | some [] ↦ err entries_empty
  | some (x ∷ xs) ↦ ok (x ∷ xs)
]

-- `verify_evidence_manifest`: the hash of the manifest, which is a dict.
unfoldable pub verify_evidence_manifest : Crypto → (ℕ → Bool) → Fields → Release → Outcome Text
verify_evidence_manifest c wide manifest r = do
  require_field_equal manifest (lit "type") (lit "delta_evidence_manifest")
  require_field_equal manifest (lit "protocol_version") (lit "DELTA-0")
  items_value ← require_field manifest (lit "items")
  items ← filled_list items_value
  hs ← expected_hashes_by_path c r
  seen ← check_items wide hs items
  require (all_seen (paths_of hs) seen) missing_paths
  h ← sha256_object c (obj manifest)
  assert_hash_format wide (lit "evidence_hash") (str h)
  ok h
