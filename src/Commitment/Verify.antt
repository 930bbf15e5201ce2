-- ===== src/Commitment/Verify.antt =====
-- `verify_public` of a commitment package: the errors that it collects. `err` is an exception that
-- it does not catch.
use delta_protocol.Prelude.{ℕ, suc, List, [], ◌∷◌, ◌++◌, if◌then◌else◌}
use delta_protocol.Text.{Text, lit}
use delta_protocol.Json.{Value, Fields, obj, get, dict_or_empty, is_text, truthy}
use delta_protocol.Result.{ok, err, ◌>>=◌}
use delta_protocol.Crypto.{Crypto}
use delta_protocol.EvidenceSet.Hashes.{Outcome, SetError, validate_sha256, package_body_hash}
use delta_protocol.EvidenceSet.Verify.{unless, entries_of}
use delta_protocol.Commitment.Package.{profile, salted_method}

-- The strings that `verify_public` appends to `errors`.
pub data PackageError : Type 0 where
  type_invalid profile_invalid entries_missing_or_empty : PackageError
  entry_not_object entry_method_id_invalid : ℕ → PackageError
  commitment_invalid : ℕ → SetError → PackageError
  self_check_missing self_check_mismatch : PackageError

-- The `try` around `validate_sha256`.
unfoldable pub commitment_errors : ℕ → Outcome (Unit {0}) → List PackageError
commitment_errors idx (ok _) = []
commitment_errors idx (err e) = commitment_invalid idx e ∷ []

unfoldable pub entry_errors : ℕ → Value → List PackageError
entry_errors idx (obj entry) =
    commitment_errors idx (validate_sha256 (get (lit "commitment") entry) (lit "commitment"))
    ++ unless (is_text (get (lit "method_id") entry) salted_method) (entry_method_id_invalid idx)
entry_errors idx _ = entry_not_object idx ∷ []

unfoldable pub all_entry_errors : ℕ → List Value → List PackageError
all_entry_errors idx [] = []
all_entry_errors idx (v ∷ vs) = entry_errors idx v ++ all_entry_errors (suc idx) vs

-- The branch on `entries`.
unfoldable pub entries_errors : List Value → List PackageError
entries_errors [] = entries_missing_or_empty ∷ []
entries_errors (v ∷ vs) = all_entry_errors 0 (v ∷ vs)

unfoldable pub self_check_errors : Value → Text → List PackageError
self_check_errors declared computed =
    if truthy declared
    then unless (is_text declared computed) self_check_mismatch
    else self_check_missing ∷ []

-- The errors of a package whose body has the hash `computed`.
unfoldable pub package_errors : Fields → Text → List PackageError
package_errors package_ computed =
    let declared =
      get (lit "package_body_hash") (dict_or_empty (get (lit "self_check") package_)) in
    unless (is_text (get (lit "type") package_) (lit "delta_private_evidence_commitment_package"))
      type_invalid
    ++ (unless (is_text (get (lit "profile") package_) profile) profile_invalid
        ++ (entries_errors (entries_of (get (lit "entries") package_))
            ++ self_check_errors declared computed))

-- `verify_public`
unfoldable pub verify_package : Crypto → Fields → Outcome (List PackageError)
verify_package c package_ = do
  computed ← package_body_hash c package_
  ok (package_errors package_ computed)
