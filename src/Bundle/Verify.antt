-- ===== src/Bundle/Verify.antt =====
-- `load_manifest`, `verify_artifacts`, `safe_extract` and `verify_bundle`.
use delta_protocol.Prelude.{
  ℕ, ◌+◌, Bool, true, false, ◌&&◌, Option, none, some, List, [], ◌∷◌, length, leb, if◌then◌else◌,
}
use delta_protocol.Text.{Text, Bytes, lit, one_of}
use delta_protocol.Json.{
  Value, Fields, obj, pos, no_fields, get, as_text, as_dict, as_list, is_text, is_int, truthy,
}
use delta_protocol.Json.Pretty.{pretty_bytes}
use delta_protocol.Result.{ok, err, ◌>>=◌, ◌>>◌, require, or_raise}
use delta_protocol.Crypto.{Crypto, sha256_prefixed}
use delta_protocol.Bundle.Names.{
  Outcome, manifest_not_json, manifest_profile_mismatch, manifest_body_invalid,
  bundle_profile_mismatch, body_hash_mismatch, self_check_mismatch, artifacts_missing,
  invalid_artifact, incomplete_artifact, artifact_not_in_zip, artifact_hash_mismatch,
  artifact_size_mismatch, total_size_exceeded, unsafe_path, file_too_large, type_error,
  attribute_error, unencodable, manifest_name, normalize_arcname, validate_zip_names,
}
use delta_protocol.Bundle.Archive.{Zip, namelist, read, Directory}
use delta_protocol.Bundle.Create.{max_file_size, max_total_size}

-- What is not the tool's own.
pub record Env : Type 0 where
  -- `str.lower`
  pub to_lower : Text → Text
  -- `json.loads(data.decode("utf-8"))`, `none` where it raises
  pub loads : Bytes → Option Value
  -- The file of this name, resolved, stays below the directory that is extracted to.
  pub inside : Text → Bool

-- `manifest.get("self_check") or {}`
abbrev pub or_empty : Value → Outcome Fields
or_empty (obj fs) = ok fs
or_empty v = if truthy v then err attribute_error else ok no_fields

-- `zf.read(name)` with everything that is raised caught.
abbrev pub manifest_value : Env → Outcome Bytes → Outcome Value
manifest_value env (ok b) = or_raise (env.loads b) manifest_not_json
manifest_value env (err e) = err manifest_not_json

-- The body of a manifest whose hashes are right.
unfoldable pub check_manifest : Crypto → Value → Outcome Fields
check_manifest c v = do
  manifest ← or_raise (as_dict v) attribute_error
  require (is_text (get (lit "manifest_profile") manifest) (lit "delta_bundle_v2_7_2_manifest"))
      manifest_profile_mismatch
  body ← or_raise (as_dict (get (lit "manifest_body") manifest)) manifest_body_invalid
  require (is_text (get (lit "bundle_profile") body) (lit "delta_bundle_v2_7_2"))
      bundle_profile_mismatch
  b ← or_raise (pretty_bytes (obj body)) unencodable
  require (is_text (get (lit "manifest_body_hash") manifest) (sha256_prefixed c b))
      body_hash_mismatch
  self_check ← or_empty (get (lit "self_check") manifest)
  require (is_text (get (lit "manifest_body_hash") self_check) (sha256_prefixed c b))
      self_check_mismatch
  ok body

-- `load_manifest`: the body of the manifest.
unfoldable pub load_manifest : Crypto → Env → Zip → Outcome Fields
load_manifest c env zf = manifest_value env (read zf manifest_name) >>= λ v. check_manifest c v

-- The name, the data and the checks of one artifact: the size of the data.
unfoldable pub verify_artifact : Crypto → Env → Zip → Value → Outcome ℕ
verify_artifact c env zf v = do
  artifact ← or_raise (as_dict v) invalid_artifact
  require
      (truthy (get (lit "role") artifact)
        && (truthy (get (lit "filename") artifact) && truthy (get (lit "sha256") artifact)))
      incomplete_artifact
  declared ← or_raise (as_text (get (lit "filename") artifact)) type_error
  filename ← normalize_arcname env.to_lower [] declared
  require (one_of filename (namelist zf)) artifact_not_in_zip
  raw ← read zf filename
  require (is_text (get (lit "sha256") artifact) (sha256_prefixed c raw)) artifact_hash_mismatch
  require (is_int (get (lit "size_bytes") artifact) (pos (length raw))) artifact_size_mismatch
  ok (length raw)

-- The loop: the sum of the sizes.
unfoldable pub verify_all : Crypto → Env → Zip → List Value → Outcome ℕ
verify_all c env zf [] = ok 0
verify_all c env zf (v ∷ vs) = do
  size ← verify_artifact c env zf v
  rest ← verify_all c env zf vs
  ok (size + rest)

abbrev pub some_artifacts : List Value → Bool
some_artifacts [] = false
some_artifacts (v ∷ vs) = true

-- `verify_artifacts`: the list of the artifacts.
unfoldable pub verify_artifacts : Crypto → Env → Zip → Fields → Outcome (List Value)
verify_artifacts c env zf body = do
  artifacts ← or_raise (as_list (get (lit "artifacts") body)) artifacts_missing
  require (some_artifacts artifacts) artifacts_missing
  total ← verify_all c env zf artifacts
  require (leb total max_total_size) total_size_exceeded
  ok artifacts

-- `safe_extract`, over the entries that are left; `dir` holds what is written already.
unfoldable pub extract_entries : Env → Zip → Zip → Directory → Outcome Directory
extract_entries env zf [] dir = ok dir
extract_entries env zf (e ∷ es) dir = do
  name ← normalize_arcname env.to_lower [] e.filename
  require (env.inside name) unsafe_path
  require (leb e.file_size max_file_size) file_too_large
  raw ← read zf e.filename
  extract_entries env zf es ((name, raw) ∷ dir)

abbrev pub safe_extract : Env → Zip → Directory → Outcome Directory
safe_extract env zf dir = extract_entries env zf zf dir

-- `if extract_to is not None: safe_extract(zf, extract_to)`
unfoldable pub extract_step :
    Env → Zip → List Value → Option Directory → Outcome (List Value × Option Directory)
extract_step env zf artifacts none = ok (artifacts, none)
extract_step env zf artifacts (some dir) =
    safe_extract env zf dir >>= λ extracted. ok (artifacts, some extracted)

-- `verify_bundle` of an archive that opens: the artifacts, and the directory after the extraction,
-- where one is asked for.
unfoldable pub verify_bundle :
    Crypto → Env → Zip → Option Directory → Outcome (List Value × Option Directory)
verify_bundle c env zf extract_to = do
  validate_zip_names env.to_lower (namelist zf)
  body ← load_manifest c env zf
  artifacts ← verify_artifacts c env zf body
  extract_step env zf artifacts extract_to
