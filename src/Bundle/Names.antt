-- ===== src/Bundle/Names.antt =====
-- `normalize_arcname` and `validate_zip_names`.
use delta_protocol.Prelude.{Bool, true, ◌&&◌, ◌||◌, not, any, List, [], ◌∷◌, ◌==◌, if◌then◌else◌}
use delta_protocol.Text.{Text, lit, starts_with, one_of, text_eq, non_empty}
use delta_protocol.Result.{Result, ok, ◌>>=◌, ◌>>◌, require}

-- `DeltaBundleError` by its message. `type_error`, `attribute_error`, `unencodable` and `unreadable`
-- are exceptions of other kinds, which the tool does not catch.
pub data BundleError : Type 0 where
  empty_name nested_path traversal absolute_path forbidden_name : BundleError
  duplicate_names missing_manifest manifest_not_json : BundleError
  manifest_profile_mismatch manifest_body_invalid bundle_profile_mismatch : BundleError
  body_hash_mismatch self_check_mismatch artifacts_missing invalid_artifact : BundleError
  incomplete_artifact artifact_not_in_zip artifact_hash_mismatch artifact_size_mismatch :
      BundleError
  total_size_exceeded unsafe_path file_too_large : BundleError
  type_error attribute_error unencodable unreadable : BundleError

abbrev pub Outcome : Type 0 → Type 0
Outcome A = Result BundleError A

-- `part in t`
unfoldable pub contains : Text → Text → Bool
contains part [] = starts_with [] part
contains part (c ∷ t) = starts_with (c ∷ t) part || contains part t

-- `t.replace("\\", "/")`
unfoldable pub to_slashes : Text → Text
to_slashes [] = []
to_slashes (c ∷ t) = (if c == 92 then 47 else c) ∷ to_slashes t

unfoldable pub drop_slashes : Text → Text
drop_slashes [] = []
drop_slashes (c ∷ t) = let rest = drop_slashes t in if c == 47 then rest else c ∷ t

unfoldable pub drop_last_slashes : Text → Text
drop_last_slashes [] = []
drop_last_slashes (c ∷ t) =
    let rest = drop_last_slashes t in
    elim rest [ [] ↦ if c == 47 then [] else c ∷ [] | d ∷ u ↦ c ∷ d ∷ u ]

-- `t.strip("/")`
unfoldable pub strip_slashes : Text → Text
strip_slashes t = drop_last_slashes (drop_slashes t)

abbrev pub forbidden_name_fragments : List Text
forbidden_name_fragments =
    lit "private"
    ∷ lit "secret"
    ∷ lit "seed"
    ∷ lit "token"
    ∷ lit "password"
    ∷ lit "passwd"
    ∷ lit "credential"
    ∷ lit "credentials"
    ∷ lit "key.pem"
    ∷ lit "private_key"
    ∷ lit "id_rsa"
    ∷ lit "id_ed25519"
    ∷ lit "wallet-private"
    ∷ lit "executor-private"
    ∷ lit "decrypted"
    ∷ lit "evidence.raw"
    ∷ []

abbrev pub manifest_name : Text
manifest_name = lit "bundle_manifest.json"

-- `preferred_name or path.name`
abbrev pub name_or : Text → Text → Text
name_or [] path_name = path_name
name_or (c ∷ t) path_name = c ∷ t

-- `len(set(names)) == len(names)`
unfoldable pub distinct_names : List Text → Bool
distinct_names [] = true
distinct_names (n ∷ ns) = not (one_of n ns) && distinct_names ns

abbrev pub is_traversal : Text → Bool
is_traversal name =
    text_eq name (lit ".")
    || (text_eq name (lit "..") || (starts_with name (lit "../") || contains (lit "/../") name))

-- `to_lower` is `str.lower`.
module _ (to_lower : Text → Text) where
  unfoldable pub has_forbidden_fragment : Text → Bool
  has_forbidden_fragment name =
      any (λ fragment. contains fragment (to_lower name)) forbidden_name_fragments

  -- The checks of a name whose slashes are straightened and stripped.
  unfoldable pub check_arcname : Text → Outcome Text
  check_arcname name = do
    require (non_empty name) empty_name
    require (not (contains (lit "/") name)) nested_path
    require (not (is_traversal name)) traversal
    require (not (starts_with name (lit "/"))) absolute_path
    require (not (has_forbidden_fragment name)) forbidden_name
    ok name

  -- `normalize_arcname`; `path_name` is `path.name`.
  unfoldable pub normalize_arcname : Text → Text → Outcome Text
  normalize_arcname path_name preferred =
      check_arcname (strip_slashes (to_slashes (name_or preferred path_name)))

  -- `for name in names: normalize_arcname(Path(name), name)`: the last part of an empty path is
  -- empty too.
  unfoldable pub normalize_all : List Text → Outcome (Unit {0})
  normalize_all [] = ok tt
  normalize_all (n ∷ ns) = normalize_arcname [] n >>= λ normalized. normalize_all ns

  -- `validate_zip_names`
  unfoldable pub validate_zip_names : List Text → Outcome (Unit {0})
  validate_zip_names names = do
    require (distinct_names names) duplicate_names
    require (one_of manifest_name names) missing_manifest
    normalize_all names
