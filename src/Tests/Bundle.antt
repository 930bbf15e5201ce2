-- ===== src/Tests/Bundle.antt =====
-- An archive of one artifact and its manifest.
use delta_protocol.Prelude.{◌≡◌, refl, true, Option, none, some, All, [], ◌∷◌}
use delta_protocol.Text.{Bytes}
use delta_protocol.Json.{Value, Fields, int, str, arr, obj, pos, no_items, item, no_fields, field}
use delta_protocol.Result.{ok}
use delta_protocol.Bundle.Names.{manifest_name}
use delta_protocol.Bundle.Archive.{Zip, Directory}
use delta_protocol.Bundle.Verify.{Env}
use delta_protocol.Bundle.SafeNames.{
  IsSafeName, normalize_arcname-IsSafeName, normalize_arcname-normalize_arcname,
}
use delta_protocol.Bundle.Extracted.{all_normal, is_normal}
use delta_protocol.Bundle.Bounds.{WithinBounds, verify_bundle-WithinBounds}
use delta_protocol.Bundle.Accepted.{
  ArchiveAccepted, ArtifactExtracted, verify_bundle-ArchiveAccepted, verify_bundle-extracts,
}
use delta_protocol.Tests.Toy.{toy}
use delta_protocol.Text.{
  lit, text_eq, starts_with, one_of, is_white, strip_left, strip_right, strip, lower,
}
use delta_protocol.Json.{lookup, get_or, get, has_key, insert, erase, distinct_keys}
use delta_protocol.Json.Dump.{
  digits, decimal, dump_int, hex_digit, short_escape, escape_char, escape, quote, dump, dump_items,
  dump_fields,
}
use delta_protocol.Json.Sort.{
  text_leb, insert_sorted, sort_keys, sort_items, sort_fields, sorted, sorted_items, sorted_fields,
}
use delta_protocol.Utf8.{encodable, encode_char, encode, decode}
use delta_protocol.Crypto.{is_hex, sha256_prefixed}
use delta_protocol.Json.Bytes.{is_finite, serializable, json_bytes}
use delta_protocol.Json.Pretty.{indent, pretty, pretty_bytes}
use delta_protocol.Bundle.Names.{
  contains, to_slashes, drop_slashes, drop_last_slashes, strip_slashes, distinct_names,
  has_forbidden_fragment, check_arcname, normalize_arcname, normalize_all, validate_zip_names,
}
use delta_protocol.Bundle.Archive.{read, file_at}
use delta_protocol.Bundle.Create.{
  make_artifact_entry, security_policy, bundle_boundary, manifest_body, manifest_of, create_bundle,
}
use delta_protocol.Bundle.Verify.{
  check_manifest, load_manifest, verify_artifact, verify_all, verify_artifacts, extract_entries,
  extract_step, verify_bundle,
}

abbrev artifact : Value
artifact = obj (
    field (lit "role") (str (lit "record")) (
      field (lit "filename") (str (lit "r")) (
        field (lit "sha256") (str (sha256_prefixed toy (lit "abc")))
          (field (lit "size_bytes") (int (pos 3)) no_fields))))

abbrev body : Fields
body =
    field (lit "bundle_profile") (str (lit "delta_bundle_v2_7_2"))
      (field (lit "artifacts") (arr (item artifact no_items)) no_fields)

abbrev bytes_or_none : Option Bytes → Bytes
bytes_or_none (some b) = b
bytes_or_none none = []

abbrev manifest : Value
manifest = obj (manifest_of body (sha256_prefixed toy (bytes_or_none (pretty_bytes (obj body)))))

-- The parser of this environment gives the manifest above for any bytes.
abbrev env : Env
env = record { to_lower = λ t. t; loads = λ b. some manifest; inside = λ t. true }

abbrev zf : Zip
zf =
    record { filename = lit "r"; file_size = 3; content = some (lit "abc") }
    ∷ record { filename = manifest_name; file_size = 2; content = some (lit "{}") }
    ∷ []

abbrev extracted : Directory
extracted = (manifest_name, lit "{}") ∷ (lit "r", lit "abc") ∷ []

verifies_bundle : verify_bundle toy env zf (some []) ≡ ok (artifact ∷ [], some extracted)
unfolding lit text_eq starts_with one_of is_white strip_left strip_right strip lower lookup get_or
    get has_key insert erase distinct_keys digits decimal dump_int hex_digit short_escape
    escape_char escape quote dump dump_items dump_fields text_leb insert_sorted sort_keys sort_items
    sort_fields sorted sorted_items sorted_fields encodable encode_char encode decode is_hex
    sha256_prefixed is_finite serializable json_bytes indent pretty pretty_bytes contains to_slashes
    drop_slashes drop_last_slashes strip_slashes distinct_names has_forbidden_fragment check_arcname
    normalize_arcname normalize_all validate_zip_names read file_at make_artifact_entry
    security_policy bundle_boundary manifest_body manifest_of create_bundle check_manifest
    load_manifest verify_artifact verify_all verify_artifacts extract_entries extract_step
    verify_bundle
verifies_bundle = refl

verify_bundle-ArchiveAccepted_example : ArchiveAccepted toy env zf (artifact ∷ [])
verify_bundle-ArchiveAccepted_example =
    verify_bundle-ArchiveAccepted toy env zf (some []) (some extracted) (artifact ∷ [])
      verifies_bundle

names_normal : all_normal env.to_lower (lit "r" ∷ manifest_name ∷ []) ≡ true
unfolding all_normal is_normal lit text_eq starts_with one_of is_white strip_left strip_right strip
    lower contains to_slashes drop_slashes drop_last_slashes strip_slashes distinct_names
    has_forbidden_fragment check_arcname normalize_arcname normalize_all validate_zip_names
names_normal = refl

verify_bundle-extracts_example : All (ArtifactExtracted toy env zf extracted) (artifact ∷ [])
verify_bundle-extracts_example =
    verify_bundle-extracts toy env zf [] extracted (artifact ∷ []) names_normal verifies_bundle

normalizes_name : normalize_arcname env.to_lower [] (lit "\\a.json/") ≡ ok (lit "a.json")
unfolding lit text_eq starts_with one_of is_white strip_left strip_right strip lower contains
    to_slashes drop_slashes drop_last_slashes strip_slashes distinct_names has_forbidden_fragment
    check_arcname normalize_arcname normalize_all validate_zip_names
normalizes_name = refl

normalize_arcname-IsSafeName_example : IsSafeName env.to_lower (lit "a.json")
normalize_arcname-IsSafeName_example =
    normalize_arcname-IsSafeName env.to_lower [] (lit "\\a.json/") (lit "a.json") normalizes_name

normalize_arcname-normalize_arcname_example :
    normalize_arcname env.to_lower [] (lit "a.json") ≡ ok (lit "a.json")
normalize_arcname-normalize_arcname_example =
    normalize_arcname-normalize_arcname env.to_lower [] (lit "\\a.json/") (lit "a.json")
      normalizes_name

-- A name with a slash in front of it is another name in the archive, and the same file outside.
abbrev twice : Zip
twice =
    record { filename = lit "r"; file_size = 3; content = some (lit "abc") }
    ∷ record { filename = manifest_name; file_size = 2; content = some (lit "{}") }
    ∷ record { filename = lit "/r"; file_size = 1; content = some (lit "z") }
    ∷ []

overwrites :
    verify_bundle toy env twice (some [])
    ≡ ok (
      artifact ∷ [],
      some ((lit "r", lit "z") ∷ (manifest_name, lit "{}") ∷ (lit "r", lit "abc") ∷ []),
    )
unfolding lit text_eq starts_with one_of is_white strip_left strip_right strip lower lookup get_or
    get has_key insert erase distinct_keys digits decimal dump_int hex_digit short_escape
    escape_char escape quote dump dump_items dump_fields text_leb insert_sorted sort_keys sort_items
    sort_fields sorted sorted_items sorted_fields encodable encode_char encode decode is_hex
    sha256_prefixed is_finite serializable json_bytes indent pretty pretty_bytes contains to_slashes
    drop_slashes drop_last_slashes strip_slashes distinct_names has_forbidden_fragment check_arcname
    normalize_arcname normalize_all validate_zip_names read file_at make_artifact_entry
    security_policy bundle_boundary manifest_body manifest_of create_bundle check_manifest
    load_manifest verify_artifact verify_all verify_artifacts extract_entries extract_step
    verify_bundle
overwrites = refl

verify_bundle-WithinBounds_example : All (WithinBounds env) zf
verify_bundle-WithinBounds_example =
    verify_bundle-WithinBounds toy env zf [] (artifact ∷ [], some extracted) verifies_bundle
