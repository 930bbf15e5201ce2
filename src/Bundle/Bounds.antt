-- ===== src/Bundle/Bounds.antt =====
-- What every entry of an archive that was extracted satisfies.
use delta_protocol.Prelude.{◌≡◌, ◌≤◌, true, Option, some, List, [], ◌∷◌, leb, leb→le, All}
use delta_protocol.Json.{Value}
use delta_protocol.Result.{
  ok, Ensures, holds, Ensures-ok, Ensures-bind, Ensures-bind_any, Ensures-require, Ensures-weaken,
}
use delta_protocol.Text.{Text}
use delta_protocol.Crypto.{Crypto}
use delta_protocol.Bundle.Names.{normalize_arcname, validate_zip_names, unsafe_path, file_too_large}
use delta_protocol.Bundle.Archive.{ZipEntry, Zip, namelist, Directory, read}
use delta_protocol.Bundle.Create.{max_file_size}
use delta_protocol.Bundle.Verify.{
  Env, load_manifest, verify_artifacts, extract_entries, extract_step, verify_bundle,
}

-- An entry that is written inside the directory, and whose size is at most 25 MiB.
pub record WithinBounds (env : Env) (e : ZipEntry) : Type 0 where
  pub name : Text
  pub normalizes : normalize_arcname env.to_lower [] e.filename ≡ ok name
  pub is_inside : env.inside name ≡ true
  pub bounded : e.file_size ≤ max_file_size

module _ (c : Crypto) (env : Env) (zf : Zip) where
  extract_entries-WithinBounds :
      (es : Zip) (dir : Directory)
      → Ensures (λ out. All (WithinBounds env) es) (extract_entries env zf es dir)
  unfolding extract_entries
  extract_entries-WithinBounds [] dir = holds tt
  extract_entries-WithinBounds (e ∷ es) dir =
      Ensures-bind_any (normalize_arcname env.to_lower [] e.filename) λ name named.
        Ensures-require (env.inside name) unsafe_path λ inside.
          Ensures-require (leb e.file_size max_file_size) file_too_large λ small.
            Ensures-bind_any (read zf e.filename) λ raw there.
              Ensures-weaken (extract_entries-WithinBounds es ((name, raw) ∷ dir)) λ out rest. (
                record {
                  name = name;
                  normalizes = named;
                  is_inside = inside;
                  bounded = leb→le e.file_size max_file_size small;
                },
                rest,
              )

  -- Where an archive is verified and extracted, every entry of it, listed in the manifest or not,
  -- has a name that stays inside the directory and a declared size of at most 25 MiB.
  pub verify_bundle-WithinBounds :
      (dir : Directory) (p : List Value × Option Directory)
      → verify_bundle c env zf (some dir) ≡ ok p
      → All (WithinBounds env) zf
  unfolding verify_bundle extract_step
  verify_bundle-WithinBounds dir p run =
      Ensures-ok {P = λ (q : List Value × Option Directory). All (WithinBounds env) zf}
        (Ensures-bind_any (validate_zip_names env.to_lower (namelist zf)) λ u named.
          Ensures-bind_any (load_manifest c env zf) λ body loaded.
            Ensures-bind_any (verify_artifacts c env zf body) λ artifacts verified.
              Ensures-bind (extract_entries-WithinBounds zf dir) λ out bounds. holds bounds)
        run
