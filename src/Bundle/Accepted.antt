-- ===== src/Bundle/Accepted.antt =====
-- What an archive that `verify_bundle` accepts holds, and what it extracts.
use delta_protocol.Bundle.Artifacts.{
  ArtifactAccepted, ArtifactsAccepted, no_artifacts, one_artifact, verify_artifacts-accepts,
}
use delta_protocol.Bundle.Manifest.{
  NoRepeats, HasManifest, distinct_names-NoRepeats, load_manifest-HasManifest,
}
use delta_protocol.Bundle.Verify.{extract_step}
use mathlib.Core.Option.{some-injective}
use delta_protocol.Prelude.{leb→le, All}
use delta_protocol.Prelude.{ℕ, ◌≤◌, ◌≡◌, refl, ap, ◌∙◌, true, Option, none, some, List, [], ◌∷◌}
use delta_protocol.Text.{lit, one_of}
use delta_protocol.Json.{Value, Fields, get, as_list}
use delta_protocol.Result.{
  ok, Ensures, holds, Ensures-ok, Ensures-bind, Ensures-bind_any, Ensures-require, Ensures-intro,
}
use delta_protocol.Crypto.{Crypto}
use delta_protocol.Bundle.Names.{
  duplicate_names, missing_manifest, manifest_name, normalize_all, distinct_names,
  validate_zip_names,
}
use delta_protocol.Bundle.Archive.{Zip, namelist, Directory, file_at}
use delta_protocol.Bundle.Create.{max_total_size}
use delta_protocol.Bundle.Verify.{Env, some_artifacts, safe_extract, verify_bundle}
use delta_protocol.Bundle.Extracted.{all_normal, extract_entries-writes}

-- An accepted archive: distinct names, and a manifest that lists the artifacts, at least one,
-- whose data are at most 100 MiB in all.
pub record ArchiveAccepted (c : Crypto) (env : Env) (zf : Zip) (artifacts : List Value)
    : Type 0 where
  pub total : ℕ
  pub body : Fields
  pub first : Value
  pub others : List Value
  pub no_repeats : NoRepeats (namelist zf)
  pub distinct : distinct_names (namelist zf) ≡ true
  pub has_manifest : HasManifest c env zf body
  pub lists : as_list (get (lit "artifacts") body) ≡ some artifacts
  pub present : artifacts ≡ first ∷ others
  pub accepted : ArtifactsAccepted c env zf artifacts total
  pub bounded : total ≤ 104857600

some_artifacts→≡ :
    (vs : List Value) → some_artifacts vs ≡ true → (v : Value) × (ws : List Value) × (vs ≡ v ∷ ws)
some_artifacts→≡ [] h = cc
some_artifacts→≡ (v ∷ vs) h = (v, vs, refl)

module _ (c : Crypto) (env : Env) (zf : Zip) where
  validate_zip_names-distinct :
      Ensures
        (λ u. distinct_names (namelist zf) ≡ true)
        (validate_zip_names env.to_lower (namelist zf))
  unfolding validate_zip_names
  validate_zip_names-distinct =
      Ensures-require (distinct_names (namelist zf)) duplicate_names λ distinct.
        Ensures-require (one_of manifest_name (namelist zf)) missing_manifest
          λ there. Ensures-intro (normalize_all env.to_lower (namelist zf)) λ u e. distinct

  extract_step-artifacts :
      (vs : List Value) (to : Option Directory)
      → ArchiveAccepted c env zf vs
      → Ensures
          (λ (p : List Value × Option Directory). ArchiveAccepted c env zf p.0)
          (extract_step env zf vs to)
  unfolding extract_step
  extract_step-artifacts vs none h = holds h
  extract_step-artifacts vs (some dir) h =
      Ensures-bind_any (safe_extract env zf dir) λ out e. holds h

  verify_bundle-step :
      (to : Option Directory) {P : List Value × Option Directory → Type 0}
      → ((vs : List Value) → ArchiveAccepted c env zf vs → Ensures P (extract_step env zf vs to))
      → Ensures P (verify_bundle c env zf to)
  unfolding verify_bundle
  verify_bundle-step to k = Ensures-bind validate_zip_names-distinct λ u distinct.
      Ensures-bind (load_manifest-HasManifest c env zf) λ body has_manifest.
        Ensures-bind (verify_artifacts-accepts c env zf body)
          λ vs (total, lists, present, accepted, bounded).
            let (v, ws, same) = some_artifacts→≡ vs present in
            k vs (record {
              total = total;
              body = body;
              first = v;
              others = ws;
              no_repeats = distinct_names-NoRepeats (namelist zf) distinct;
              distinct = distinct;
              has_manifest = has_manifest;
              lists = lists;
              present = same;
              accepted = accepted;
              bounded = leb→le total max_total_size bounded;
            })

  -- An archive that is accepted has no name twice, and a manifest that declares the hash of its
  -- body. The body lists the artifacts, at least one; the data that the archive holds under the name
  -- of each has the hash and the size that the manifest declares, and the sum of the sizes of the
  -- listed artifacts is at most 100 MiB.
  pub verify_bundle-ArchiveAccepted :
      (extract_to extracted : Option Directory) (artifacts : List Value)
      → verify_bundle c env zf extract_to ≡ ok (artifacts, extracted)
      → ArchiveAccepted c env zf artifacts
  verify_bundle-ArchiveAccepted extract_to extracted artifacts run =
      Ensures-ok (verify_bundle-step extract_to λ vs h. extract_step-artifacts vs extract_to h) run

  -- The artifact's file is in the directory, with the data that was checked.
  pub ArtifactExtracted : Directory → Value → Type 0
  ArtifactExtracted out v =
      (a : ArtifactAccepted c env zf v) × (file_at out a.filename ≡ some a.raw)

  ArtifactsAccepted-extracted :
      {vs : List Value} {total : ℕ} (dir out : Directory)
      → all_normal env.to_lower (namelist zf) ≡ true
      → distinct_names (namelist zf) ≡ true
      → safe_extract env zf dir ≡ ok out
      → ArtifactsAccepted c env zf vs total
      → All (ArtifactExtracted out) vs
  unfolding ArtifactExtracted
  ArtifactsAccepted-extracted dir out n d run no_artifacts = tt
  ArtifactsAccepted-extracted dir out n d run (one_artifact a rest) = (
    (
      a,
      Ensures-ok (extract_entries-writes env zf zf dir a.filename a.raw n d a.listed a.reads) run,
    ),
    ArtifactsAccepted-extracted dir out n d run rest,
  )

  extract_step-extracts :
      (vs : List Value) (dir : Directory)
      → all_normal env.to_lower (namelist zf) ≡ true
      → ArchiveAccepted c env zf vs
      → Ensures
          (λ (p : List Value × Option Directory).
            (out : Directory) → p.1 ≡ some out → All (ArtifactExtracted out) p.0)
          (extract_step env zf vs (some dir))
  unfolding extract_step
  extract_step-extracts vs dir n h = Ensures-bind_any (safe_extract env zf dir) λ out e.
      holds λ o same.
        ArtifactsAccepted-extracted dir o n h.distinct (e ∙ ap ok (some-injective out o same))
          h.accepted

  -- Where every name of an accepted archive is a normalised one, the directory holds after the
  -- extraction, for each artifact, a file of its name with the data that was checked against the
  -- manifest.
  pub verify_bundle-extracts :
      (dir out : Directory) (artifacts : List Value)
      → all_normal env.to_lower (namelist zf) ≡ true
      → verify_bundle c env zf (some dir) ≡ ok (artifacts, some out)
      → All (ArtifactExtracted out) artifacts
  verify_bundle-extracts dir out artifacts n run =
      Ensures-ok (verify_bundle-step (some dir) λ vs h. extract_step-extracts vs dir n h) run out
        refl
