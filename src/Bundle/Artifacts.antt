-- ===== src/Bundle/Artifacts.antt =====
-- What the artifacts of an accepted archive are.
use delta_protocol.Prelude.{ℕ, ◌+◌, ◌≡◌, refl, true, ◌&&◌, some, List, [], ◌∷◌, length, leb}
use delta_protocol.Text.{Text, Bytes, lit, one_of}
use delta_protocol.Json.{
  Value, Fields, null, bool, int, float, str, arr, obj, other, pos, get, as_text, as_dict, as_list,
  is_text, is_int, is_text→≡, truthy,
}
use delta_protocol.Result.{
  ok, or_raise, or_raise-eq-ok, Ensures, holds, Ensures-bind, Ensures-bind_any, Ensures-require,
}
use delta_protocol.Crypto.{Crypto, sha256_prefixed}
use delta_protocol.Bundle.Names.{
  invalid_artifact, incomplete_artifact, type_error, artifact_not_in_zip, artifact_hash_mismatch,
  artifact_size_mismatch, artifacts_missing, total_size_exceeded, normalize_arcname,
}
use delta_protocol.Bundle.Archive.{Zip, namelist, read}
use delta_protocol.Bundle.Create.{max_total_size}
use delta_protocol.Bundle.Verify.{
  Env, verify_artifact, verify_all, some_artifacts, verify_artifacts,
}

-- An artifact of the manifest: the data of its file has the declared hash and size.
pub record ArtifactAccepted (c : Crypto) (env : Env) (zf : Zip) (v : Value) : Type 0 where
  pub artifact : Fields
  pub declared : Text
  pub filename : Text
  pub raw : Bytes
  pub is_artifact : as_dict v ≡ some artifact
  pub names : get (lit "filename") artifact ≡ str declared
  pub normalized : normalize_arcname env.to_lower [] declared ≡ ok filename
  pub listed : one_of filename (namelist zf) ≡ true
  pub reads : read zf filename ≡ ok raw
  pub hash : get (lit "sha256") artifact ≡ str (sha256_prefixed c raw)
  pub size : is_int (get (lit "size_bytes") artifact) (pos (length raw)) ≡ true

as_text→≡ : (v : Value) (t : Text) → as_text v ≡ some t → v ≡ str t
as_text→≡ (str s) t h = cc
as_text→≡ null t h = cc
as_text→≡ (bool b) t h = cc
as_text→≡ (int i) t h = cc
as_text→≡ (float r i) t h = cc
as_text→≡ (arr xs) t h = cc
as_text→≡ (obj fs) t h = cc
as_text→≡ (other n) t h = cc

-- Accepted artifacts in order, with the sum of their sizes.
pub data ArtifactsAccepted (c : Crypto) (env : Env) (zf : Zip) : List Value → ℕ → Type 0 where
  no_artifacts : ArtifactsAccepted c env zf [] 0
  one_artifact :
      {v : Value} {vs : List Value} {rest : ℕ}
      → (a : ArtifactAccepted c env zf v) → ArtifactsAccepted c env zf vs rest
      → ArtifactsAccepted c env zf (v ∷ vs) (length a.raw + rest)

module _ (c : Crypto) (env : Env) (zf : Zip) where
  verify_artifact-accepts :
      (v : Value)
      → Ensures
          (λ n. (a : ArtifactAccepted c env zf v) × (n ≡ length a.raw))
          (verify_artifact c env zf v)
  unfolding verify_artifact
  verify_artifact-accepts v =
      Ensures-bind_any (or_raise (as_dict v) invalid_artifact) λ artifact e1.
        Ensures-require
          (truthy (get (lit "role") artifact)
            && (truthy (get (lit "filename") artifact) && truthy (get (lit "sha256") artifact)))
          incomplete_artifact
          λ complete.
            Ensures-bind_any (or_raise (as_text (get (lit "filename") artifact)) type_error)
              λ declared e2.
                Ensures-bind_any (normalize_arcname env.to_lower [] declared) λ filename e3.
                  Ensures-require (one_of filename (namelist zf)) artifact_not_in_zip λ listed.
                    Ensures-bind_any (read zf filename) λ raw e4.
                      Ensures-require
                        (is_text (get (lit "sha256") artifact) (sha256_prefixed c raw))
                        artifact_hash_mismatch
                        λ hash.
                          Ensures-require
                            (is_int (get (lit "size_bytes") artifact) (pos (length raw)))
                            artifact_size_mismatch
                            λ size. holds (
                              record {
                                artifact = artifact;
                                declared = declared;
                                filename = filename;
                                raw = raw;
                                is_artifact =
                                    or_raise-eq-ok (as_dict v) invalid_artifact artifact e1;
                                names = as_text→≡ (get (lit "filename") artifact) declared (
                                    or_raise-eq-ok (as_text (get (lit "filename") artifact))
                                      type_error declared e2);
                                normalized = e3;
                                listed = listed;
                                reads = e4;
                                hash =
                                    is_text→≡ (get (lit "sha256") artifact) (sha256_prefixed c raw)
                                      hash;
                                size = size;
                              },
                              refl,
                            )

  verify_all-accepts :
      (vs : List Value) → Ensures (ArtifactsAccepted c env zf vs) (verify_all c env zf vs)
  unfolding verify_all
  verify_all-accepts [] = holds no_artifacts
  verify_all-accepts (v ∷ vs) = Ensures-bind (verify_artifact-accepts v) λ n (a, same).
      Ensures-bind (verify_all-accepts vs)
        λ rest accepted. holds (rw same (one_artifact a accepted))

  pub verify_artifacts-accepts :
      (body : Fields)
      → Ensures
          (λ vs.
            (total : ℕ) × (as_list (get (lit "artifacts") body) ≡ some vs)
            × (some_artifacts vs ≡ true)
            × ArtifactsAccepted c env zf vs total
            × (leb total max_total_size ≡ true))
          (verify_artifacts c env zf body)
  unfolding verify_artifacts
  verify_artifacts-accepts body =
      Ensures-bind_any (or_raise (as_list (get (lit "artifacts") body)) artifacts_missing) λ vs e.
        Ensures-require (some_artifacts vs) artifacts_missing λ present.
          Ensures-bind (verify_all-accepts vs) λ total accepted.
            Ensures-require (leb total max_total_size) total_size_exceeded
              λ bounded. holds (total, or_raise-eq-ok _ _ _ e, present, accepted, bounded)
