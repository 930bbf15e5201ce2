-- ===== src/Bundle/Manifest.antt =====
-- What the names and the manifest of an accepted archive are.
use delta_protocol.Prelude.{
  ◌≡◌, ◌≢◌, refl, sym, ap, ◌∙◌, Bool, true, false, not, &&-split, Bool-cases, inl, inr, some, List,
  [], ◌∷◌, All, arith,
}
use delta_protocol.Text.{Text, Bytes, lit, text_eq, text_eq_refl, one_of}
use delta_protocol.Json.{Value, Fields, str, obj, get, as_dict, as_dict-obj, is_text, is_text→≡}
use delta_protocol.Json.Pretty.{pretty_bytes}
use delta_protocol.Result.{
  ok, err, or_raise, or_raise-eq-ok, Ensures, holds, raised, Ensures-intro, Ensures-bind,
  Ensures-bind_any, Ensures-require,
}
use delta_protocol.Crypto.{Crypto, sha256_prefixed}
use delta_protocol.Bundle.Names.{
  Outcome, attribute_error, manifest_not_json, manifest_profile_mismatch, manifest_body_invalid,
  bundle_profile_mismatch, body_hash_mismatch, self_check_mismatch, unencodable, manifest_name,
  distinct_names,
}
use delta_protocol.Bundle.Archive.{Zip, read}
use delta_protocol.Bundle.Verify.{Env, or_empty, manifest_value, check_manifest, load_manifest}

-- No name stands twice in the list.
abbrev pub NoRepeats : List Text → Type 0
NoRepeats [] = Unit
NoRepeats (n ∷ ns) = All (λ m. n ≢ m) ns × NoRepeats ns

one_of-absent : (n : Text) (ns : List Text) → one_of n ns ≡ false → All (λ m. n ≢ m) ns
unfolding one_of
one_of-absent n [] h = tt
one_of-absent n (m ∷ ns) h = elim (Bool-cases (text_eq n m)) [
  | inl same ↦ cc
  | inr differ ↦ (
    λ e. let equal : text_eq n m ≡ true = rw (sym e) (text_eq_refl n) in cc,
    one_of-absent n ns (rw differ at h),
  )
]

not-true : (b : Bool) → not b ≡ true → b ≡ false
not-true b h = ground arith

pub distinct_names-NoRepeats : (ns : List Text) → distinct_names ns ≡ true → NoRepeats ns
unfolding distinct_names
distinct_names-NoRepeats [] h = tt
distinct_names-NoRepeats (n ∷ ns) h =
    let (fresh, rest) = &&-split (not (one_of n ns)) (distinct_names ns) h in
    (one_of-absent n ns (not-true (one_of n ns) fresh), distinct_names-NoRepeats ns rest)

-- The archive has a manifest with this body, whose hash the manifest declares.
pub record HasManifest (c : Crypto) (env : Env) (zf : Zip) (body : Fields) : Type 0 where
  pub raw : Bytes
  pub manifest : Fields
  pub bytes : Bytes
  pub reads : read zf (lit "bundle_manifest.json") ≡ ok raw
  pub parses : env.loads raw ≡ some (obj manifest)
  pub profile : get (lit "manifest_profile") manifest ≡ str (lit "delta_bundle_v2_7_2_manifest")
  pub has_body : get (lit "manifest_body") manifest ≡ obj body
  pub body_profile : get (lit "bundle_profile") body ≡ str (lit "delta_bundle_v2_7_2")
  pub is_bytes : pretty_bytes (obj body) ≡ some bytes
  pub declares : get (lit "manifest_body_hash") manifest ≡ str (sha256_prefixed c bytes)

module _ (c : Crypto) (env : Env) (zf : Zip) where
  manifest_value-parses :
      (r : Outcome Bytes)
      → Ensures
          (λ v. (raw : Bytes) × (r ≡ ok raw) × (env.loads raw ≡ some v))
          (manifest_value env r)
  manifest_value-parses (ok b) =
      Ensures-intro (or_raise (env.loads b) manifest_not_json)
        λ v e. (b, refl, or_raise-eq-ok _ _ _ e)
  manifest_value-parses (err e) = raised

  check_manifest-HasManifest :
      (v : Value) (raw : Bytes)
      → read zf manifest_name ≡ ok raw
      → env.loads raw ≡ some v
      → Ensures (HasManifest c env zf) (check_manifest c v)
  unfolding check_manifest
  check_manifest-HasManifest v raw er ep =
      Ensures-bind_any (or_raise (as_dict v) attribute_error) λ manifest em.
        Ensures-require
          (is_text (get (lit "manifest_profile") manifest) (lit "delta_bundle_v2_7_2_manifest"))
          manifest_profile_mismatch
          λ p.
            Ensures-bind_any
              (or_raise (as_dict (get (lit "manifest_body") manifest)) manifest_body_invalid)
              λ body eb.
                Ensures-require
                  (is_text (get (lit "bundle_profile") body) (lit "delta_bundle_v2_7_2"))
                  bundle_profile_mismatch
                  λ q. Ensures-bind_any (or_raise (pretty_bytes (obj body)) unencodable) λ b ey.
                    let h = sha256_prefixed c b in
                    Ensures-require (is_text (get (lit "manifest_body_hash") manifest) h)
                      body_hash_mismatch
                      λ d. Ensures-bind_any (or_empty (get (lit "self_check") manifest)) λ s es.
                        Ensures-require (is_text (get (lit "manifest_body_hash") s) h)
                          self_check_mismatch
                          λ k. holds (record {
                            raw = raw;
                            manifest = manifest;
                            bytes = b;
                            reads = er;
                            parses =
                                ep ∙ ap some (as_dict-obj v manifest (or_raise-eq-ok _ _ _ em));
                            profile = is_text→≡ _ _ p;
                            has_body = as_dict-obj _ body (or_raise-eq-ok _ _ _ eb);
                            body_profile = is_text→≡ _ _ q;
                            is_bytes = or_raise-eq-ok _ _ _ ey;
                            declares = is_text→≡ _ h d;
                          })

  pub load_manifest-HasManifest : Ensures (HasManifest c env zf) (load_manifest c env zf)
  unfolding load_manifest
  load_manifest-HasManifest =
      Ensures-bind (manifest_value-parses (read zf manifest_name))
        λ v (raw, er, ep). check_manifest-HasManifest v raw er ep
