-- ===== src/Bundle/Extracted.antt =====
-- What `safe_extract` writes, where every name of the archive is a normalised one.
use delta_protocol.Prelude.{
  ◌≡◌, ◌≢◌, refl, sym, ap, ◌∙◌, Bool, true, false, ◌&&◌, not, &&-split, Bool-cases, inl, inr, some,
  List, [], ◌∷◌, arith, leb,
}
use delta_protocol.Text.{Text, Bytes, one_of, text_eq, text_eq→≡, text_eq_refl, text_eq-sym}
use delta_protocol.Result.{
  ok, err, ok-injective, Ensures, holds, Ensures-bind_any, Ensures-require, Ensures-weaken,
}
use delta_protocol.Bundle.Names.{unsafe_path, file_too_large, normalize_arcname, distinct_names}
use delta_protocol.Bundle.Archive.{Zip, namelist, read, Directory, file_at}
use delta_protocol.Bundle.Create.{max_file_size}
use delta_protocol.Bundle.Verify.{Env, extract_entries}

-- The name is what it normalises to.
unfoldable pub is_normal : (Text → Text) → Text → Bool
is_normal to_lower name = elim (normalize_arcname to_lower [] name) [
  | ok n ↦ text_eq n name
  | err e ↦ false
]

unfoldable pub all_normal : (Text → Text) → List Text → Bool
all_normal to_lower [] = true
all_normal to_lower (n ∷ ns) = is_normal to_lower n && all_normal to_lower ns

is_normal-eq-ok :
    (to_lower : Text → Text) (name n : Text)
    → is_normal to_lower name ≡ true
    → normalize_arcname to_lower [] name ≡ ok n
    → n ≡ name
unfolding is_normal
is_normal-eq-ok to_lower name n h e = text_eq→≡ n name (rw (e, is_normal) at h)

not-true : (b : Bool) → not b ≡ true → b ≡ false
not-true true h = cc
not-true false h = refl

none_listed : (name : Text) → one_of name [] ≢ true
unfolding one_of
none_listed name h = cc

later_ne :
    (n name : Text) (es : Zip)
    → one_of name (n ∷ namelist es) ≡ false
    → one_of name (namelist es) ≡ false
unfolding one_of
later_ne n name es h = ground arith

first_ne :
    (n name : Text) (es : Zip) → one_of name (n ∷ namelist es) ≡ false → text_eq name n ≡ false
unfolding one_of
first_ne n name es h = ground arith

listed_later :
    (n name : Text) (es : Zip)
    → one_of name (n ∷ namelist es) ≡ true
    → text_eq name n ≡ false
    → one_of name (namelist es) ≡ true
unfolding one_of
listed_later n name es h k = ground arith

written_ne :
    (n name : Text) (raw : Bytes) (dir : Directory)
    → text_eq n name ≡ false
    → file_at ((n, raw) ∷ dir) name ≡ file_at dir name
unfolding file_at
written_ne n name raw dir h = rw h refl

written :
    (n name : Text) (raw : Bytes) (dir : Directory)
    → n ≡ name
    → file_at ((n, raw) ∷ dir) name ≡ some raw
unfolding file_at
written n name raw dir h =
    let same : text_eq n name ≡ true = ap (λ t. text_eq t name) h ∙ text_eq_refl name in
    rw same refl

module _ (env : Env) (zf : Zip) where
  -- A file that no entry names stays as it is.
  extract_entries-keeps :
      (es : Zip) (dir : Directory) (name : Text)
      → all_normal env.to_lower (namelist es) ≡ true
      → one_of name (namelist es) ≡ false
      → Ensures (λ out. file_at out name ≡ file_at dir name) (extract_entries env zf es dir)
  unfolding extract_entries all_normal
  extract_entries-keeps [] dir name p q = holds refl
  extract_entries-keeps (e ∷ es) dir name p q =
      let (normal, rest) =
        &&-split (is_normal env.to_lower e.filename) (all_normal env.to_lower (namelist es)) p in
      Ensures-bind_any (normalize_arcname env.to_lower [] e.filename) λ n en.
        Ensures-require (env.inside n) unsafe_path λ i.
          Ensures-require (leb e.file_size max_file_size) file_too_large λ s.
            Ensures-bind_any (read zf e.filename) λ raw er.
              let at_n : n ≡ e.filename = is_normal-eq-ok env.to_lower e.filename n normal en in
              let another : text_eq n name ≡ false =
                ap (λ t. text_eq t name) at_n
                ∙ (text_eq-sym e.filename name ∙ first_ne e.filename name es q) in
              Ensures-weaken
                (extract_entries-keeps es ((n, raw) ∷ dir) name rest
                  (later_ne e.filename name es q))
                λ out k. k ∙ written_ne n name raw dir another

  -- A file that an entry names has the data of the entry of this name.
  pub extract_entries-writes :
      (es : Zip) (dir : Directory) (name : Text) (b : Bytes)
      → all_normal env.to_lower (namelist es) ≡ true
      → distinct_names (namelist es) ≡ true
      → one_of name (namelist es) ≡ true
      → read zf name ≡ ok b
      → Ensures (λ out. file_at out name ≡ some b) (extract_entries env zf es dir)
  unfolding extract_entries all_normal distinct_names
  extract_entries-writes [] dir name b p d q r = absurd (none_listed name q)
  extract_entries-writes (e ∷ es) dir name b p d q r =
      let (normal, rest) =
        &&-split (is_normal env.to_lower e.filename) (all_normal env.to_lower (namelist es)) p in
      let (fresh, distinct) =
        &&-split (not (one_of e.filename (namelist es))) (distinct_names (namelist es)) d in
      Ensures-bind_any (normalize_arcname env.to_lower [] e.filename) λ n en.
        Ensures-require (env.inside n) unsafe_path λ i.
          Ensures-require (leb e.file_size max_file_size) file_too_large λ s.
            Ensures-bind_any (read zf e.filename) λ raw er.
              elim (Bool-cases (text_eq name e.filename)) [
                | inr other ↦
                    extract_entries-writes es ((n, raw) ∷ dir) name b rest distinct
                      (listed_later e.filename name es q other) r
                | inl here ↦
                    let same : name ≡ e.filename = text_eq→≡ name e.filename here in
                    let at_n : n ≡ name =
                      is_normal-eq-ok env.to_lower e.filename n normal en ∙ sym same in
                    let gone : one_of name (namelist es) ≡ false =
                      ap (λ t. one_of t (namelist es)) same
                      ∙ not-true (one_of e.filename (namelist es)) fresh in
                    let one_raw : raw ≡ b =
                      ok-injective raw b (sym er ∙ (ap (read zf) (sym same) ∙ r)) in
                    Ensures-weaken (extract_entries-keeps es ((n, raw) ∷ dir) name rest gone)
                      λ out k. k ∙ (written n name raw dir at_n ∙ ap some one_raw)
              ]
