-- ===== src/Bundle/SafeNames.antt =====
-- The names that `normalize_arcname` gives are safe, and it leaves them as they are.
use delta_protocol.Bundle.Names.{is_traversal}
use delta_protocol.Prelude.{
  ℕ, ◌≡◌, refl, ap, ◌∙◌, Bool, true, false, not, all, &&-split, [], ◌∷◌, ◌==◌, arith, if◌then◌else◌,
}
use delta_protocol.Text.{Text, lit, starts_with, text_eq, non_empty}
use delta_protocol.Result.{ok, Ensures, holds, Ensures-ok, Ensures-require}
use delta_protocol.Bundle.Names.{
  empty_name, nested_path, traversal, absolute_path, forbidden_name, contains, to_slashes,
  drop_slashes, drop_last_slashes, strip_slashes, name_or, has_forbidden_fragment, check_arcname,
  normalize_arcname,
}

-- One part of a path that is neither of the two dots, without a forbidden fragment.
pub record IsSafeName (to_lower : Text → Text) (name : Text) : Type 0 where
  pub not_empty : non_empty name ≡ true
  pub one_part : contains (lit "/") name ≡ false
  pub no_dot : text_eq name (lit ".") ≡ false
  pub no_dots : text_eq name (lit "..") ≡ false
  pub allowed : has_forbidden_fragment to_lower name ≡ false

-- Every character is another one.
abbrev pub without : ℕ → Text → Bool
without c t = all (λ x. not (x == c)) t

without-to_slashes : (t : Text) → without 92 (to_slashes t) ≡ true
unfolding to_slashes
without-to_slashes [] = refl
without-to_slashes (c ∷ t) = ground (arith, without-to_slashes t)

without-drop_slashes : (c : ℕ) (t : Text) → without c t ≡ true → without c (drop_slashes t) ≡ true
unfolding drop_slashes
without-drop_slashes c [] h = refl
without-drop_slashes c (x ∷ t) h = ground (arith, without-drop_slashes c t)

without-drop_last_slashes :
    (c : ℕ) (t : Text) → without c t ≡ true → without c (drop_last_slashes t) ≡ true
unfolding drop_last_slashes
without-drop_last_slashes c [] h = refl
without-drop_last_slashes c (x ∷ t) h =
    let (hx, ht) = &&-split (not (x == c)) (without c t) h in
    go (drop_last_slashes t) hx (without-drop_last_slashes c t ht)
  where
    go :
        (r : Text)
        → not (x == c) ≡ true
        → without c r ≡ true
        → without c (elim r [ [] ↦ if x == 47 then [] else x ∷ [] | d ∷ u ↦ x ∷ d ∷ u ]) ≡ true
    go [] p q = ground arith
    go (d ∷ u) p q = ground arith

to_slashes-without : (t : Text) → without 92 t ≡ true → to_slashes t ≡ t
unfolding to_slashes
to_slashes-without [] h = refl
to_slashes-without (c ∷ t) h = ground (arith, to_slashes-without t)

drop_slashes-without : (t : Text) → without 47 t ≡ true → drop_slashes t ≡ t
unfolding drop_slashes
drop_slashes-without [] h = refl
drop_slashes-without (c ∷ t) h = ground arith

drop_last_slashes-without : (t : Text) → without 47 t ≡ true → drop_last_slashes t ≡ t
unfolding drop_last_slashes
drop_last_slashes-without [] h = refl
drop_last_slashes-without (c ∷ []) h = ground arith
drop_last_slashes-without (c ∷ d ∷ t) h =
    let (hc, ht) = &&-split (not (c == 47)) (without 47 (d ∷ t)) h in
    rw (drop_last_slashes-without (d ∷ t) ht) refl

without-contains : (t : Text) → contains (lit "/") t ≡ false → without 47 t ≡ true
unfolding contains lit starts_with
without-contains [] h = refl
without-contains (c ∷ t) h = ground (arith, without-contains t)

name_or_self : (name : Text) → name_or name [] ≡ name
name_or_self [] = refl
name_or_self (c ∷ t) = refl

module _ (to_lower : Text → Text) where
  check_arcname-IsSafeName :
      (name : Text)
      → Ensures (λ n. (n ≡ name) × IsSafeName to_lower name) (check_arcname to_lower name)
  unfolding check_arcname
  check_arcname-IsSafeName name = Ensures-require (non_empty name) empty_name λ p1.
      Ensures-require (not (contains (lit "/") name)) nested_path λ p2.
        Ensures-require (not (is_traversal name)) traversal λ p3.
          Ensures-require (not (starts_with name (lit "/"))) absolute_path λ p4.
            Ensures-require (not (has_forbidden_fragment to_lower name)) forbidden_name λ p5.
              holds (
                refl,
                record {
                  not_empty = p1;
                  one_part = ground arith;
                  no_dot = ground arith;
                  no_dots = ground arith;
                  allowed = ground arith;
                },
              )

  -- The name that `normalize_arcname` gives is one safe part of a path.
  pub normalize_arcname-IsSafeName :
      (path_name preferred name : Text)
      → normalize_arcname to_lower path_name preferred ≡ ok name
      → IsSafeName to_lower name
  unfolding normalize_arcname
  normalize_arcname-IsSafeName path_name preferred name h =
      let stripped = strip_slashes (to_slashes (name_or preferred path_name)) in
      let (same, safe) = Ensures-ok (check_arcname-IsSafeName stripped) h in rw same safe

  stripped_self :
      (t : Text) → without 92 t ≡ true → without 47 t ≡ true → strip_slashes (to_slashes t) ≡ t
  unfolding strip_slashes
  stripped_self t p q =
      ap (λ x. drop_last_slashes (drop_slashes x)) (to_slashes-without t p)
      ∙ (ap drop_last_slashes (drop_slashes-without t q) ∙ drop_last_slashes-without t q)

  -- Normalising a normalised name gives it again.
  pub normalize_arcname-normalize_arcname :
      (path_name preferred name : Text)
      → normalize_arcname to_lower path_name preferred ≡ ok name
      → normalize_arcname to_lower [] name ≡ ok name
  unfolding normalize_arcname strip_slashes
  normalize_arcname-normalize_arcname path_name preferred name h =
      let slashes = to_slashes (name_or preferred path_name) in
      let (same, safe) = Ensures-ok (check_arcname-IsSafeName (strip_slashes slashes)) h in
      let no_backslash : without 92 name ≡ true = rw same (
        without-drop_last_slashes 92 (drop_slashes slashes)
          (without-drop_slashes 92 slashes (without-to_slashes (name_or preferred path_name)))) in
      let here : IsSafeName to_lower name = rw same safe in
      let back =
        ap (λ t. strip_slashes (to_slashes t)) (name_or_self name)
        ∙ stripped_self name no_backslash (without-contains name here.one_part) in
      ap (check_arcname to_lower) (back ∙ same) ∙ h
