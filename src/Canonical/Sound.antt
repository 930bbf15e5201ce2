-- ===== src/Canonical/Sound.antt =====
-- What `load_json_text` accepts lies in the profile.
use delta_protocol.Prelude.{
  ℕ, zero, suc, ◌≡◌, refl, ap, true, false, ◌&&◌, [], ◌∷◌, arith, ◌==◌, if◌then◌else◌,
}
use delta_protocol.Text.{Text, starts_with}
use delta_protocol.Json.{ℤ, pos, Value, Items, Fields, null, bool, no_fields, distinct_keys}
use delta_protocol.Result.{
  ok, err, or_raise, require, Ensures, holds, raised, Ensures-ok, Ensures-bind, Ensures-bind_any,
  Ensures-if,
}
use delta_protocol.Canonical.Scan.{
  skip_space, scan_string, scan_natural, digits_value, float_follows,
}
use delta_protocol.Canonical.Load.{
  CanonicalError, invalid_json, float_not_allowed, Outcome, Start, quotes, bracket, brace, letter_n,
  letter_t, letter_f, minus, constant, digit, start, is_safe, parse_int, negate, parse_number,
  expect_word, reject_constant, parse_minus, array_at, items_after, object_at, fields_after,
  colon_at, entry_at, value_at, parse_value, parse_items, parse_fields, load_json_text, finish,
  object_pairs_no_duplicates,
}
use delta_protocol.Canonical.Plain.{is_plain, plain_items, plain_fields}
use delta_protocol.Canonical.Pairs.{pairs-eq_ok}

abbrev PlainValue : Value × Text → Type 0
PlainValue (v, r) = is_plain v ≡ true

abbrev PlainItems : Items × Text → Type 0
PlainItems (xs, r) = plain_items xs ≡ true

abbrev PlainFields : Fields × Text → Type 0
PlainFields (fs, r) = plain_fields fs ≡ true

parse_int-plain : (i : ℤ) → Ensures (λ v. is_plain v ≡ true) (parse_int i)
unfolding parse_int is_plain
parse_int-plain i = Ensures-if (is_safe i) (λ h. holds h) (λ h. raised)

parse_number-plain : (sign : ℕ → ℤ) (t : Text) → Ensures PlainValue (parse_number sign t)
unfolding parse_number
parse_number-plain sign t =
    Ensures-bind_any (or_raise (scan_natural t) invalid_json) λ (ds, rest) e.
      Ensures-bind_any (require (if float_follows rest then false else true) float_not_allowed)
        λ u k. Ensures-bind (parse_int-plain (sign (digits_value 0 ds))) λ v h. holds h

reject_constant-plain : (w t : Text) → Ensures PlainValue (reject_constant w t)
unfolding reject_constant
reject_constant-plain w t = Ensures-if (starts_with t w) (λ h. raised) (λ h. raised)

expect_word-plain :
    (w t : Text) (v : Value) → is_plain v ≡ true → Ensures PlainValue (expect_word w v t)
unfolding expect_word
expect_word-plain w t v p = Ensures-if (starts_with t w) (λ h. holds p) (λ h. raised)

parse_minus-plain : (t : Text) → Ensures PlainValue (parse_minus t)
unfolding parse_minus
parse_minus-plain [] = raised
parse_minus-plain (c ∷ t) =
    Ensures-if (c == 73) (λ h. reject_constant-plain _ _) (λ h. parse_number-plain negate (c ∷ t))

-- The parsers that take the recursive calls as functions.
module _ (items : Text → Outcome (Items × Text)) (fields : Text → Outcome (Fields × Text))
    (value : Text → Outcome (Value × Text)) (plain_i : (t : Text) → Ensures PlainItems (items t))
    (plain_f : (t : Text) → Ensures PlainFields (fields t))
    (plain_v : (t : Text) → Ensures PlainValue (value t)) where
  array_at-plain : (t : Text) → Ensures PlainValue (array_at items t)
  unfolding array_at is_plain
  array_at-plain [] = raised
  array_at-plain (d ∷ r) =
      Ensures-if (d == 93) (λ h. holds refl)
        (λ h. Ensures-bind (plain_i (d ∷ r)) λ (xs, rest) p. holds p)

  object_at-plain : (t : Text) → Ensures PlainValue (object_at fields t)
  unfolding object_at is_plain distinct_keys
  object_at-plain [] = raised
  object_at-plain (d ∷ r) =
      Ensures-if (d == 125) (λ h. holds refl)
        (λ h.
          Ensures-bind (plain_f (d ∷ r))
            λ (pairs, rest) p. Ensures-bind_any _ λ fs e. holds (object_plain pairs fs p e))
    where
      object_plain :
          (pairs fs : Fields)
          → plain_fields pairs ≡ true
          → object_pairs_no_duplicates no_fields pairs ≡ ok fs
          → (distinct_keys fs && plain_fields fs) ≡ true
      object_plain pairs fs p e =
          let (same, distinct) = pairs-eq_ok pairs fs e in ground (arith, ap plain_fields same)

  items_after-plain :
      (v : Value) (t : Text) → is_plain v ≡ true → Ensures PlainItems (items_after items v t)
  unfolding items_after is_plain
  items_after-plain v [] p = raised
  items_after-plain v (d ∷ r) p =
      Ensures-if (d == 93) (λ h. holds (ground arith))
        (λ h.
          Ensures-if (d == 44)
            (λ k. Ensures-bind (plain_i (skip_space r)) λ (xs, rest) q. holds (ground arith))
            (λ k. raised))

  fields_after-plain :
      (k : Text) (v : Value) (t : Text)
      → is_plain v ≡ true
      → Ensures PlainFields (fields_after fields k v t)
  unfolding fields_after is_plain
  fields_after-plain k v [] p = raised
  fields_after-plain k v (d ∷ r) p =
      Ensures-if (d == 125) (λ h. holds (ground arith))
        (λ h.
          Ensures-if (d == 44)
            (λ e. Ensures-bind (plain_f (skip_space r)) λ (fs, rest) q. holds (ground arith))
            (λ e. raised))

  colon_at-plain : (k t : Text) → Ensures PlainFields (colon_at value fields k t)
  unfolding colon_at
  colon_at-plain k [] = raised
  colon_at-plain k (c ∷ r) =
      Ensures-if (c == 58)
        (λ h.
          Ensures-bind (plain_v (skip_space r))
            λ (v, rest) p. fields_after-plain k v (skip_space rest) p)
        (λ h. raised)

  entry_at-plain : (t : Text) → Ensures PlainFields (entry_at value fields t)
  unfolding entry_at
  entry_at-plain [] = raised
  entry_at-plain (q ∷ r) =
      Ensures-if (q == 34)
        (λ h. Ensures-bind_any _ λ (k, rest) e. colon_at-plain k (skip_space rest)) (λ h. raised)

  value_at-plain : (s : Start) (c : ℕ) (t : Text) → Ensures PlainValue (value_at items fields s c t)
  unfolding value_at is_plain
  value_at-plain quotes c t =
      Ensures-bind_any (or_raise (scan_string t) invalid_json) λ (s, rest) e. holds refl
  value_at-plain bracket c t = array_at-plain (skip_space t)
  value_at-plain brace c t = object_at-plain (skip_space t)
  value_at-plain letter_n c t = expect_word-plain _ (c ∷ t) null refl
  value_at-plain letter_t c t = expect_word-plain _ (c ∷ t) (bool true) refl
  value_at-plain letter_f c t = expect_word-plain _ (c ∷ t) (bool false) refl
  value_at-plain minus c t = parse_minus-plain t
  value_at-plain constant c t = reject_constant-plain _ (c ∷ t)
  value_at-plain digit c t = parse_number-plain pos (c ∷ t)

mutual
  unfolding parse_value

  parse_value-plain : (f : ℕ) (t : Text) → Ensures PlainValue (parse_value f t)
  parse_value-plain zero t = raised
  parse_value-plain (suc f) [] = raised
  parse_value-plain (suc f) (c ∷ t) =
      value_at-plain (parse_items f) (parse_fields f) (parse_value f) (parse_items-plain f)
        (parse_fields-plain f) (parse_value-plain f) (start c) c t

  parse_items-plain : (f : ℕ) (t : Text) → Ensures PlainItems (parse_items f t)
  parse_items-plain zero t = raised
  parse_items-plain (suc f) t = Ensures-bind (parse_value-plain f t) λ (v, rest) p.
      items_after-plain (parse_items f) (parse_fields f) (parse_value f) (parse_items-plain f)
        (parse_fields-plain f) (parse_value-plain f) v (skip_space rest) p

  parse_fields-plain : (f : ℕ) (t : Text) → Ensures PlainFields (parse_fields f t)
  parse_fields-plain zero t = raised
  parse_fields-plain (suc f) t =
      entry_at-plain (parse_items f) (parse_fields f) (parse_value f) (parse_items-plain f)
        (parse_fields-plain f) (parse_value-plain f) t

finish_at-plain :
    (v : Value) (t : Text) → is_plain v ≡ true → Ensures (λ w. is_plain w ≡ true) (finish (v, t))
finish_at-plain v t p = at_end (skip_space t)
  where
    at_end :
        (u : Text)
        → Ensures {E = CanonicalError}
            (λ w. is_plain w ≡ true)
            (elim u [ [] ↦ ok v | c ∷ r ↦ err invalid_json ])
    at_end [] = holds p
    at_end (c ∷ r) = raised

-- A text that loads gives a value of the profile.
pub load-plain : (t : Text) (v : Value) → load_json_text t ≡ ok v → is_plain v ≡ true
unfolding load_json_text
load-plain t v h =
    Ensures-ok
      (Ensures-bind (parse_value-plain _ (skip_space t)) λ (w, rest) p. finish_at-plain w rest p) h
