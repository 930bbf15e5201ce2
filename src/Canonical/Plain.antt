-- ===== src/Canonical/Plain.antt =====
-- The values of the profile: integers in the safe range, no floats, distinct keys in every dict.
use delta_protocol.Prelude.{◌≡◌, refl, Bool, true, false, ◌&&◌, arith}
use delta_protocol.Text.{Text, text_eq-sym}
use delta_protocol.Json.{
  Value, Items, Fields, null, bool, int, float, str, arr, obj, other, no_items, item, no_fields,
  field, has_key, distinct_keys,
}
use delta_protocol.Json.Sort.{
  sort_keys, sort_items, sort_fields, insert_sorted, has_key-insert_sorted,
}
use delta_protocol.Result.{ok}
use delta_protocol.Canonical.Load.{is_safe, validate_value, validate_items, validate_fields}

unfoldable mutual
  pub is_plain : Value → Bool
  is_plain null = true
  is_plain (bool b) = true
  is_plain (int i) = is_safe i
  is_plain (float r i) = false
  is_plain (str t) = true
  is_plain (arr xs) = plain_items xs
  is_plain (obj fs) = distinct_keys fs && plain_fields fs
  is_plain (other n) = false

  pub plain_items : Items → Bool
  plain_items no_items = true
  plain_items (item v xs) = is_plain v && plain_items xs

  pub plain_fields : Fields → Bool
  plain_fields no_fields = true
  plain_fields (field k v fs) = is_plain v && plain_fields fs

-- A value of the profile passes `validate_value`.
mutual
  unfolding is_plain validate_value

  pub validate-plain : (v : Value) → is_plain v ≡ true → validate_value v ≡ ok tt
  validate-plain null h = refl
  validate-plain (bool b) h = refl
  validate-plain (int i) h = ground arith
  validate-plain (float r i) h = cc
  validate-plain (str t) h = refl
  validate-plain (arr xs) h = validate-plain_items xs h
  validate-plain (obj fs) h = ground (arith, validate-plain_fields fs)
  validate-plain (other n) h = cc

  validate-plain_items : (xs : Items) → plain_items xs ≡ true → validate_items xs ≡ ok tt
  validate-plain_items no_items h = refl
  validate-plain_items (item v xs) h = ground (arith, validate-plain v, validate-plain_items xs)

  validate-plain_fields : (fs : Fields) → plain_fields fs ≡ true → validate_fields fs ≡ ok tt
  validate-plain_fields no_fields h = refl
  validate-plain_fields (field k v fs) h =
      ground (arith, validate-plain v, validate-plain_fields fs)

-- Sorting keeps a value in the profile.
distinct-insert_sorted :
    (k : Text) (v : Value) (fs : Fields)
    → has_key k fs ≡ false
    → distinct_keys fs ≡ true
    → distinct_keys (insert_sorted k v fs) ≡ true
unfolding insert_sorted distinct_keys has_key
distinct-insert_sorted k v no_fields n d = refl
distinct-insert_sorted k v (field j w fs) n d =
    ground (arith, distinct-insert_sorted k v fs, has_key-insert_sorted j k v fs, text_eq-sym j k)

plain-insert_sorted :
    (k : Text) (v : Value) (fs : Fields)
    → is_plain v ≡ true
    → plain_fields fs ≡ true
    → plain_fields (insert_sorted k v fs) ≡ true
unfolding insert_sorted is_plain
plain-insert_sorted k v no_fields p q = ground arith
plain-insert_sorted k v (field j w fs) p q = ground (arith, plain-insert_sorted k v fs)

has_key-sort : (j : Text) (fs : Fields) → has_key j (sort_fields fs) ≡ has_key j fs
unfolding sort_keys has_key
has_key-sort j no_fields = refl
has_key-sort j (field k v fs) =
    ground (arith, has_key-insert_sorted j k (sort_keys v) (sort_fields fs), has_key-sort j fs)

distinct-sort : (fs : Fields) → distinct_keys fs ≡ true → distinct_keys (sort_fields fs) ≡ true
unfolding sort_keys distinct_keys
distinct-sort no_fields h = refl
distinct-sort (field k v fs) h = ground (
  arith,
  distinct-sort fs,
  distinct-insert_sorted k (sort_keys v) (sort_fields fs),
  has_key-sort k fs,
)

mutual
  unfolding is_plain sort_keys

  pub plain-sort : (v : Value) → is_plain v ≡ true → is_plain (sort_keys v) ≡ true
  plain-sort null h = refl
  plain-sort (bool b) h = refl
  plain-sort (int i) h = h
  plain-sort (float r i) h = h
  plain-sort (str t) h = refl
  plain-sort (arr xs) h = plain-sort_items xs h
  plain-sort (obj fs) h = ground (arith, distinct-sort fs, plain-sort_fields fs)
  plain-sort (other n) h = h

  plain-sort_items : (xs : Items) → plain_items xs ≡ true → plain_items (sort_items xs) ≡ true
  plain-sort_items no_items h = refl
  plain-sort_items (item v xs) h = ground (arith, plain-sort v, plain-sort_items xs)

  plain-sort_fields : (fs : Fields) → plain_fields fs ≡ true → plain_fields (sort_fields fs) ≡ true
  plain-sort_fields no_fields h = refl
  plain-sort_fields (field k v fs) h = ground (
    arith,
    plain-sort v,
    plain-sort_fields fs,
    plain-insert_sorted k (sort_keys v) (sort_fields fs),
  )
