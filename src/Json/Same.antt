-- ===== src/Json/Same.antt =====
-- Python's `==` of two JSON values.
use delta_protocol.Prelude.{Bool, true, false, ◌&&◌, not, Option, none, some, ◌==◌, length}
use delta_protocol.Text.{text_eq, lit}
use delta_protocol.Json.Values.{
  Value, Items, Fields, null, bool, int, float, str, arr, obj, other, no_items, item, no_fields,
  field, lookup, keys, pos, ℤ,
}
use delta_protocol.Json.Equality.{is_int}

-- A number that is no text, dict or list, where it is one.
abbrev number_of : Value → Option ℤ
number_of (int i) = some i
number_of (bool true) = some (pos 1)
number_of (bool false) = some (pos 0)
number_of (float r i) = i
number_of _ = none

-- Numbers compare by their value; a float that is no integer by its text, and `NaN` to nothing.
unfoldable pub same_number : Value → Value → Bool
same_number (float r none) (float s none) = not (text_eq r (lit "NaN")) && text_eq r s
same_number v w = elim (number_of v) [ none ↦ false | some i ↦ is_int w i ]

unfoldable mutual
  pub same_value : Value → Value → Bool
  same_value null null = true
  same_value (str s) (str t) = text_eq s t
  same_value (arr xs) (arr ys) = same_items xs ys
  same_value (obj fs) (obj gs) = length (keys fs) == length (keys gs) && same_fields fs gs
  same_value (other n) (other m) = text_eq n m
  same_value v w = same_number v w

  same_items : Items → Items → Bool
  same_items no_items no_items = true
  same_items (item v xs) (item w ys) = same_value v w && same_items xs ys
  same_items _ _ = false

  -- Every entry of the first dict has an equal one in the second.
  same_fields : Fields → Fields → Bool
  same_fields no_fields gs = true
  same_fields (field k v fs) gs =
      elim (lookup k gs) [ none ↦ false | some w ↦ same_value v w ] && same_fields fs gs
