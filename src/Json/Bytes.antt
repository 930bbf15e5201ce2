-- ===== src/Json/Bytes.antt =====
-- `json.dumps(value, sort_keys=True, separators=(",", ":"), ensure_ascii=False, ...).encode("utf-8")`,
-- which most tools call with no check of the value in front of it.
use delta_protocol.Prelude.{
  Bool, true, false, not, ◌&&◌, ◌||◌, Option, none, [], ◌∷◌, if◌then◌else◌,
}
use delta_protocol.Text.{Text, Bytes, lit, one_of}
use delta_protocol.Utf8.{encode}
use delta_protocol.Json.Values.{
  Value, Items, Fields, null, bool, int, float, str, arr, obj, other, no_items, item, no_fields,
  field,
}
use delta_protocol.Json.Dump.{dump}
use delta_protocol.Json.Sort.{sort_keys}

unfoldable pub is_finite : Text → Bool
is_finite r = not (one_of r (lit "NaN" ∷ lit "Infinity" ∷ lit "-Infinity" ∷ []))

-- No `TypeError` for an object that JSON has no form for, and no `ValueError` of `allow_nan=False`.
unfoldable mutual
  pub serializable : Bool → Value → Bool
  serializable allow_nan null = true
  serializable allow_nan (bool b) = true
  serializable allow_nan (int i) = true
  serializable allow_nan (float r i) = allow_nan || is_finite r
  serializable allow_nan (str t) = true
  serializable allow_nan (arr xs) = serializable_items allow_nan xs
  serializable allow_nan (obj fs) = serializable_fields allow_nan fs
  serializable allow_nan (other n) = false

  serializable_items : Bool → Items → Bool
  serializable_items allow_nan no_items = true
  serializable_items allow_nan (item v xs) =
      serializable allow_nan v && serializable_items allow_nan xs

  serializable_fields : Bool → Fields → Bool
  serializable_fields allow_nan no_fields = true
  serializable_fields allow_nan (field k v fs) =
      serializable allow_nan v && serializable_fields allow_nan fs

-- `none` is an exception of `json.dumps` or of `str.encode`.
unfoldable pub json_bytes : Bool → Value → Option Bytes
json_bytes allow_nan v = if serializable allow_nan v then encode (dump (sort_keys v)) else none
