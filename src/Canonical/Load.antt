-- ===== src/Canonical/Load.antt =====
-- `load_json_text` and `validate_value`: `json.loads` with the hooks of the profile.
use delta_protocol.Prelude.{
  ℕ, zero, suc, ◌+◌, ◌*◌, Bool, true, false, ◌||◌, [], ◌∷◌, leb, ltb, ◌==◌, length, if◌then◌else◌,
  drop,
}
use delta_protocol.Text.{Text, lit, starts_with}
use delta_protocol.Json.{
  ℤ, pos, negsuc, Value, Items, Fields, null, bool, int, float, str, arr, obj, other, no_items,
  item, no_fields, field, has_key, insert,
}
use delta_protocol.Result.{Result, ok, err, ◌>>=◌, ◌>>◌, require, or_raise}
use delta_protocol.Canonical.Scan.{
  skip_space, scan_string, scan_natural, digits_value, float_follows,
}

-- `DeltaCanonicalJsonError` by its message, and the `UnicodeEncodeError` of `str.encode`.
-- `out_of_fuel` has no counterpart in the program.
pub data CanonicalError : Type 0 where
  invalid_json : CanonicalError
  float_not_allowed : CanonicalError
  constant_not_allowed : CanonicalError
  unsafe_integer : CanonicalError
  duplicate_key : CanonicalError
  unsupported_type : CanonicalError
  unicode_error : CanonicalError
  out_of_fuel : CanonicalError

abbrev pub Outcome : Type 0 → Type 0
Outcome A = Result CanonicalError A

abbrev pub max_safe_integer : ℕ
max_safe_integer = 9007199254740991

-- `MIN_SAFE_INTEGER <= i <= MAX_SAFE_INTEGER`
unfoldable pub is_safe : ℤ → Bool
is_safe (pos n) = leb n max_safe_integer
is_safe (negsuc n) = ltb n max_safe_integer

-- `_parse_int`
unfoldable pub parse_int : ℤ → Outcome Value
unfolding is_safe
parse_int i = if is_safe i then ok (int i) else err unsafe_integer

-- -n
abbrev pub negate : ℕ → ℤ
negate zero = pos zero
negate (suc n) = negsuc n

-- `_object_pairs_no_duplicates`, on the pairs that are left and the dict so far.
unfoldable pub object_pairs_no_duplicates : Fields → Fields → Outcome Fields
object_pairs_no_duplicates d no_fields = ok d
object_pairs_no_duplicates d (field k v pairs) =
    if has_key k d then err duplicate_key else object_pairs_no_duplicates (insert k v d) pairs

-- A number behind its sign, by `_parse_int`, `_reject_float` or `_reject_constant`.
unfoldable pub parse_number : (ℕ → ℤ) → Text → Outcome (Value × Text)
parse_number sign t = do
  (ds, rest) ← or_raise (scan_natural t) invalid_json
  require (if float_follows rest then false else true) float_not_allowed
  v ← parse_int (sign (digits_value 0 ds))
  ok (v, rest)

-- What a value begins with.
pub data Start : Type 0 where
  quotes bracket brace letter_n letter_t letter_f minus constant digit : Start

unfoldable pub start : ℕ → Start
start c =
    if c == 34
    then quotes
    else if c == 91
    then bracket
    else if c == 123
    then brace
    else if c == 110
    then letter_n
    else if c == 116
    then letter_t
    else if c == 102
    then letter_f
    else if c == 45
    then minus
    else if c == 78 || c == 73
    then constant
    else digit

-- `word` stands at the front of the text.
unfoldable pub expect_word : Text → Value → Text → Outcome (Value × Text)
expect_word word v t = if starts_with t word then ok (v, drop (length word) t) else err invalid_json

unfoldable pub reject_constant : Text → Text → Outcome (Value × Text)
reject_constant word t = if starts_with t word then err constant_not_allowed else err invalid_json

unfoldable pub parse_minus : Text → Outcome (Value × Text)
parse_minus [] = err invalid_json
parse_minus (c ∷ t) =
    if c == 73 then reject_constant (lit "Infinity") (c ∷ t) else parse_number negate (c ∷ t)

abbrev pub string_value : Text × Text → Outcome (Value × Text)
string_value (t, rest) = ok (str t, rest)

-- `JSONArray`, behind its bracket, given the parser of items.
unfoldable pub array_at : (Text → Outcome (Items × Text)) → Text → Outcome (Value × Text)
array_at items [] = err invalid_json
array_at items (d ∷ r) =
    if d == 93 then ok (arr no_items, r) else (items (d ∷ r) >>= λ (xs, rest). ok (arr xs, rest))

unfoldable pub items_after : (Text → Outcome (Items × Text)) → Value → Text → Outcome (Items × Text)
items_after items v [] = err invalid_json
items_after items v (d ∷ r) =
    if d == 93
    then ok (item v no_items, r)
    else if d == 44
    then (items (skip_space r) >>= λ (xs, rest). ok (item v xs, rest))
    else err invalid_json

-- `JSONObject`, behind its brace, given the parser of entries.
unfoldable pub object_at : (Text → Outcome (Fields × Text)) → Text → Outcome (Value × Text)
object_at fields [] = err invalid_json
object_at fields (d ∷ r) =
    if d == 125
    then ok (obj no_fields, r)
    else (fields (d ∷ r) >>= λ (pairs, rest).
        object_pairs_no_duplicates no_fields pairs >>= λ fs. ok (obj fs, rest))

unfoldable pub fields_after :
    (Text → Outcome (Fields × Text)) → Text → Value → Text → Outcome (Fields × Text)
fields_after fields k v [] = err invalid_json
fields_after fields k v (d ∷ r) =
    if d == 125
    then ok (field k v no_fields, r)
    else if d == 44
    then (fields (skip_space r) >>= λ (fs, rest). ok (field k v fs, rest))
    else err invalid_json

unfoldable pub colon_at :
    (Text → Outcome (Value × Text))
    → (Text → Outcome (Fields × Text))
    → Text
    → Text
    → Outcome (Fields × Text)
colon_at value fields k [] = err invalid_json
colon_at value fields k (c ∷ r) =
    if c == 58
    then (value (skip_space r) >>= λ (v, rest). fields_after fields k v (skip_space rest))
    else err invalid_json

unfoldable pub entry_at :
    (Text → Outcome (Value × Text))
    → (Text → Outcome (Fields × Text))
    → Text
    → Outcome (Fields × Text)
entry_at value fields [] = err invalid_json
entry_at value fields (q ∷ r) =
    if q == 34
    then (or_raise (scan_string r) invalid_json >>= λ (k, rest).
        colon_at value fields k (skip_space rest))
    else err invalid_json

-- `scan_once`, at a character and the text behind it.
unfoldable pub value_at :
    (Text → Outcome (Items × Text))
    → (Text → Outcome (Fields × Text))
    → Start
    → ℕ
    → Text
    → Outcome (Value × Text)
value_at items fields quotes c t = or_raise (scan_string t) invalid_json >>= string_value
value_at items fields bracket c t = array_at items (skip_space t)
value_at items fields brace c t = object_at fields (skip_space t)
value_at items fields letter_n c t = expect_word (b'n' ∷ b'u' ∷ b'l' ∷ b'l' ∷ []) null (c ∷ t)
value_at items fields letter_t c t =
    expect_word (b't' ∷ b'r' ∷ b'u' ∷ b'e' ∷ []) (bool true) (c ∷ t)
value_at items fields letter_f c t =
    expect_word (b'f' ∷ b'a' ∷ b'l' ∷ b's' ∷ b'e' ∷ []) (bool false) (c ∷ t)
value_at items fields minus c t = parse_minus t
value_at items fields constant c t =
    reject_constant (if c == 78 then lit "NaN" else lit "Infinity") (c ∷ t)
value_at items fields digit c t = parse_number pos (c ∷ t)

-- What a call leaves is no structural part of the text, so each call costs a unit of fuel.
unfoldable mutual
  pub parse_value : ℕ → Text → Outcome (Value × Text)
  parse_value zero t = err out_of_fuel
  parse_value (suc f) [] = err invalid_json
  parse_value (suc f) (c ∷ t) = value_at (parse_items f) (parse_fields f) (start c) c t

  pub parse_items : ℕ → Text → Outcome (Items × Text)
  parse_items zero t = err out_of_fuel
  parse_items (suc f) t =
      parse_value f t >>= λ (v, rest). items_after (parse_items f) v (skip_space rest)

  pub parse_fields : ℕ → Text → Outcome (Fields × Text)
  parse_fields zero t = err out_of_fuel
  parse_fields (suc f) t = entry_at (parse_value f) (parse_fields f) t

abbrev pub finish : Value × Text → Outcome Value
finish (v, rest) = elim (skip_space rest) [ [] ↦ ok v | c ∷ r ↦ err invalid_json ]

-- `load_json_text`
unfoldable pub load_json_text : Text → Outcome Value
load_json_text t = parse_value (2 * length t + 1) (skip_space t) >>= finish

-- `validate_value`
unfoldable mutual
  pub validate_value : Value → Outcome (Unit {0})
  validate_value null = ok tt
  validate_value (str t) = ok tt
  validate_value (bool b) = ok tt
  validate_value (int i) = require (is_safe i) unsafe_integer
  validate_value (float r i) = err float_not_allowed
  validate_value (arr xs) = validate_items xs
  validate_value (obj fs) = validate_fields fs
  validate_value (other n) = err unsupported_type

  pub validate_items : Items → Outcome (Unit {0})
  validate_items no_items = ok tt
  validate_items (item v xs) = validate_value v >> validate_items xs

  pub validate_fields : Fields → Outcome (Unit {0})
  validate_fields no_fields = ok tt
  validate_fields (field k v fs) = validate_value v >> validate_fields fs
