-- ===== src/Json/Values.antt =====
-- Values, and the operations of dicts and lists.
use delta_protocol.Prelude.{
  ℕ, zero, suc, ◌≡◌, refl, Bool, true, false, ◌&&◌, ◌||◌, not, Option, none, some, List, [], ◌∷◌,
  arith, if◌then◌else◌,
}
use delta_protocol.Text.{Text, text_eq, text_eq→≡, text_eq_refl}

-- `negsuc n` is -(n + 1).
pub data ℤ : Type 0 where
  pos : ℕ → ℤ
  negsuc : ℕ → ℤ

mutual
  -- `float r i` is a float with the repr `r`, equal to the integer `i` if it is integral.
  pub data Value : Type 0 where
    null : Value
    bool : Bool → Value
    int : ℤ → Value
    float : Text → Option ℤ → Value
    str : Text → Value
    arr : Items → Value
    obj : Fields → Value
    other : Text → Value

  pub data Items : Type 0 where
    no_items : Items
    item : Value → Items → Items

  pub data Fields : Type 0 where
    no_fields : Fields
    field : Text → Value → Fields → Fields

-- A list inside a value, as a list of the model, and back.
abbrev pub elements : Items → List Value
elements no_items = []
elements (item v xs) = v ∷ elements xs

abbrev pub items_of : List Value → Items
items_of [] = no_items
items_of (v ∷ vs) = item v (items_of vs)

pub elements-items_of : (vs : List Value) → elements (items_of vs) ≡ vs
elements-items_of [] = refl
elements-items_of (v ∷ vs) = ground (arith, elements-items_of vs)

abbrev pub keys : Fields → List Text
keys no_fields = []
keys (field k v fs) = k ∷ keys fs

-- `d.get(k)`, told apart from a stored `None`.
unfoldable pub lookup : Text → Fields → Option Value
lookup k no_fields = none
lookup k (field j v fs) = if text_eq j k then some v else lookup k fs

-- `d.get(k, default)`
unfoldable pub get_or : Text → Value → Fields → Value
unfolding lookup
get_or k default fs = elim (lookup k fs) [ none ↦ default | some v ↦ v ]

-- `d.get(k)`
unfoldable pub get : Text → Fields → Value
unfolding get_or
get k fs = get_or k null fs

-- `k in d`
unfoldable pub has_key : Text → Fields → Bool
has_key k no_fields = false
has_key k (field j v fs) = text_eq j k || has_key k fs

-- `d[k] = v`
unfoldable pub insert : Text → Value → Fields → Fields
insert k v no_fields = field k v no_fields
insert k v (field j w fs) = if text_eq j k then field j v fs else field j w (insert k v fs)

-- `d.pop(k, None)`
unfoldable pub erase : Text → Fields → Fields
erase k no_fields = no_fields
erase k (field j w fs) = let rest = erase k fs in if text_eq j k then fs else field j w rest

-- No two entries of a dict have one key.
unfoldable pub distinct_keys : Fields → Bool
unfolding has_key
distinct_keys no_fields = true
distinct_keys (field k v fs) = not (has_key k fs) && distinct_keys fs

-- `isinstance(v, str)`, `dict` and `list`, with what they give.
abbrev pub as_text : Value → Option Text
as_text (str t) = some t
as_text _ = none

abbrev pub as_dict : Value → Option Fields
as_dict (obj fs) = some fs
as_dict _ = none

abbrev pub as_list : Value → Option (List Value)
as_list (arr xs) = some (elements xs)
as_list _ = none

-- `v if isinstance(v, dict) else {}`
abbrev pub dict_or_empty : Value → Fields
dict_or_empty (obj fs) = fs
dict_or_empty _ = no_fields

-- `isinstance(v, int)`: a bool is an int.
abbrev pub as_int : Value → Option ℤ
as_int (int i) = some i
as_int (bool true) = some (pos 1)
as_int (bool false) = some (pos 0)
as_int _ = none

-- The truth of a value in `if v` and `v or w`.
abbrev pub truthy : Value → Bool
truthy null = false
truthy (bool b) = b
truthy (int (pos zero)) = false
truthy (int (pos (suc n))) = true
truthy (int (negsuc n)) = true
truthy (float r (some (pos zero))) = false
truthy (float r (some (pos (suc n)))) = true
truthy (float r (some (negsuc n))) = true
truthy (float r none) = true
truthy (str []) = false
truthy (str (c ∷ t)) = true
truthy (arr no_items) = false
truthy (arr (item v xs)) = true
truthy (obj no_fields) = false
truthy (obj (field k v fs)) = true
truthy (other n) = true

pub lookup-insert :
    (k j : Text) (v : Value) (fs : Fields)
    → lookup j (insert k v fs) ≡ (if text_eq k j then some v else lookup j fs)
unfolding lookup insert
lookup-insert k j v no_fields = refl
lookup-insert k j v (field i w fs) =
    ground
      (arith, lookup-insert k j v fs, text_eq→≡ i k, text_eq→≡ i j, text_eq→≡ k j, text_eq_refl k)
