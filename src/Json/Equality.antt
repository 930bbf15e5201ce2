-- ===== src/Json/Equality.antt =====
-- Python's `==` where one side is a text or a number.
use delta_protocol.Json.Values.{Fields, dict_or_empty, as_dict}
use delta_protocol.Prelude.{Bool, true, false, Option, none, some, ◌≡◌, refl, ◌==◌, arith}
use delta_protocol.Text.{Text, text_eq, text_eq→≡}
use delta_protocol.Json.Values.{Value, null, bool, int, float, str, arr, obj, other, ℤ, pos, negsuc}

abbrev pub int_eq : ℤ → ℤ → Bool
int_eq (pos a) (pos b) = a == b
int_eq (pos a) (negsuc b) = false
int_eq (negsuc a) (pos b) = false
int_eq (negsuc a) (negsuc b) = a == b

-- `v == t` for a text `t`: only a text equals a text.
abbrev pub is_text : Value → Text → Bool
is_text (str s) t = text_eq s t
is_text _ t = false

-- `v == t` for `t` a text or `None`.
abbrev pub is_optional : Value → Option Text → Bool
is_optional null none = true
is_optional (str s) (some t) = text_eq s t
is_optional _ _ = false

-- `v == i` for an integer `i`: `True == 1`, and `1.0 == 1`.
abbrev pub is_int : Value → ℤ → Bool
is_int (int j) i = int_eq j i
is_int (bool true) i = int_eq (pos 1) i
is_int (bool false) i = int_eq (pos 0) i
is_int (float r (some j)) i = int_eq j i
is_int _ i = false

pub is_text→≡ : (v : Value) (t : Text) → is_text v t ≡ true → v ≡ str t
is_text→≡ (str s) t h = ground (arith, text_eq→≡ s t)
is_text→≡ null t h = ground arith
is_text→≡ (bool b) t h = ground arith
is_text→≡ (int i) t h = ground arith
is_text→≡ (float r i) t h = ground arith
is_text→≡ (arr xs) t h = ground arith
is_text→≡ (obj fs) t h = ground arith
is_text→≡ (other n) t h = ground arith

-- `isinstance(v, dict)`
abbrev pub is_dict : Value → Bool
is_dict (obj fs) = true
is_dict _ = false

pub is_dict→≡ : (v : Value) → is_dict v ≡ true → v ≡ obj (dict_or_empty v)
is_dict→≡ (obj fs) h = refl
is_dict→≡ null h = cc
is_dict→≡ (bool b) h = cc
is_dict→≡ (int i) h = cc
is_dict→≡ (float r i) h = cc
is_dict→≡ (str t) h = cc
is_dict→≡ (arr xs) h = cc
is_dict→≡ (other n) h = cc

pub as_dict-obj : (v : Value) (fs : Fields) → as_dict v ≡ some fs → v ≡ obj fs
as_dict-obj (obj gs) fs h = cc
as_dict-obj null fs h = cc
as_dict-obj (bool b) fs h = cc
as_dict-obj (int i) fs h = cc
as_dict-obj (float r i) fs h = cc
as_dict-obj (str t) fs h = cc
as_dict-obj (arr xs) fs h = cc
as_dict-obj (other n) fs h = cc
