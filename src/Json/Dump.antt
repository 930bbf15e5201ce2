-- ===== src/Json/Dump.antt =====
-- `json.dumps(value, separators=(",", ":"), ensure_ascii=False)` of the standard library.
use delta_protocol.Prelude.{
  ℕ, zero, suc, ◌+◌, ◌/◌, ◌%◌, Bool, true, false, Option, none, some, [], ◌∷◌, ◌++◌, ltb, ◌==◌,
  if◌then◌else◌,
}
use delta_protocol.Text.{Text}
use delta_protocol.Json.Values.{
  ℤ, pos, negsuc, Value, Items, Fields, null, bool, int, float, str, arr, obj, other, no_items,
  item, no_fields, field,
}

-- The decimal digits of `n` in front of `acc`; a number has less digits than its successor.
unfoldable pub digits : ℕ → ℕ → Text → Text
digits zero n acc = acc
digits (suc f) n acc =
    let rest = digits f (n / 10) ((48 + n % 10) ∷ acc) in if ltb n 10 then (48 + n) ∷ acc else rest

unfoldable pub decimal : ℕ → Text
unfolding digits
decimal n = digits (suc n) n []

unfoldable pub dump_int : ℤ → Text
unfolding decimal
dump_int (pos n) = decimal n
dump_int (negsuc n) = b'-' ∷ decimal (n + 1)

unfoldable pub hex_digit : ℕ → ℕ
hex_digit d = if ltb d 10 then 48 + d else 87 + d

-- `ESCAPE_DCT` of the module `json.encoder`: the letter behind the backslash.
unfoldable pub short_escape : ℕ → Option ℕ
short_escape c =
    if c == 34
    then some 34
    else if c == 92
    then some 92
    else if c == 10
    then some 110
    else if c == 13
    then some 114
    else if c == 9
    then some 116
    else if c == 12
    then some 102
    else if c == 8
    then some 98
    else none

-- The characters that `ESCAPE` matches are escaped.
unfoldable pub escape_char : ℕ → Text
escape_char c = elim (short_escape c) [
  | some d ↦ 92 ∷ d ∷ []
  | none ↦
      if ltb c 32 then 92 ∷ 117 ∷ 48 ∷ 48 ∷ hex_digit (c / 16) ∷ hex_digit (c % 16) ∷ [] else c ∷ []
]

unfoldable pub escape : Text → Text
escape [] = []
escape (c ∷ t) = escape_char c ++ escape t

unfoldable pub quote : Text → Text
quote t = 34 ∷ (escape t ++ 34 ∷ [])

abbrev pub comma_unless : Bool → Text
comma_unless first = if first then [] else 44 ∷ []

-- The brackets that close a list or a dict are written by its last call.
unfoldable mutual
  pub dump : Value → Text
  dump null = b'n' ∷ b'u' ∷ b'l' ∷ b'l' ∷ []
  dump (bool true) = b't' ∷ b'r' ∷ b'u' ∷ b'e' ∷ []
  dump (bool false) = b'f' ∷ b'a' ∷ b'l' ∷ b's' ∷ b'e' ∷ []
  dump (int i) = dump_int i
  dump (float r i) = r
  dump (str t) = quote t
  dump (arr no_items) = 91 ∷ 93 ∷ []
  dump (arr (item v xs)) = 91 ∷ (dump v ++ dump_items xs)
  dump (obj no_fields) = 123 ∷ 125 ∷ []
  dump (obj (field k v fs)) = 123 ∷ (quote k ++ 58 ∷ (dump v ++ dump_fields fs))
  dump (other n) = []

  pub dump_items : Items → Text
  dump_items no_items = 93 ∷ []
  dump_items (item v xs) = 44 ∷ (dump v ++ dump_items xs)

  pub dump_fields : Fields → Text
  dump_fields no_fields = 125 ∷ []
  dump_fields (field k v fs) = 44 ∷ (quote k ++ 58 ∷ (dump v ++ dump_fields fs))
