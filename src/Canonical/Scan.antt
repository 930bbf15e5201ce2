-- ===== src/Canonical/Scan.antt =====
-- The lexical part of `json.loads`: white space, strings and numbers.
use delta_protocol.Prelude.{
  ℕ, zero, suc, ◌+◌, ◌-◌, ◌*◌, Bool, false, ◌&&◌, ◌||◌, Option, none, some, List, [], ◌∷◌, ltb, leb,
  ◌==◌, if◌then◌else◌,
}
use delta_protocol.Text.{Text}

-- `WHITESPACE`: space, tab, line feed, carriage return.
unfoldable pub is_space : ℕ → Bool
is_space c = c == 32 || (c == 9 || (c == 10 || c == 13))

unfoldable pub skip_space : Text → Text
unfolding is_space
skip_space [] = []
skip_space (c ∷ t) = if is_space c then skip_space t else c ∷ t

-- A piece of a string: a character as it stands, or the code of a `\u` escape.
pub data Piece : Type 0 where
  raw : ℕ → Piece
  unit : ℕ → Piece

-- Where the scanner stands: between characters, behind a backslash, or in the hexadecimal digits
-- of a `\u` escape with the number of digits left and the value so far.
pub data Mode : Type 0 where
  plain : Mode
  escaped : Mode
  hex : ℕ → ℕ → Mode

unfoldable pub hex_value : ℕ → Option ℕ
hex_value c =
    if leb 48 c && leb c 57
    then some (c - 48)
    else if leb 97 c && leb c 102
    then some (c - 87)
    else if leb 65 c && leb c 70
    then some (c - 55)
    else none

-- `BACKSLASH` of `json.decoder`.
unfoldable pub backslash : ℕ → Option ℕ
backslash c =
    if c == 34
    then some 34
    else if c == 92
    then some 92
    else if c == 47
    then some 47
    else if c == 98
    then some 8
    else if c == 102
    then some 12
    else if c == 110
    then some 10
    else if c == 114
    then some 13
    else if c == 116
    then some 9
    else none

abbrev pub push : Piece → Option (List Piece × Text) → Option (List Piece × Text)
push p none = none
push p (some (ps, rest)) = some (p ∷ ps, rest)

-- The pieces of a string up to its closing quote, and the text behind it.
unfoldable pub scan_pieces : Mode → Text → Option (List Piece × Text)
unfolding hex_value backslash
scan_pieces m [] = none
scan_pieces plain (c ∷ t) =
    let close = some ([], t) in
    let escape = scan_pieces escaped t in
    let more = push (raw c) (scan_pieces plain t) in
    if c == 34 then close else if c == 92 then escape else if ltb c 32 then none else more
scan_pieces escaped (c ∷ t) =
    let unicode = scan_pieces (hex 3 0) t in
    let more = scan_pieces plain t in
    if c == 117 then unicode else elim (backslash c) [ none ↦ none | some d ↦ push (raw d) more ]
scan_pieces (hex zero acc) (c ∷ t) =
    let more = scan_pieces plain t in
    elim (hex_value c) [ none ↦ none | some d ↦ push (unit (16 * acc + d)) more ]
scan_pieces (hex (suc n) acc) (c ∷ t) = elim (hex_value c) [
  | none ↦ none
  | some d ↦ scan_pieces (hex n (16 * acc + d)) t
]

abbrev is_high : ℕ → Bool
is_high u = leb 0xd800 u && leb u 0xdbff

abbrev is_low : ℕ → Bool
is_low u = leb 0xdc00 u && leb u 0xdfff

-- Two `\u` escapes of a surrogate pair are one character; other surrogates stay.
unfoldable pub join_pieces : List Piece → Text
join_pieces [] = []
join_pieces (raw c ∷ ps) = c ∷ join_pieces ps
join_pieces (unit u ∷ []) = u ∷ []
join_pieces (unit u ∷ raw c ∷ ps) = u ∷ c ∷ join_pieces ps
join_pieces (unit u ∷ unit w ∷ ps) =
    let pair = (0x10000 + (u - 0xd800) * 0x400 + (w - 0xdc00)) ∷ join_pieces ps in
    let apart = u ∷ join_pieces (unit w ∷ ps) in if is_high u && is_low w then pair else apart

-- `scanstring`, behind the opening quote.
unfoldable pub scan_string : Text → Option (Text × Text)
scan_string t = elim (scan_pieces plain t) [
  | none ↦ none
  | some (ps, rest) ↦ some (join_pieces ps, rest)
]

unfoldable pub is_digit : ℕ → Bool
is_digit c = leb 48 c && leb c 57

abbrev pub cons_digit : ℕ → Text × Text → Text × Text
cons_digit c (ds, rest) = (c ∷ ds, rest)

unfoldable pub span_digits : Text → Text × Text
unfolding is_digit
span_digits [] = ([], [])
span_digits (c ∷ t) = if is_digit c then cons_digit c (span_digits t) else ([], c ∷ t)

-- `0|[1-9][0-9]*`, with the text behind it.
unfoldable pub scan_natural : Text → Option (Text × Text)
scan_natural [] = none
scan_natural (c ∷ t) =
    if c == 48 then some (48 ∷ [], t) else if is_digit c then some (span_digits (c ∷ t)) else none

-- The value of decimal digits behind a value so far.
unfoldable pub digits_value : ℕ → Text → ℕ
digits_value acc [] = acc
digits_value acc (d ∷ ds) = digits_value (acc * 10 + (d - 48)) ds

starts_with_digit : Text → Bool
starts_with_digit [] = false
starts_with_digit (c ∷ t) = is_digit c

exponent_digits : Text → Bool
unfolding starts_with_digit
exponent_digits [] = false
exponent_digits (c ∷ t) = if c == 43 || c == 45 then starts_with_digit t else is_digit c

-- A fraction or an exponent follows, so that the number is a float.
unfoldable pub float_follows : Text → Bool
unfolding starts_with_digit exponent_digits is_digit
float_follows [] = false
float_follows (c ∷ t) =
    if c == 46 then starts_with_digit t else (c == 101 || c == 69) && exponent_digits t
