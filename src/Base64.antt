-- ===== src/Base64.antt =====
-- `base64.urlsafe_b64encode` and `base64.urlsafe_b64decode` of the standard library, with the
-- padding that the tools take off and put back.
pub mod RoundTrip
use delta_protocol.Prelude.{
  ℕ, zero, suc, ◌+◌, ◌-◌, ◌*◌, ◌/◌, ◌%◌, Bool, true, ◌&&◌, ◌||◌, Option, none, some, [], ◌∷◌, ◌++◌,
  length, ltb, leb, ◌==◌, if◌then◌else◌,
}
use delta_protocol.Text.{Text, Bytes}

-- The alphabet with `-` and `_`.
unfoldable pub digit_char : ℕ → ℕ
digit_char d =
    if ltb d 26
    then 65 + d
    else if ltb d 52
    then 71 + d
    else if ltb d 62
    then d - 4
    else if d == 62
    then b'-'
    else b'_'

-- `base64.urlsafe_b64encode(data).decode("ascii").rstrip("=")`
unfoldable pub b64url_encode : Bytes → Text
unfolding digit_char
b64url_encode [] = []
b64url_encode (a ∷ []) = digit_char (a / 4) ∷ digit_char (a % 4 * 16) ∷ []
b64url_encode (a ∷ b ∷ []) =
    digit_char (a / 4) ∷ digit_char (a % 4 * 16 + b / 16) ∷ digit_char (b % 16 * 4) ∷ []
b64url_encode (a ∷ b ∷ c ∷ rest) =
    digit_char (a / 4)
    ∷ digit_char (a % 4 * 16 + b / 16)
    ∷ digit_char (b % 16 * 4 + c / 64)
    ∷ digit_char (c % 64)
    ∷ b64url_encode rest

-- The value of a character after `-` and `_` are translated to `+` and `/`.
unfoldable pub char_digit : ℕ → Option ℕ
char_digit c =
    if leb 65 c && leb c 90
    then some (c - 65)
    else if leb 97 c && leb c 122
    then some (c - 71)
    else if leb 48 c && leb c 57
    then some (c + 4)
    else if c == b'-' || c == b'+'
    then some 62
    else if c == b'_' || c == b'/'
    then some 63
    else none

abbrev pub cons? : ℕ → Option Bytes → Option Bytes
cons? b none = none
cons? b (some bs) = some (b ∷ bs)

-- `binascii.a2b_base64` in its lenient mode: the place in the group of four, the bits left over,
-- and the padding characters just read. What is no digit is skipped; enough padding ends the data.
unfoldable pub a2b : ℕ → ℕ → ℕ → Text → Option Bytes
unfolding char_digit
a2b zero left pads [] = some []
a2b (suc quad) left pads [] = none
a2b quad left pads (c ∷ t) =
    let padded = a2b quad left (pads + 1) t in
    let skipped = a2b quad left pads t in
    if c == b'='
    then (if leb 2 quad && leb 4 (quad + pads + 1) then some [] else padded)
    else elim (char_digit c) [
      | none ↦ skipped
      | some d ↦
          let first = a2b 1 d 0 t in
          let second = cons? (left * 4 + d / 16) (a2b 2 (d % 16) 0 t) in
          let third = cons? (left * 16 + d / 4) (a2b 3 (d % 4) 0 t) in
          let fourth = cons? (left * 64 + d) (a2b 0 0 0 t) in
          if quad == 0
          then first
          else if quad == 1
          then second
          else if quad == 2
          then third
          else fourth
    ]

-- `"=" * ((4 - len(value) % 4) % 4)`
unfoldable pub padding : Text → Text
padding value =
    let r = length value % 4 in
    if r == 0
    then []
    else if r == 1
    then 61 ∷ 61 ∷ 61 ∷ []
    else if r == 2
    then 61 ∷ 61 ∷ []
    else 61 ∷ []

unfoldable pub is_ascii : Text → Bool
is_ascii [] = true
is_ascii (c ∷ t) = ltb c 128 && is_ascii t

-- `base64.urlsafe_b64decode((value + padding).encode("ascii"))`; `none` is an exception.
unfoldable pub b64url_decode : Text → Option Bytes
unfolding a2b padding is_ascii
b64url_decode value = if is_ascii value then a2b 0 0 0 (value ++ padding value) else none
