-- ===== src/Base64/RoundTrip.antt =====
-- Decoding what was encoded.
use delta_protocol.Prelude.{
  ℕ, ◌+◌, ◌*◌, ◌/◌, ◌%◌, suc, ◌≡◌, refl, ◌∙◌, Bool, true, false, ◌&&◌, all, &&-split, some, [], ◌∷◌,
  ◌++◌, length, ltb, ◌==◌, arith,
}
use delta_protocol.Text.{Text, Bytes, non_empty}
use delta_protocol.Base64.{
  digit_char, b64url_encode, char_digit, cons?, a2b, padding, is_ascii, b64url_decode,
}

abbrev pub is_byte : ℕ → Bool
is_byte b = ltb b 256

char_digit-digit_char : (d : ℕ) → ltb d 64 ≡ true → char_digit (digit_char d) ≡ some d
unfolding char_digit digit_char
char_digit-digit_char d h = ground arith

digit_char-not_padding : (d : ℕ) → ltb d 64 ≡ true → (digit_char d == 61) ≡ false
unfolding digit_char
digit_char-not_padding d h = ground arith

digit_char-ascii : (d : ℕ) → ltb d 64 ≡ true → ltb (digit_char d) 128 ≡ true
unfolding digit_char
digit_char-ascii d h = ground arith

module _ (d left : ℕ) (t : Text) (h : ltb d 64 ≡ true) where
  a2b-first : a2b 0 left 0 (digit_char d ∷ t) ≡ a2b 1 d 0 t
  unfolding a2b
  a2b-first = rw (digit_char-not_padding d h, char_digit-digit_char d h) refl

  a2b-second : a2b 1 left 0 (digit_char d ∷ t) ≡ cons? (left * 4 + d / 16) (a2b 2 (d % 16) 0 t)
  unfolding a2b
  a2b-second = rw (digit_char-not_padding d h, char_digit-digit_char d h) refl

  a2b-third : a2b 2 left 0 (digit_char d ∷ t) ≡ cons? (left * 16 + d / 4) (a2b 3 (d % 4) 0 t)
  unfolding a2b
  a2b-third = rw (digit_char-not_padding d h, char_digit-digit_char d h) refl

  a2b-fourth : a2b 3 left 0 (digit_char d ∷ t) ≡ cons? (left * 64 + d) (a2b 0 0 0 t)
  unfolding a2b
  a2b-fourth = rw (digit_char-not_padding d h, char_digit-digit_char d h) refl

-- The digits of one group.
module _ (a b e : ℕ) where
  digits_of_group :
      ltb a 256 ≡ true
      → ltb b 256 ≡ true
      → ltb e 256 ≡ true
      → (ltb (a / 4) 64 ≡ true)
        × (ltb (a % 4 * 16 + b / 16) 64 ≡ true)
        × (ltb (b % 16 * 4 + e / 64) 64 ≡ true)
        × (ltb (e % 64) 64 ≡ true)
  digits_of_group p q r = (ground arith, ground arith, ground arith, ground arith)

  group_bytes :
      ltb a 256 ≡ true
      → ltb b 256 ≡ true
      → ltb e 256 ≡ true
      → (a / 4 * 4 + (a % 4 * 16 + b / 16) / 16 ≡ a)
        × ((a % 4 * 16 + b / 16) % 16 * 16 + (b % 16 * 4 + e / 64) / 4 ≡ b)
        × ((b % 16 * 4 + e / 64) % 4 * 64 + e % 64 ≡ e)
  group_bytes p q r = (ground arith, ground arith, ground arith)

module _ (a b e : ℕ) (t : Text) (p : ltb a 256 ≡ true) (q : ltb b 256 ≡ true)
    (r : ltb e 256 ≡ true) where
  a2b-group :
      a2b 0 0 0 (
        digit_char (a / 4)
        ∷ digit_char (a % 4 * 16 + b / 16)
        ∷ digit_char (b % 16 * 4 + e / 64)
        ∷ digit_char (e % 64)
        ∷ t)
      ≡ cons? a (cons? b (cons? e (a2b 0 0 0 t)))
  a2b-group =
      let (d1, d2, d3, d4) = digits_of_group a b e p q r in
      let (g1, g2, g3) = group_bytes a b e p q r in
      a2b-first (a / 4) 0 _ d1
      ∙ (a2b-second (a % 4 * 16 + b / 16) (a / 4) _ d2
          ∙ rw
              (
                a2b-third (b % 16 * 4 + e / 64) ((a % 4 * 16 + b / 16) % 16)
                    (digit_char (e % 64) ∷ t) d3,
                a2b-fourth (e % 64) ((b % 16 * 4 + e / 64) % 4) t d4,
                g1,
                g2,
                g3,
              )
              refl)

padding_one : (left : ℕ) → a2b 2 left 0 (61 ∷ 61 ∷ []) ≡ some []
unfolding a2b
padding_one left = refl

padding_two : (left : ℕ) → a2b 3 left 0 (61 ∷ []) ≡ some []
unfolding a2b
padding_two left = refl

module _ (a : ℕ) (p : ltb a 256 ≡ true) where
  a2b-one : a2b 0 0 0 (digit_char (a / 4) ∷ digit_char (a % 4 * 16) ∷ 61 ∷ 61 ∷ []) ≡ some (a ∷ [])
  a2b-one =
      let d1 : ltb (a / 4) 64 ≡ true = ground arith in
      let d2 : ltb (a % 4 * 16) 64 ≡ true = ground arith in
      let g : a / 4 * 4 + a % 4 * 16 / 16 ≡ a = ground arith in
      a2b-first (a / 4) 0 _ d1
      ∙ (a2b-second (a % 4 * 16) (a / 4) _ d2 ∙ rw (padding_one (a % 4 * 16 % 16), g) refl)

  a2b-two :
      (b : ℕ)
      → ltb b 256 ≡ true
      → a2b 0 0 0 (
          digit_char (a / 4) ∷ digit_char (a % 4 * 16 + b / 16) ∷ digit_char (b % 16 * 4) ∷ 61 ∷ [])
        ≡ some (a ∷ b ∷ [])
  a2b-two b q =
      let d1 : ltb (a / 4) 64 ≡ true = ground arith in
      let d2 : ltb (a % 4 * 16 + b / 16) 64 ≡ true = ground arith in
      let d3 : ltb (b % 16 * 4) 64 ≡ true = ground arith in
      let g1 : a / 4 * 4 + (a % 4 * 16 + b / 16) / 16 ≡ a = ground arith in
      let g2 : (a % 4 * 16 + b / 16) % 16 * 16 + b % 16 * 4 / 4 ≡ b = ground arith in
      a2b-first (a / 4) 0 _ d1
      ∙ (a2b-second (a % 4 * 16 + b / 16) (a / 4) _ d2
          ∙ rw
              (
                a2b-third (b % 16 * 4) ((a % 4 * 16 + b / 16) % 16) (61 ∷ []) d3,
                padding_two (b % 16 * 4 % 4),
                g1,
                g2,
              )
              refl)

padding-group : (a b d e : ℕ) (t : Text) → padding (a ∷ b ∷ d ∷ e ∷ t) ≡ padding t
unfolding padding
padding-group a b d e t =
    let same : suc (suc (suc (suc (length t)))) % 4 ≡ length t % 4 = omega arith in rw (← same) refl

padding_of_two : (d e : ℕ) → padding (d ∷ e ∷ []) ≡ 61 ∷ 61 ∷ []
unfolding padding
padding_of_two d e = refl

padding_of_three : (d e f : ℕ) → padding (d ∷ e ∷ f ∷ []) ≡ 61 ∷ []
unfolding padding
padding_of_three d e f = refl

nothing : a2b 0 0 0 ([] ++ padding []) ≡ some []
unfolding a2b padding
nothing = refl

a2b-b64url_encode :
    (bs : Bytes)
    → all is_byte bs ≡ true
    → a2b 0 0 0 (b64url_encode bs ++ padding (b64url_encode bs)) ≡ some bs
unfolding b64url_encode
a2b-b64url_encode [] h = nothing
a2b-b64url_encode (a ∷ []) h =
    rw (padding_of_two (digit_char (a / 4)) (digit_char (a % 4 * 16))) (a2b-one a (ground arith))
a2b-b64url_encode (a ∷ b ∷ []) h =
    let (p, h1) = &&-split (is_byte a) (is_byte b && true) h in
    let q : ltb b 256 ≡ true = ground arith in
    rw
      (padding_of_three (digit_char (a / 4)) (digit_char (a % 4 * 16 + b / 16))
        (digit_char (b % 16 * 4)))
      (a2b-two a p b q)
a2b-b64url_encode (a ∷ b ∷ e ∷ bs) h =
    let (p, h1) = &&-split (is_byte a) (is_byte b && (is_byte e && all is_byte bs)) h in
    let (q, h2) = &&-split (is_byte b) (is_byte e && all is_byte bs) h1 in
    let (r, rest) = &&-split (is_byte e) (all is_byte bs) h2 in
    rw
      (padding-group (digit_char (a / 4)) (digit_char (a % 4 * 16 + b / 16))
        (digit_char (b % 16 * 4 + e / 64)) (digit_char (e % 64)) (b64url_encode bs))
      (a2b-group a b e _ p q r ∙ rw (a2b-b64url_encode bs rest) refl)

ascii-b64url_encode : (bs : Bytes) → all is_byte bs ≡ true → is_ascii (b64url_encode bs) ≡ true
unfolding b64url_encode is_ascii
ascii-b64url_encode [] h = refl
ascii-b64url_encode (a ∷ []) h =
    rw (digit_char-ascii (a / 4) (ground arith), digit_char-ascii (a % 4 * 16) (ground arith)) refl
ascii-b64url_encode (a ∷ b ∷ []) h =
    rw
      (
        digit_char-ascii (a / 4) (ground arith),
        digit_char-ascii (a % 4 * 16 + b / 16) (ground arith),
        digit_char-ascii (b % 16 * 4) (ground arith),
      )
      refl
ascii-b64url_encode (a ∷ b ∷ e ∷ bs) h =
    let (p, h1) = &&-split (is_byte a) (is_byte b && (is_byte e && all is_byte bs)) h in
    let (q, h2) = &&-split (is_byte b) (is_byte e && all is_byte bs) h1 in
    let (r, rest) = &&-split (is_byte e) (all is_byte bs) h2 in
    let (d1, d2, d3, d4) = digits_of_group a b e p q r in
    rw
      (
        digit_char-ascii (a / 4) d1,
        digit_char-ascii (a % 4 * 16 + b / 16) d2,
        digit_char-ascii (b % 16 * 4 + e / 64) d3,
        digit_char-ascii (e % 64) d4,
      )
      (ascii-b64url_encode bs rest)

pub non_empty-b64url_encode : (b : Bytes) → non_empty b ≡ true → non_empty (b64url_encode b) ≡ true
unfolding b64url_encode
non_empty-b64url_encode [] h = cc
non_empty-b64url_encode (x ∷ []) h = refl
non_empty-b64url_encode (x ∷ y ∷ []) h = refl
non_empty-b64url_encode (x ∷ y ∷ z ∷ b) h = refl

-- Decoding the encoded form of bytes gives them back.
pub b64url_decode-b64url_encode :
    (bs : Bytes) → all is_byte bs ≡ true → b64url_decode (b64url_encode bs) ≡ some bs
unfolding b64url_decode
b64url_decode-b64url_encode bs h = rw (ascii-b64url_encode bs h) (a2b-b64url_encode bs h)
