-- ===== src/Utf8.antt =====
-- `str.encode("utf-8")` and `bytes.decode("utf-8")` of the standard library.
use delta_protocol.Prelude.{
  ℕ, zero, suc, ◌+◌, ◌-◌, ◌*◌, ◌/◌, ◌%◌, ◌≤◌, ◌<◌, ◌≡◌, refl, ap, subst, ◌∙◌, inl, inr, Bool-cases,
  Option-cases, Bool, true, false, ◌&&◌, Option, none, some, [], ◌∷◌, ◌++◌, arith, ltb, leb,
  if◌then◌else◌,
}
use delta_protocol.Text.{Text, Bytes}

abbrev is_surrogate : ℕ → Bool
is_surrogate c = leb 0xd800 c && leb c 0xdfff

-- A code point that UTF-8 can write.
unfoldable pub encodable : ℕ → Bool
encodable c = if is_surrogate c then false else leb c 0x10ffff

unfoldable pub encode_char : ℕ → Bytes
encode_char c =
    if ltb c 0x80
    then c ∷ []
    else if ltb c 0x800
    then (0xc0 + c / 64) ∷ (0x80 + c % 64) ∷ []
    else if ltb c 0x10000
    then (0xe0 + c / 4096) ∷ (0x80 + (c / 64) % 64) ∷ (0x80 + c % 64) ∷ []
    else (0xf0 + c / 262144)
      ∷ (0x80 + (c / 4096) % 64)
      ∷ (0x80 + (c / 64) % 64)
      ∷ (0x80 + c % 64)
      ∷ []

abbrev pub cons? : ℕ → Option Text → Option Text
cons? c none = none
cons? c (some t) = some (c ∷ t)

abbrev prepend? : Bytes → Option Bytes → Option Bytes
prepend? b none = none
prepend? b (some t) = some (b ++ t)

-- `none` is a `UnicodeEncodeError`.
unfoldable pub encode : Text → Option Bytes
encode [] = some []
encode (c ∷ t) =
    let rest = prepend? (encode_char c) (encode t) in if encodable c then rest else none

-- The number of bytes that a first byte announces.
pub data Lead : Type 0 where
  one two three four bad : Lead

lead : ℕ → Lead
lead a =
    if ltb a 0x80
    then one
    else if ltb a 0xc2
    then bad
    else if ltb a 0xe0
    then two
    else if ltb a 0xf0
    then three
    else if ltb a 0xf5
    then four
    else bad

-- The decoder inside a character: the number of bytes left, the bits so far, the least code point
-- that takes so many bytes.
decode_from : ℕ → ℕ → ℕ → Bytes → Option Text
decode_from zero acc least [] = some []
decode_from (suc n) acc least [] = none
decode_from zero acc least (a ∷ t) = elim (lead a) [
  | one ↦ cons? a (decode_from 0 0 0 t)
  | two ↦ decode_from 1 (a - 0xc0) 0x80 t
  | three ↦ decode_from 2 (a - 0xe0) 0x800 t
  | four ↦ decode_from 3 (a - 0xf0) 0x10000 t
  | bad ↦ none
]
decode_from (suc zero) acc least (a ∷ t) =
    let c = acc * 64 + (a - 0x80) in
    let rest = cons? c (decode_from 0 0 0 t) in
    if leb 0x80 a && leb a 0xbf then (if leb least c && encodable c then rest else none) else none
decode_from (suc (suc n)) acc least (a ∷ t) =
    let rest = decode_from (suc n) (acc * 64 + (a - 0x80)) least t in
    if leb 0x80 a && leb a 0xbf then rest else none

unfoldable pub decode : Bytes → Option Text
unfolding decode_from encodable lead
decode b = decode_from 0 0 0 b

lead_two : (x : ℕ) → 2 ≤ x → x < 32 → lead (0xc0 + x) ≡ two
unfolding lead
lead_two x h k = ground arith

lead_three : (x : ℕ) → x < 16 → lead (0xe0 + x) ≡ three
unfolding lead
lead_three x h = ground arith

lead_four : (x : ℕ) → x < 5 → lead (0xf0 + x) ≡ four
unfolding lead
lead_four x h = ground arith

lead_one : (x : ℕ) → x < 0x80 → lead x ≡ one
unfolding lead
lead_one x h = ground arith

minus_lead : (k x : ℕ) → k + x - k ≡ x
minus_lead k x = omega arith

more :
    (n acc least x : ℕ) (t : Bytes)
    → x < 64
    → decode_from (suc (suc n)) acc least ((0x80 + x) ∷ t)
      ≡ decode_from (suc n) (acc * 64 + x) least t
unfolding decode_from
more n acc least x t h = ground arith

last :
    (acc least x : ℕ) (t : Bytes)
    → x < 64
    → least ≤ acc * 64 + x
    → encodable (acc * 64 + x) ≡ true
    → decode_from 1 acc least ((0x80 + x) ∷ t) ≡ cons? (acc * 64 + x) (decode_from 0 0 0 t)
unfolding decode_from
last acc least x t h k e = ground arith

decode-one :
    (c : ℕ) (t : Bytes) → c < 0x80 → decode_from 0 0 0 (c ∷ t) ≡ cons? c (decode_from 0 0 0 t)
unfolding decode_from
decode-one c t h = rw (lead_one c h, decode_from) refl

start_two :
    (x : ℕ) (t : Bytes)
    → 2 ≤ x
    → x < 32
    → decode_from 0 0 0 ((0xc0 + x) ∷ t) ≡ decode_from 1 x 0x80 t
unfolding decode_from
start_two x t h k =
    rw (lead_two x h k, decode_from) (ap (λ y. decode_from 1 y 0x80 t) (minus_lead 0xc0 x))

start_three :
    (x : ℕ) (t : Bytes) → x < 16 → decode_from 0 0 0 ((0xe0 + x) ∷ t) ≡ decode_from 2 x 0x800 t
unfolding decode_from
start_three x t h =
    rw (lead_three x h, decode_from) (ap (λ y. decode_from 2 y 0x800 t) (minus_lead 0xe0 x))

start_four :
    (x : ℕ) (t : Bytes) → x < 5 → decode_from 0 0 0 ((0xf0 + x) ∷ t) ≡ decode_from 3 x 0x10000 t
unfolding decode_from
start_four x t h =
    rw (lead_four x h, decode_from) (ap (λ y. decode_from 3 y 0x10000 t) (minus_lead 0xf0 x))

decode-two :
    (c : ℕ) (t : Bytes)
    → 0x80 ≤ c
    → c < 0x800
    → encodable c ≡ true
    → decode_from 0 0 0 ((0xc0 + c / 64) ∷ (0x80 + c % 64) ∷ t) ≡ cons? c (decode_from 0 0 0 t)
decode-two c t h k e =
    let back : c / 64 * 64 + c % 64 ≡ c = omega arith in
    rw (start_two (c / 64) ((0x80 + c % 64) ∷ t) (omega arith) (omega arith)) (
      last (c / 64) 0x80 (c % 64) t (omega arith) (omega arith) (rw back e)
      ∙ ap (λ x. cons? x (decode_from 0 0 0 t)) back)

decode-three :
    (c : ℕ) (t : Bytes)
    → 0x800 ≤ c
    → c < 0x10000
    → encodable c ≡ true
    → decode_from 0 0 0 ((0xe0 + c / 4096) ∷ (0x80 + (c / 64) % 64) ∷ (0x80 + c % 64) ∷ t)
      ≡ cons? c (decode_from 0 0 0 t)
decode-three c t h k e =
    let back : (c / 4096 * 64 + (c / 64) % 64) * 64 + c % 64 ≡ c = omega arith in
    start_three (c / 4096) _ (omega arith)
    ∙ (more 0 (c / 4096) 0x800 ((c / 64) % 64) _ (omega arith)
        ∙ (last (c / 4096 * 64 + (c / 64) % 64) 0x800 (c % 64) t (omega arith) (omega arith)
              (rw back e)
            ∙ ap (λ x. cons? x (decode_from 0 0 0 t)) back))

decode-four :
    (c : ℕ) (t : Bytes)
    → 0x10000 ≤ c
    → c ≤ 0x10ffff
    → encodable c ≡ true
    → decode_from 0 0 0 (
        (0xf0 + c / 262144)
        ∷ (0x80 + (c / 4096) % 64)
        ∷ (0x80 + (c / 64) % 64)
        ∷ (0x80 + c % 64)
        ∷ t)
      ≡ cons? c (decode_from 0 0 0 t)
decode-four c t h k e =
    let back : ((c / 262144 * 64 + (c / 4096) % 64) * 64 + (c / 64) % 64) * 64 + c % 64 ≡ c =
      omega arith in
    start_four (c / 262144) _ (omega arith)
    ∙ (more 1 (c / 262144) 0x10000 ((c / 4096) % 64) _ (omega arith)
        ∙ (more 0 (c / 262144 * 64 + (c / 4096) % 64) 0x10000 ((c / 64) % 64) _ (omega arith)
            ∙ (last ((c / 262144 * 64 + (c / 4096) % 64) * 64 + (c / 64) % 64) 0x10000 (c % 64) t
                  (omega arith) (omega arith) (rw back e)
                ∙ ap (λ x. cons? x (decode_from 0 0 0 t)) back)))

encodable-le : (c : ℕ) → encodable c ≡ true → c ≤ 0x10ffff
unfolding encodable encode_char
encodable-le c h = ground arith

decode-encode_char :
    (c : ℕ) (t : Bytes)
    → encodable c ≡ true
    → decode_from 0 0 0 (encode_char c ++ t) ≡ cons? c (decode_from 0 0 0 t)
unfolding encode_char
decode-encode_char c t e = elim (Bool-cases (ltb c 0x80)) [
  | inl n1 ↦ rw (n1, encode_char) (decode-one c t (ground arith))
  | inr n1 ↦ elim (Bool-cases (ltb c 0x800)) [
    | inl n2 ↦ rw (n1, n2, encode_char) (decode-two c t (ground arith) (ground arith) e)
    | inr n2 ↦ elim (Bool-cases (ltb c 0x10000)) [
      | inl n3 ↦ rw (n1, n2, n3, encode_char) (decode-three c t (ground arith) (ground arith) e)
      | inr n3 ↦ rw (n1, n2, n3, encode_char) (decode-four c t (ground arith) (encodable-le c e) e)
    ]
  ]
]

pub encode-cons :
    (c : ℕ) (t : Text) (b : Bytes)
    → encode (c ∷ t) ≡ some b
    → (u : Bytes) × (encodable c ≡ true) × (encode t ≡ some u) × (b ≡ encode_char c ++ u)
unfolding encode
encode-cons c t b h = elim (Bool-cases (encodable c)) [
  | inr out ↦ cc (rw (out, encode) at h)
  | inl good ↦ elim (Option-cases (encode t)) [
    | inl lost ↦ cc (rw (good, lost, encode) at h)
    | inr (u, e) ↦ (u, good, e, cc (rw (good, e, encode) at h))
  ]
]

decode-nil : (b : Bytes) → encode [] ≡ some b → decode b ≡ some []
unfolding encode decode
decode-nil b h = subst (λ o. decode (get o) ≡ some []) h refl
  where
    get : Option Bytes → Bytes
    get none = []
    get (some x) = x

-- What was encoded decodes to itself.
pub decode-encode : (t : Text) (b : Bytes) → encode t ≡ some b → decode b ≡ some t
unfolding decode
decode-encode [] b h = decode-nil b h
decode-encode (c ∷ t) b h =
    let (u, good, e, split) = encode-cons c t b h in
    rw split (decode-encode_char c u good ∙ ap (cons? c) (decode-encode t u e))
