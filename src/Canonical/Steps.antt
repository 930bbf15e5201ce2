-- ===== src/Canonical/Steps.antt =====
-- One step of the parser on canonical text, where no white space stands.
use delta_protocol.Prelude.{ℕ, suc, ◌+◌, ◌≡◌, refl, ◌∙◌, true, false, [], ◌∷◌, ◌++◌, arith, ◌==◌}
use delta_protocol.Text.{Text}
use delta_protocol.Json.{
  ℤ, pos, negsuc, Value, null, bool, int, float, str, arr, obj, other, no_items, item, no_fields,
  field,
}
use delta_protocol.Json.Dump.{dump, dump_int, decimal, quote}
use delta_protocol.Result.{ok, ◌>>=◌}
use delta_protocol.Canonical.Scan.{is_space, skip_space, is_digit, float_follows}
use delta_protocol.Canonical.Load.{
  start, digit, value_at, array_at, items_after, parse_value, parse_items, parse_number,
  parse_minus, parse_int, is_safe, negate,
}
use delta_protocol.Canonical.Numbers.{ends, decimal-value, decimal-head, scan_natural-decimal}
use delta_protocol.Canonical.Plain.{is_plain}

-- The first character of a value is no white space and no closing bracket.
pub record Head (v : Value) : Type 0 where
  pub char : ℕ
  pub tail : Text
  pub split : dump v ≡ char ∷ tail
  pub solid : is_space char ≡ false
  pub opens : (char == 93) ≡ false

digit-solid : (c : ℕ) → is_digit c ≡ true → (is_space c ≡ false) × ((c == 93) ≡ false)
unfolding is_digit is_space
digit-solid c h = ground arith

pub Head-of : (v : Value) → is_plain v ≡ true → Head v
unfolding dump is_plain is_space dump_int quote
Head-of null h = record {
  char = 110;
  tail = 117 ∷ 108 ∷ 108 ∷ [];
  split = refl;
  solid = refl;
  opens = refl;
}
Head-of (bool true) h = record {
  char = 116;
  tail = 114 ∷ 117 ∷ 101 ∷ [];
  split = refl;
  solid = refl;
  opens = refl;
}
Head-of (bool false) h = record {
  char = 102;
  tail = 97 ∷ 108 ∷ 115 ∷ 101 ∷ [];
  split = refl;
  solid = refl;
  opens = refl;
}
Head-of (int (pos n)) h =
    let (c, t, e, d, z) = decimal-head n in
    let (s, o) = digit-solid c d in record { char = c; tail = t; split = e; solid = s; opens = o }
Head-of (int (negsuc n)) h = record {
  char = 45;
  tail = decimal (n + 1);
  split = refl;
  solid = refl;
  opens = refl;
}
Head-of (float r i) h = absurd (cc)
Head-of (str t) h = record { char = 34; tail = _; split = refl; solid = refl; opens = refl }
Head-of (arr no_items) h = record { char = 91; tail = _; split = refl; solid = refl; opens = refl }
Head-of (arr (item v xs)) h = record {
  char = 91;
  tail = _;
  split = refl;
  solid = refl;
  opens = refl;
}
Head-of (obj no_fields) h = record {
  char = 123;
  tail = _;
  split = refl;
  solid = refl;
  opens = refl;
}
Head-of (obj (field k v fs)) h = record {
  char = 123;
  tail = _;
  split = refl;
  solid = refl;
  opens = refl;
}
Head-of (other n) h = absurd (cc)

skip-solid : (c : ℕ) (t : Text) → is_space c ≡ false → skip_space (c ∷ t) ≡ c ∷ t
unfolding skip_space
skip-solid c t h = rw h refl

pub skip-dump : (v : Value) (r : Text) → is_plain v ≡ true → skip_space (dump v ++ r) ≡ dump v ++ r
skip-dump v r h = let hd = Head-of v h in rw hd.split (skip-solid hd.char (hd.tail ++ r) hd.solid)

skip-comma : (r : Text) → skip_space (44 ∷ r) ≡ 44 ∷ r
unfolding is_space
skip-comma r = skip-solid 44 r refl

-- Numbers.
no_float : (r : Text) → ends r ≡ true → float_follows r ≡ false
unfolding float_follows
no_float [] h = refl
no_float (c ∷ r) h = ground arith

parse-decimal :
    (sign : ℕ → ℤ) (n : ℕ) (r : Text)
    → ends r ≡ true
    → is_safe (sign n) ≡ true
    → parse_number sign (decimal n ++ r) ≡ ok (int (sign n), r)
unfolding parse_number parse_int
parse-decimal sign n r e s =
    rw (scan_natural-decimal n r e, parse_number)
      (rw (no_float r e, parse_number)
        (rw (decimal-value n, parse_number) (rw (s, parse_number) refl)))

start-digit : (c : ℕ) → is_digit c ≡ true → start c ≡ digit
unfolding start is_digit
start-digit c h = ground arith

digit_step :
    (f c : ℕ) (t : Text)
    → is_digit c ≡ true
    → parse_value (suc f) (c ∷ t) ≡ parse_number pos (c ∷ t)
unfolding parse_value value_at
digit_step f c t h = rw (start-digit c h, parse_value) refl

minus_step :
    (f c : ℕ) (t : Text)
    → is_digit c ≡ true
    → parse_value (suc f) (45 ∷ c ∷ t) ≡ parse_number negate (c ∷ t)
unfolding parse_value value_at parse_minus start is_digit
minus_step f c t h = ground arith

pub parse-pos :
    (f n : ℕ) (r : Text)
    → ends r ≡ true
    → is_safe (pos n) ≡ true
    → parse_value (suc f) (decimal n ++ r) ≡ ok (int (pos n), r)
parse-pos f n r e s =
    let (c, t, split, d, z) = decimal-head n in
    rw split (digit_step f c (t ++ r) d) ∙ parse-decimal pos n r e s

pub parse-negsuc :
    (f n : ℕ) (r : Text)
    → ends r ≡ true
    → is_safe (negsuc n) ≡ true
    → parse_value (suc f) (45 ∷ (decimal (suc n) ++ r)) ≡ ok (int (negsuc n), r)
parse-negsuc f n r e s =
    let (c, t, split, d, z) = decimal-head (suc n) in
    rw split (minus_step f c (t ++ r) d) ∙ parse-decimal negate (suc n) r e s

-- Lists.
pub array_step :
    (f : ℕ) (v : Value) (r : Text)
    → is_plain v ≡ true
    → parse_value (suc f) (91 ∷ (dump v ++ r))
      ≡ (parse_items f (dump v ++ r) >>= λ (xs, rest). ok (arr xs, rest))
unfolding parse_value value_at array_at start
array_step f v r h =
    let hd = Head-of v h in
    rw (skip-dump v r h, parse_value) (rw (hd.split, array_at) (rw (hd.opens, array_at) refl))

pub items_last :
    (f : ℕ) (v : Value) (t r : Text)
    → parse_value f t ≡ ok (v, 93 ∷ r)
    → parse_items (suc f) t ≡ ok (item v no_items, r)
unfolding parse_value items_after skip_space
items_last f v t r h = rw (h, parse_items) refl

pub items_more :
    (f : ℕ) (v w : Value) (t r : Text)
    → is_plain w ≡ true
    → parse_value f t ≡ ok (v, 44 ∷ (dump w ++ r))
    → parse_items (suc f) t ≡ (parse_items f (dump w ++ r) >>= λ (xs, rest). ok (item v xs, rest))
unfolding parse_value items_after
items_more f v w t r p h =
    rw (h, parse_items, ◌>>=◌)
      (rw (skip-comma, parse_items) (rw (skip-dump w r p, parse_items) refl))
