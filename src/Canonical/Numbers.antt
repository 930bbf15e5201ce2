-- ===== src/Canonical/Numbers.antt =====
-- A number that was written is read back.
use delta_protocol.Prelude.{
  ℕ, zero, suc, ◌+◌, ◌/◌, ◌%◌, ◌<◌, ◌≡◌, refl, ap, ◌∙◌, inl, inr, Bool-cases, Bool, true, false,
  ◌&&◌, ◌||◌, some, [], ◌∷◌, ◌++◌, arith, ltb, ◌==◌,
}
use delta_protocol.Text.{Text}
use delta_protocol.Json.Dump.{digits, decimal}
use delta_protocol.Canonical.Scan.{is_digit, span_digits, scan_natural, digits_value}

-- What follows a value inside canonical text, or its end.
abbrev pub ends : Text → Bool
ends [] = true
ends (c ∷ t) = c == 44 || (c == 93 || c == 125)

-- Digits in front of what is no digit.
abbrev all_digits : Text → Bool
all_digits [] = true
all_digits (c ∷ t) = is_digit c && all_digits t

span-append : (ds r : Text) → all_digits ds ≡ true → ends r ≡ true → span_digits (ds ++ r) ≡ (ds, r)
unfolding span_digits
span-append [] [] h e = refl
span-append [] (c ∷ r) h e = ground arith
span-append (d ∷ ds) r h e = ground (arith, span-append ds r)

-- The digits of a number that is not 0: no leading zero, all digits, and its value.
digits-fuel : (f n : ℕ) (acc : Text) → n < f → digits_value 0 (digits f n acc) ≡ digits_value n acc
unfolding digits digits_value
digits-fuel zero n acc h = absurd (omega arith)
digits-fuel (suc f) n acc h = elim (Bool-cases (ltb n 10)) [
  | inl low ↦ rw (low) (ap (λ x. digits_value x acc) (omega arith))
  | inr high ↦ rw high (
      digits-fuel f (n / 10) ((48 + n % 10) ∷ acc) (ground arith)
      ∙ ap (λ x. digits_value x acc) (omega arith))
]

digits-all : (f n : ℕ) (acc : Text) → all_digits acc ≡ true → all_digits (digits f n acc) ≡ true
unfolding digits is_digit
digits-all zero n acc h = h
digits-all (suc f) n acc h = ground (arith, digits-all f (n / 10) ((48 + n % 10) ∷ acc))

-- The first digit.
digits-head :
    (f n : ℕ) (acc : Text)
    → n < f
    → (c : ℕ) × (t : Text) × (digits f n acc ≡ c ∷ t)
      × (is_digit c ≡ true)
      × (0 < n → (c == 48) ≡ false)
unfolding digits is_digit
digits-head zero n acc h = absurd (omega arith)
digits-head (suc f) n acc h = elim (Bool-cases (ltb n 10)) [
  | inl low ↦ (48 + n, acc, rw low refl, ground arith, λ p. ground arith)
  | inr high ↦
      let (c, t, e, d, z) = digits-head f (n / 10) ((48 + n % 10) ∷ acc) (ground arith) in
      (c, t, rw high e, d, λ p. z (ground arith))
]

pub decimal-value : (n : ℕ) → digits_value 0 (decimal n) ≡ n
unfolding decimal digits_value
decimal-value n = digits-fuel (suc n) n [] (omega arith)

pub decimal-head :
    (n : ℕ)
    → (c : ℕ) × (t : Text) × (decimal n ≡ c ∷ t) × (is_digit c ≡ true) × (0 < n → (c == 48) ≡ false)
unfolding decimal
decimal-head n = digits-head (suc n) n [] (omega arith)

decimal-all : (n : ℕ) → all_digits (decimal n) ≡ true
unfolding decimal
decimal-all n = digits-all (suc n) n [] refl

decimal-zero : decimal zero ≡ 48 ∷ []
unfolding decimal digits
decimal-zero = refl

-- The scanner takes a written number off the front of the text.
pub scan_natural-decimal :
    (n : ℕ) (r : Text) → ends r ≡ true → scan_natural (decimal n ++ r) ≡ some (decimal n, r)
unfolding scan_natural
scan_natural-decimal zero r e = rw decimal-zero refl
scan_natural-decimal (suc n) r e =
    let (c, t, split, d, z) = decimal-head (suc n) in
    let all = decimal-all (suc n) in
    rw split (rw (z (omega arith), d) (ap some (span-append (c ∷ t) r (rw split at all) e)))
