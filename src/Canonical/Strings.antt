-- ===== src/Canonical/Strings.antt =====
-- A string that was quoted is read back.
use delta_protocol.Prelude.{
  ℕ, ◌/◌, ◌%◌, ◌<◌, ◌≡◌, refl, ap, ◌∙◌, inl, inr, Bool-cases, Option-cases, Bool, true, false, none,
  some, List, [], ◌∷◌, ◌++◌, append_assoc, arith, ltb, ◌==◌, if◌then◌else◌,
}
use delta_protocol.Text.{Text}
use delta_protocol.Json.Dump.{escape_char, escape, hex_digit, short_escape}
use delta_protocol.Canonical.Scan.{
  Piece, raw, unit, plain, hex_value, backslash, push, scan_pieces, join_pieces, scan_string,
}

-- The control characters that have no short escape.
is_unit : ℕ → Bool
is_unit c = elim (short_escape c) [ some d ↦ false | none ↦ ltb c 32 ]

piece : ℕ → Piece
unfolding is_unit
piece c = if is_unit c then unit c else raw c

pieces : Text → List Piece
pieces [] = []
pieces (c ∷ t) = piece c ∷ pieces t

scan-short :
    (d c : ℕ) (t : Text)
    → (d == 117) ≡ false
    → backslash d ≡ some c
    → scan_pieces plain (92 ∷ d ∷ t) ≡ push (raw c) (scan_pieces plain t)
unfolding scan_pieces
scan-short d c t h e = rw (h, scan_pieces) (rw (e, scan_pieces) refl)

hex_value-digit : (d : ℕ) → d < 16 → hex_value (hex_digit d) ≡ some d
unfolding hex_value hex_digit
hex_value-digit d h = ground arith

scan-unit :
    (c : ℕ) (t : Text)
    → c < 32
    → scan_pieces plain (92 ∷ 117 ∷ 48 ∷ 48 ∷ hex_digit (c / 16) ∷ hex_digit (c % 16) ∷ t)
      ≡ push (unit c) (scan_pieces plain t)
unfolding scan_pieces
scan-unit c t h =
    rw (hex_value-digit (c / 16) (omega arith), scan_pieces)
      (rw (hex_value-digit (c % 16) (omega arith), scan_pieces)
        (ap (λ x. push (unit x) (scan_pieces plain t)) (omega arith)))

scan-plain :
    (c : ℕ) (t : Text)
    → (c == 34) ≡ false
    → (c == 92) ≡ false
    → ltb c 32 ≡ false
    → scan_pieces plain (c ∷ t) ≡ push (raw c) (scan_pieces plain t)
unfolding scan_pieces
scan-plain c t h k l = rw (h, k, l) refl

short-backslash :
    (c d : ℕ) → short_escape c ≡ some d → (backslash d ≡ some c) × ((d == 117) ≡ false)
unfolding short_escape backslash
short-backslash c d h = ground arith

short-none : (c : ℕ) → short_escape c ≡ none → ((c == 34) ≡ false) × ((c == 92) ≡ false)
unfolding short_escape
short-none c h = ground arith

scan-escape_char :
    (c : ℕ) (t : Text)
    → scan_pieces plain (escape_char c ++ t) ≡ push (piece c) (scan_pieces plain t)
unfolding escape_char piece
scan-escape_char c t = elim (Option-cases (short_escape c)) [
  | inr (d, e) ↦
      let (back, letter) = short-backslash c d e in
      rw (e, escape_char, is_unit) (scan-short d c t letter back)
  | inl e ↦ elim (Bool-cases (ltb c 32)) [
    | inl low ↦ rw (e, escape_char, is_unit) (rw low (scan-unit c t (ground arith)))
    | inr high ↦
        let (q, b) = short-none c e in
        rw (e, escape_char, is_unit) (rw high (scan-plain c t q b high))
  ]
]

close : (r : Text) → scan_pieces plain (34 ∷ r) ≡ some ([], r)
unfolding scan_pieces
close r = refl

scan-escape : (t r : Text) → scan_pieces plain (escape t ++ 34 ∷ r) ≡ some (pieces t, r)
unfolding escape pieces
scan-escape [] r = close r
scan-escape (c ∷ t) r =
    rw (append_assoc)
      (scan-escape_char c (escape t ++ 34 ∷ r) ∙ ap (push (piece c)) (scan-escape t r))

-- An escape that the encoder writes is no surrogate.
join-unit : (u : ℕ) (ps : List Piece) → u < 32 → join_pieces (unit u ∷ ps) ≡ u ∷ join_pieces ps
unfolding join_pieces
join-unit u [] h = refl
join-unit u (raw c ∷ ps) h = refl
join-unit u (unit w ∷ ps) h = ground arith

is_unit-lt : (c : ℕ) → is_unit c ≡ true → c < 32
unfolding is_unit
is_unit-lt c h = ground arith

join-piece : (c : ℕ) (ps : List Piece) → join_pieces (piece c ∷ ps) ≡ c ∷ join_pieces ps
unfolding join_pieces piece
join-piece c ps = elim (Bool-cases (is_unit c)) [
  | inl u ↦ rw (u, join_pieces) (join-unit c ps (is_unit-lt c u))
  | inr r ↦ rw (r, join_pieces) refl
]

join-nil : join_pieces [] ≡ []
unfolding join_pieces
join-nil = refl

join-pieces : (t : Text) → join_pieces (pieces t) ≡ t
unfolding pieces
join-pieces [] = join-nil
join-pieces (c ∷ t) = join-piece c (pieces t) ∙ ap (λ x. c ∷ x) (join-pieces t)

pub scan_string-escape : (t r : Text) → scan_string (escape t ++ 34 ∷ r) ≡ some (t, r)
unfolding scan_string
scan_string-escape t r = rw (scan-escape t r, scan_string) (ap (λ x. some (x, r)) (join-pieces t))
