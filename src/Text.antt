-- ===== src/Text.antt =====
-- Python's `str`: a list of code points, so that a lone surrogate is a value too.
use Prim.Native.Char.{code}
use Prim.Native.String.{String}
use delta_protocol.Prelude.{
  leb, if◌then◌else◌, ◌+◌, ◌||◌, ℕ, ◌+◌, ◌≡◌, refl, Bool, true, false, ◌&&◌, ◌||◌, List, [], ◌∷◌,
  ◌++◌, arith, leb, ◌==◌, any, if◌then◌else◌,
}

abbrev pub Text : Type 0
Text = List ℕ

abbrev pub Bytes : Type 0
Bytes = List ℕ

codes : String → Text
codes String.[] = []
codes (String.◌∷◌ c s) = code c ∷ codes s

-- A text literal of the source. It stays shut in proofs.
unfoldable pub lit : String → Text
unfolding codes
lit s = codes s

-- `a == b` on two texts.
unfoldable pub text_eq : Text → Text → Bool
text_eq [] [] = true
text_eq [] (d ∷ t) = false
text_eq (c ∷ s) [] = false
text_eq (c ∷ s) (d ∷ t) = c == d && text_eq s t

pub text_eq→≡ : (s t : Text) → text_eq s t ≡ true → s ≡ t
unfolding text_eq
text_eq→≡ [] [] h = refl
text_eq→≡ [] (d ∷ t) h = ground arith
text_eq→≡ (c ∷ s) [] h = ground arith
text_eq→≡ (c ∷ s) (d ∷ t) h = ground (arith, text_eq→≡ s t)

pub text_eq_refl : (s : Text) → text_eq s s ≡ true
unfolding text_eq
text_eq_refl [] = refl
text_eq_refl (c ∷ s) = ground (arith, text_eq_refl s)

pub text_eq-sym : (s t : Text) → text_eq s t ≡ text_eq t s
unfolding text_eq
text_eq-sym [] [] = refl
text_eq-sym [] (d ∷ t) = refl
text_eq-sym (c ∷ s) [] = refl
text_eq-sym (c ∷ s) (d ∷ t) = ground (arith, text_eq-sym s t)

-- `s.startswith(p)`
unfoldable pub starts_with : Text → Text → Bool
starts_with s [] = true
starts_with [] (d ∷ p) = false
starts_with (c ∷ s) (d ∷ p) = c == d && starts_with s p

pub starts_with-append : (p s : Text) → starts_with (p ++ s) p ≡ true
unfolding starts_with
starts_with-append [] [] = refl
starts_with-append [] (c ∷ s) = refl
starts_with-append (c ∷ p) s = ground (arith, starts_with-append p s)

-- `value in (a, b, ...)`
unfoldable pub one_of : Text → List Text → Bool
one_of s ts = any (text_eq s) ts

-- `c.isspace()` of a character. Beside ASCII: U+0085, U+00A0, U+1680, U+2000 to U+200A, U+2028,
-- U+2029, U+202F, U+205F and U+3000.
unfoldable pub is_white : ℕ → Bool
is_white c =
    leb 9 c && leb c 13
    || (leb 28 c && leb c 32
        || (c == 0x85
            || (c == 0xa0
                || (c == 0x1680
                    || (leb 0x2000 c && leb c 0x200a
                        || (c == 0x2028
                            || (c == 0x2029 || (c == 0x202f || (c == 0x205f || c == 0x3000)))))))))

unfoldable pub strip_left : Text → Text
unfolding is_white
strip_left [] = []
strip_left (c ∷ t) = let rest = strip_left t in if is_white c then rest else c ∷ t

-- `s.rstrip()`
unfoldable pub strip_right : Text → Text
unfolding is_white
strip_right [] = []
strip_right (c ∷ t) =
    let rest = strip_right t in
    elim rest [ [] ↦ if is_white c then [] else c ∷ [] | d ∷ u ↦ c ∷ d ∷ u ]

-- `s.strip()`
unfoldable pub strip : Text → Text
unfolding strip_left strip_right
strip t = strip_right (strip_left t)

-- `s.lower()` on ASCII letters; a character outside ASCII stays as it is.
unfoldable pub lower : Text → Text
lower [] = []
lower (c ∷ t) = (if leb 65 c && leb c 90 then c + 32 else c) ∷ lower t

-- A text that is not empty: the truth of a `str`.
abbrev pub non_empty : Text → Bool
non_empty [] = false
non_empty (c ∷ t) = true
