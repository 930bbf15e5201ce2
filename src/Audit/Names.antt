-- ===== src/Audit/Names.antt =====
-- The names of the files that `decrypt-package` writes.
use delta_protocol.Prelude.{
  ℕ, zero, suc, ◌≡◌, refl, Bool, true, false, ◌&&◌, ◌||◌, all, &&-split, [], ◌∷◌, ◌++◌, ◌+◌, ◌/◌,
  ◌%◌, leb, ltb, ◌==◌, length, if◌then◌else◌, Bool-cases, inl, inr, arith,
}
use delta_protocol.Text.{Text, lit, non_empty}
use delta_protocol.Json.{ℤ, pos, negsuc}
use delta_protocol.Json.Dump.{digits, decimal}

-- `[A-Za-z0-9._-]`
unfoldable pub is_name_char : ℕ → Bool
is_name_char c =
    leb 65 c && leb c 90
    || (leb 97 c && leb c 122 || (leb 48 c && leb c 57 || (c == 46 || (c == 95 || c == 45))))

-- `re.sub(r"[^A-Za-z0-9._-]+", "_", text)`; the flag says that the run before has been replaced.
unfoldable pub replace_runs : Bool → Text → Text
replace_runs within [] = []
replace_runs within (c ∷ t) =
    let kept = replace_runs false t in
    let dropped = replace_runs true t in
    if is_name_char c then c ∷ kept else if within then dropped else 95 ∷ dropped

abbrev pub or_text : Text → Text → Text
or_text t fallback = if non_empty t then t else fallback

-- `safe_name`, with `Path(value).name` as an argument.
unfoldable pub safe_name : (Text → Text) → Text → Text → Text
safe_name name_of value fallback =
    or_text (replace_runs false (or_text (name_of value) fallback)) fallback

abbrev zeros : ℕ → Text → Text
zeros width t =
    if ltb (length t) width then 48 ∷ (if ltb (length t + 1) width then 48 ∷ t else t) else t

-- `f"{idx:03d}"`: zeros up to three places, behind a sign.
unfoldable pub padded_index : ℤ → Text
padded_index (pos n) = zeros 3 (decimal n)
padded_index (negsuc n) = 45 ∷ zeros 2 (decimal (n + 1))

-- `filename`
unfoldable pub disclosed_name : (Text → Text) → ℤ → Text → Text
disclosed_name name_of idx hint =
    padded_index idx ++ (lit "-" ++ safe_name name_of hint (lit "evidence.bin"))

underscore-name_chars : (t : Text) → all is_name_char t ≡ true → all is_name_char (95 ∷ t) ≡ true
unfolding is_name_char
underscore-name_chars t h = h

replace_runs-name_chars :
    (within : Bool) (t : Text) → all is_name_char (replace_runs within t) ≡ true
unfolding replace_runs
replace_runs-name_chars within [] = refl
replace_runs-name_chars within (c ∷ t) =
    let kept = replace_runs-name_chars false t in
    let dropped = replace_runs-name_chars true t in
    elim (Bool-cases (is_name_char c)) [
      | inl good ↦ rw good (rw (good, kept) refl)
      | inr bad ↦ rw bad (elim (Bool-cases within) [
        | inl inside ↦ rw inside dropped
        | inr outside ↦ rw outside (underscore-name_chars _ dropped)
      ])
    ]

dash-name_chars : (t : Text) → all is_name_char t ≡ true → all is_name_char (45 ∷ t) ≡ true
unfolding is_name_char
dash-name_chars t h = h

append-name_chars :
    (s t : Text)
    → all is_name_char s ≡ true
    → all is_name_char t ≡ true
    → all is_name_char (s ++ t) ≡ true
append-name_chars [] t h k = k
append-name_chars (c ∷ s) t h k =
    let (good, rest) = &&-split (is_name_char c) (all is_name_char s) h in
    rw (good, append-name_chars s t rest k) refl

evidence_bin-name_chars : all is_name_char (lit "evidence.bin") ≡ true
unfolding lit is_name_char
evidence_bin-name_chars = refl

evidence_bin-filled : non_empty (lit "evidence.bin") ≡ true
unfolding lit
evidence_bin-filled = refl

dash-name_char : all is_name_char (lit "-") ≡ true
unfolding lit is_name_char
dash-name_char = refl

-- Where the fallback is a name of letters, digits, dots, underscores and dashes, `safe_name` gives a
-- name of these characters alone, and one that is not empty.
pub safe_name-chars :
    (name_of : Text → Text) (value fallback : Text)
    → all is_name_char fallback ≡ true
    → non_empty fallback ≡ true
    → (all is_name_char (safe_name name_of value fallback) ≡ true)
      × (non_empty (safe_name name_of value fallback) ≡ true)
unfolding safe_name
safe_name-chars name_of value fallback good filled =
    let t = replace_runs false (or_text (name_of value) fallback) in
    elim (Bool-cases (non_empty t)) [
      | inl some_left ↦
          rw some_left (replace_runs-name_chars false (or_text (name_of value) fallback), some_left)
      | inr empty ↦ rw empty (good, filled)
    ]

digit-name_char : (n : ℕ) → ltb n 10 ≡ true → is_name_char (48 + n) ≡ true
unfolding is_name_char
digit-name_char n h = ground arith

digits-name_chars :
    (f n : ℕ) (acc : Text) → all is_name_char acc ≡ true → all is_name_char (digits f n acc) ≡ true
unfolding digits
digits-name_chars zero n acc h = h
digits-name_chars (suc f) n acc h =
    let last = digit-name_char (n % 10) (ground arith) in
    elim (Bool-cases (ltb n 10)) [
      | inl small ↦ rw small (rw (digit-name_char n small, h) refl)
      | inr large ↦
          rw large (digits-name_chars f (n / 10) ((48 + n % 10) ∷ acc) (rw (last, h) refl))
    ]

decimal-name_chars : (n : ℕ) → all is_name_char (decimal n) ≡ true
unfolding decimal
decimal-name_chars n = digits-name_chars (suc n) n [] refl

zeros-name_chars :
    (w : ℕ) (t : Text) → all is_name_char t ≡ true → all is_name_char (zeros w t) ≡ true
unfolding is_name_char
zeros-name_chars w t h = elim (Bool-cases (ltb (length t) w)) [
  | inr long ↦ rw long h
  | inl short ↦ rw short (elim (Bool-cases (ltb (length t + 1) w)) [
    | inl shorter ↦ rw shorter h
    | inr enough ↦ rw enough h
  ])
]

padded_index-name_chars : (idx : ℤ) → all is_name_char (padded_index idx) ≡ true
unfolding padded_index
padded_index-name_chars (pos n) = zeros-name_chars 3 (decimal n) (decimal-name_chars n)
padded_index-name_chars (negsuc n) =
    dash-name_chars _ (zeros-name_chars 2 (decimal (n + 1)) (decimal-name_chars (n + 1)))

-- The file that an entry is written to has a name of letters, digits, dots, underscores and dashes,
-- whatever index and hint the package gives: it stands in the output directory.
pub disclosed_name-chars :
    (name_of : Text → Text) (idx : ℤ) (hint : Text)
    → all is_name_char (disclosed_name name_of idx hint) ≡ true
unfolding disclosed_name
disclosed_name-chars name_of idx hint =
    let safe =
      safe_name-chars name_of hint (lit "evidence.bin") evidence_bin-name_chars
        evidence_bin-filled in
    append-name_chars (padded_index idx) (lit "-" ++ safe_name name_of hint (lit "evidence.bin"))
      (padded_index-name_chars idx)
      (append-name_chars (lit "-") (safe_name name_of hint (lit "evidence.bin")) dash-name_char
        safe.0)
