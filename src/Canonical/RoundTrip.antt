-- ===== src/Canonical/RoundTrip.antt =====
-- Canonical text is read back as the value that was written.
use delta_protocol.Prelude.{
  ℕ, zero, suc, ◌+◌, ◌*◌, ◌≤◌, ◌<◌, ◌≡◌, refl, ap, ◌∙◌, Bool, true, false, ◌&&◌, &&-split, [], ◌∷◌,
  ◌++◌, append_assoc, append-nil, arith, length, length-append,
}
use delta_protocol.Text.{Text, starts_with}
use delta_protocol.Json.{
  ℤ, pos, negsuc, Value, Items, Fields, null, bool, int, float, str, arr, obj, other, no_items,
  item, no_fields, field, distinct_keys,
}
use delta_protocol.Json.Dump.{dump, dump_items, dump_fields, dump_int, decimal, quote}
use delta_protocol.Result.{ok, ◌>>=◌}
use delta_protocol.Canonical.Scan.{skip_space}
use delta_protocol.Canonical.Load.{
  parse_value, parse_items, parse_fields, object_pairs_no_duplicates, load_json_text, finish, start,
  expect_word, value_at, array_at, object_at,
}
use delta_protocol.Canonical.Numbers.{ends}
use delta_protocol.Canonical.Plain.{is_plain, plain_items, plain_fields}
use delta_protocol.Canonical.Pairs.{pairs-of_distinct}
use delta_protocol.Canonical.Steps.{
  skip-dump, parse-pos, parse-negsuc, array_step, items_last, items_more,
}
use delta_protocol.Canonical.Entries.{string_step, object_step, fields_last, fields_more}

abbrev ReadsValue : Value → Type 0
ReadsValue v =
    is_plain v ≡ true
    → (rest : Text) → ends rest ≡ true
    → (f : ℕ) → 2 * length (dump v) < f
    → parse_value f (dump v ++ rest) ≡ ok (v, rest)

abbrev ReadsItems : Items → Type 0
ReadsItems xs =
    plain_items xs ≡ true
    → (w : Value) → is_plain w ≡ true
    → ReadsValue w
    → (rest : Text) (f : ℕ) → 2 * (length (dump w) + length (dump_items xs)) ≤ f
    → parse_items f (dump w ++ (dump_items xs ++ rest)) ≡ ok (item w xs, rest)

abbrev ReadsFields : Fields → Type 0
ReadsFields fs =
    plain_fields fs ≡ true
    → (k : Text) (w : Value) → is_plain w ≡ true
    → ReadsValue w
    → (rest : Text) (f : ℕ) → 2 * (length (dump w) + length (dump_fields fs)) ≤ f
    → parse_fields f (quote k ++ 58 ∷ (dump w ++ (dump_fields fs ++ rest)))
      ≡ ok (field k w fs, rest)

-- What holds at every successor above a bound holds above the bound.
from_successors {ℓ} :
    {bound : ℕ} (P : ℕ → Type ℓ)
    → ((fuel : ℕ) → bound ≤ fuel → P (suc fuel))
    → (fuel : ℕ) → bound < fuel
    → P fuel
from_successors P at_suc zero below = absurd (omega arith)
from_successors P at_suc (suc fuel) below = at_suc fuel (omega arith)

null_step :
    (rest : Text) (f : ℕ) → parse_value (suc f) (b'n' ∷ b'u' ∷ b'l' ∷ b'l' ∷ rest) ≡ ok (null, rest)
unfolding parse_value value_at start expect_word starts_with
null_step rest f = refl

bool_step :
    (b : Bool) (rest : Text) (f : ℕ)
    → parse_value (suc f) (dump (bool b) ++ rest) ≡ ok (bool b, rest)
unfolding dump parse_value value_at start expect_word starts_with
bool_step true rest f = refl
bool_step false rest f = refl

int_step :
    (i : ℤ) (rest : Text) (f : ℕ)
    → is_plain (int i) ≡ true
    → ends rest ≡ true
    → parse_value (suc f) (dump (int i) ++ rest) ≡ ok (int i, rest)
unfolding dump dump_int is_plain
int_step (pos n) rest f p e = parse-pos f n rest e p
int_step (negsuc n) rest f p e =
    let next : n + 1 ≡ suc n = omega arith in
    ap (λ m. parse_value (suc f) (b'-' ∷ (decimal m ++ rest))) next ∙ parse-negsuc f n rest e p

no_items_step :
    (rest : Text) (f : ℕ) → parse_value (suc f) (91 ∷ 93 ∷ rest) ≡ ok (arr no_items, rest)
unfolding parse_value value_at array_at object_at start skip_space
no_items_step rest f = refl

no_fields_step :
    (rest : Text) (f : ℕ) → parse_value (suc f) (123 ∷ 125 ∷ rest) ≡ ok (obj no_fields, rest)
unfolding parse_value value_at array_at object_at start skip_space
no_fields_step rest f = refl

ruleset lengths = (arith, length-append)

mutual
  unfolding dump is_plain

  reads : (v : Value) → ReadsValue v
  reads null p rest e = from_successors _ λ f h. null_step rest f
  reads (bool b) p rest e = from_successors _ λ f h. bool_step b rest f
  reads (int i) p rest e = from_successors _ λ f h. int_step i rest f p e
  reads (float r i) p rest e = absurd (cc)
  reads (str t) p rest e = from_successors _ λ f h. string_step f t rest
  reads (arr no_items) p rest e = from_successors _ λ f h. no_items_step rest f
  reads (arr (item v xs)) p rest e = from_successors _ λ f h.
      let (pv, ps) = &&-split (is_plain v) (plain_items xs) p in
      ap (λ x. parse_value (suc f) (91 ∷ x)) (append_assoc (dump v) (dump_items xs) rest)
      ∙ (array_step f v (dump_items xs ++ rest) pv
          ∙ ap (λ r. r >>= λ (ys, t). ok (arr ys, t))
              (reads_items xs ps v pv (reads v) rest f
                (omega (arith, length-append (dump v) (dump_items xs)))))
  reads (obj no_fields) p rest e = from_successors _ λ f h. no_fields_step rest f
  reads (obj (field k v fs)) p rest e = from_successors _ λ f h.
      let (distinct, q) =
        &&-split (distinct_keys (field k v fs)) (is_plain v && plain_fields fs) p in
      let (pv, ps) = &&-split (is_plain v) (plain_fields fs) q in
      ap (λ x. parse_value (suc f) (123 ∷ x))
        (append_assoc (quote k) (58 ∷ (dump v ++ dump_fields fs)) rest
          ∙ ap (λ x. quote k ++ 58 ∷ x) (append_assoc (dump v) (dump_fields fs) rest))
      ∙ (object_step f k (58 ∷ (dump v ++ (dump_fields fs ++ rest)))
          ∙ (ap
                (λ r. r >>= λ (pairs, t).
                  object_pairs_no_duplicates no_fields pairs >>= λ gs. ok (obj gs, t))
                (reads_fields fs ps k v pv (reads v) rest f (
                  omega (
                    arith,
                    length-append (dump v) (dump_fields fs),
                    length-append (quote k) (58 ∷ (dump v ++ dump_fields fs)),
                  )))
              ∙ ap (λ r. r >>= λ gs. ok (obj gs, rest))
                  (pairs-of_distinct (field k v fs) distinct)))
  reads (other n) p rest e = absurd (cc)

  reads_items : (xs : Items) → ReadsItems xs
  reads_items no_items p w q r rest zero h = absurd (omega arith)
  reads_items no_items p w q r rest (suc f) h =
      items_last f w (dump w ++ 93 ∷ rest) rest (r q (93 ∷ rest) refl f (omega arith))
  reads_items (item v xs) p w q r rest zero h = absurd (omega arith)
  reads_items (item v xs) p w q r rest (suc f) h =
      let (pv, ps) = &&-split (is_plain v) (plain_items xs) p in
      let tail = 44 ∷ (dump v ++ (dump_items xs ++ rest)) in
      ap (λ x. parse_items (suc f) (dump w ++ 44 ∷ x)) (append_assoc (dump v) (dump_items xs) rest)
      ∙ (items_more f w v (dump w ++ tail) (dump_items xs ++ rest) pv
            (r q tail refl f (omega arith))
          ∙ ap (λ r'. r' >>= λ (ys, t). ok (item w ys, t))
              (reads_items xs ps v pv (reads v) rest f
                (omega (arith, length-append (dump v) (dump_items xs)))))

  reads_fields : (fs : Fields) → ReadsFields fs
  reads_fields no_fields p k w q r rest zero h = absurd (omega arith)
  reads_fields no_fields p k w q r rest (suc f) h =
      fields_last f k w (125 ∷ rest) rest q (r q (125 ∷ rest) refl f (omega arith))
  reads_fields (field j v fs) p k w q r rest zero h = absurd (omega arith)
  reads_fields (field j v fs) p k w q r rest (suc f) h =
      let (pv, ps) = &&-split (is_plain v) (plain_fields fs) p in
      let body = 58 ∷ (dump v ++ (dump_fields fs ++ rest)) in
      ap (λ x. parse_fields (suc f) (quote k ++ 58 ∷ (dump w ++ 44 ∷ x)))
        (append_assoc (quote j) (58 ∷ (dump v ++ dump_fields fs)) rest
          ∙ ap (λ x. quote j ++ 58 ∷ x) (append_assoc (dump v) (dump_fields fs) rest))
      ∙ (fields_more f k w (44 ∷ (quote j ++ body)) rest q j body
            (r q (44 ∷ (quote j ++ body)) refl f (omega arith))
          ∙ ap (λ r'. r' >>= λ (gs, t). ok (field k w gs, t))
              (reads_fields fs ps j v pv (reads v) rest f (
                omega (
                  arith,
                  length-append (dump v) (dump_fields fs),
                  length-append (quote j) (58 ∷ (dump v ++ dump_fields fs)),
                ))))

-- The parser reads a value of the profile off the front of any canonical text.
pub parse-dump :
    (v : Value) (rest : Text) (f : ℕ)
    → is_plain v ≡ true
    → ends rest ≡ true
    → 2 * length (dump v) < f
    → parse_value f (dump v ++ rest) ≡ ok (v, rest)
parse-dump v rest f p e h = reads v p rest e f h

finish-end : (v : Value) → finish (v, []) ≡ ok v
unfolding skip_space
finish-end v = refl

-- The compact text of a value of the profile loads as that value.
pub load-dump : (v : Value) → is_plain v ≡ true → load_json_text (dump v) ≡ ok v
unfolding load_json_text
load-dump v p =
    let skip : skip_space (dump v) ≡ dump v = rw append-nil at (skip-dump v [] p) in
    let whole : parse_value (2 * length (dump v) + 1) (dump v) ≡ ok (v, []) =
      rw append-nil at (parse-dump v [] (2 * length (dump v) + 1) p refl (omega arith)) in
    rw skip (rw whole (finish-end v))
