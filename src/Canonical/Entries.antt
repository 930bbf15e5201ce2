-- ===== src/Canonical/Entries.antt =====
-- One step of the parser at the entries of a dict in canonical text.
use delta_protocol.Prelude.{ℕ, suc, ◌≡◌, refl, ap, true, [], ◌∷◌, ◌++◌, append_assoc}
use delta_protocol.Text.{Text}
use delta_protocol.Json.{Value, obj, no_fields, field}
use delta_protocol.Json.Dump.{dump, escape, quote}
use delta_protocol.Result.{ok, ◌>>=◌}
use delta_protocol.Canonical.Scan.{is_space, skip_space}
use delta_protocol.Canonical.Load.{
  start, value_at, object_at, entry_at, colon_at, fields_after, parse_value, parse_fields,
  object_pairs_no_duplicates,
}
use delta_protocol.Canonical.Strings.{scan_string-escape}
use delta_protocol.Canonical.Plain.{is_plain}
use delta_protocol.Canonical.Steps.{skip-dump}

quote-append : (k r : Text) → quote k ++ r ≡ 34 ∷ (escape k ++ 34 ∷ r)
unfolding quote
quote-append k r = ap (λ x. 34 ∷ x) (append_assoc (escape k) (34 ∷ []) r)

pub string_step : (f : ℕ) (t r : Text) → parse_value (suc f) (quote t ++ r) ≡ ok (Value.str t, r)
unfolding parse_value value_at start
string_step f t r = rw (quote-append t r) (rw (scan_string-escape t r, parse_value) refl)

pub object_step :
    (f : ℕ) (k r : Text)
    → parse_value (suc f) (123 ∷ (quote k ++ r)) ≡ (
        parse_fields f (quote k ++ r) >>= λ (pairs, rest).
        object_pairs_no_duplicates no_fields pairs >>= λ fs. ok (obj fs, rest))
unfolding parse_value value_at object_at start skip_space is_space
object_step f k r = rw (quote-append k r) refl

-- The rest of an entry, behind its key.
module _ (f : ℕ) (k : Text) (v : Value) (t r : Text) (plain : is_plain v ≡ true) where
  pub fields_last :
      parse_value f (dump v ++ t) ≡ ok (v, 125 ∷ r)
      → parse_fields (suc f) (quote k ++ 58 ∷ (dump v ++ t)) ≡ ok (field k v no_fields, r)
  unfolding parse_value entry_at colon_at fields_after skip_space is_space
  fields_last h = rw (quote-append k (58 ∷ (dump v ++ t))) (
      rw (scan_string-escape k (58 ∷ (dump v ++ t)), colon_at, entry_at, ◌>>=◌)
        (rw (skip-dump v t plain, colon_at, entry_at, ◌>>=◌) (rw (h, fields_after) refl)))

  pub fields_more :
      (j s : Text)
      → parse_value f (dump v ++ t) ≡ ok (v, 44 ∷ (quote j ++ s))
      → parse_fields (suc f) (quote k ++ 58 ∷ (dump v ++ t))
        ≡ (parse_fields f (quote j ++ s) >>= λ (fs, rest). ok (field k v fs, rest))
  unfolding parse_value entry_at colon_at fields_after skip_space is_space
  fields_more j s h = rw (quote-append k (58 ∷ (dump v ++ t))) (
      rw (scan_string-escape k (58 ∷ (dump v ++ t)), colon_at, entry_at, ◌>>=◌)
        (rw (skip-dump v t plain, colon_at, entry_at, ◌>>=◌)
          (rw (h, colon_at, entry_at, ◌>>=◌) (rw (quote-append j s) refl))))
