-- ===== src/Json/SortLookup.antt =====
-- A dict keeps its entries when its keys are sorted.
use mathlib.Core.Option.{some-injective}
use delta_protocol.Prelude.{
  ◌≡◌, refl, ap, ◌∙◌, Bool, true, false, not, ◌||◌, &&-split, some, arith, if◌then◌else◌,
}
use delta_protocol.Text.{Text, text_eq, text_eq→≡, text_eq_refl}
use delta_protocol.Json.Values.{
  Value, Fields, str, no_fields, field, lookup, has_key, distinct_keys,
}
use delta_protocol.Json.Sort.{insert_sorted, sort_keys, sort_fields, has_key-insert_sorted}

lookup-insert_sorted :
    (j k : Text) (v : Value) (fs : Fields)
    → has_key j fs ≡ false
    → lookup k (insert_sorted j v fs) ≡ (if text_eq j k then some v else lookup k fs)
unfolding lookup insert_sorted has_key
lookup-insert_sorted j k v no_fields h = refl
lookup-insert_sorted j k v (field i w fs) h = ground (
  arith,
  lookup-insert_sorted j k v fs,
  text_eq→≡ i k,
  text_eq→≡ j k,
  text_eq→≡ i j,
  text_eq_refl k,
)

has_key-sort_fields : (j : Text) (fs : Fields) → has_key j (sort_fields fs) ≡ has_key j fs
unfolding has_key sort_fields
has_key-sort_fields j no_fields = refl
has_key-sort_fields j (field k v fs) =
    has_key-insert_sorted j k (sort_keys v) (sort_fields fs)
    ∙ ap (λ b. text_eq k j || b) (has_key-sort_fields j fs)

not-true : (b : Bool) → not b ≡ true → b ≡ false
not-true true h = cc
not-true false h = refl

sort_keys-str : (v : Value) (t : Text) → some v ≡ some (str t) → some (sort_keys v) ≡ some (str t)
unfolding sort_keys
sort_keys-str v t h = rw (some-injective v (str t) h) refl

-- A text that stands under a key is there after the keys are sorted.
pub lookup-sort_fields :
    (k t : Text) (fs : Fields)
    → distinct_keys fs ≡ true
    → lookup k fs ≡ some (str t)
    → lookup k (sort_fields fs) ≡ some (str t)
unfolding lookup sort_fields distinct_keys
lookup-sort_fields k t no_fields p h = h
lookup-sort_fields k t (field j v fs) p h =
    let (fresh, rest) = &&-split (not (has_key j fs)) (distinct_keys fs) p in
    let absent : has_key j (sort_fields fs) ≡ false =
      has_key-sort_fields j fs ∙ not-true (has_key j fs) fresh in
    lookup-insert_sorted j k (sort_keys v) (sort_fields fs) absent
    ∙ choose (text_eq j k) h (lookup-sort_fields k t fs rest)
  where
    choose :
        (b : Bool)
        → (if b then some v else lookup k fs) ≡ some (str t)
        → (lookup k fs ≡ some (str t) → lookup k (sort_fields fs) ≡ some (str t))
        → (if b then some (sort_keys v) else lookup k (sort_fields fs)) ≡ some (str t)
    choose true g ih = sort_keys-str v t g
    choose false g ih = ih g
