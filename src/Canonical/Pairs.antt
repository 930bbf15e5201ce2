-- ===== src/Canonical/Pairs.antt =====
-- What `_object_pairs_no_duplicates` accepts and gives.
use delta_protocol.Prelude.{
  ◌≡◌, refl, ap, ◌∙◌, subst, inl, inr, Bool-cases, true, false, ◌||◌, arith,
}
use delta_protocol.Text.{Text, text_eq, text_eq-sym, text_eq→≡, text_eq_refl}
use delta_protocol.Json.{Value, Fields, no_fields, field, has_key, insert, distinct_keys}
use delta_protocol.Result.{ok}
use delta_protocol.Canonical.Load.{object_pairs_no_duplicates}

-- `_object_pairs_no_duplicates` gives the pairs back where no key comes twice, and else raises.
append_fields : Fields → Fields → Fields
append_fields no_fields gs = gs
append_fields (field k v fs) gs = field k v (append_fields fs gs)

insert-fresh :
    (k : Text) (v : Value) (d rest : Fields)
    → has_key k d ≡ false
    → append_fields (insert k v d) rest ≡ append_fields d (field k v rest)
unfolding insert append_fields has_key
insert-fresh k v no_fields rest h = refl
insert-fresh k v (field j w d) rest h = ground (arith, insert-fresh k v d rest)

append-nil_fields : (d : Fields) → append_fields d no_fields ≡ d
unfolding append_fields
append-nil_fields no_fields = refl
append-nil_fields (field k v d) = ground (arith, append-nil_fields d)

has_key-append_fields :
    (j : Text) (d e : Fields) → has_key j (append_fields d e) ≡ (has_key j d || has_key j e)
unfolding append_fields has_key
has_key-append_fields j no_fields e = refl
has_key-append_fields j (field k v d) e = ground (arith, has_key-append_fields j d e)

has_key-field :
    (j k : Text) (v : Value) (fs : Fields)
    → has_key j (field k v fs) ≡ (text_eq k j || has_key j fs)
unfolding has_key
has_key-field j k v fs = refl

has_key-insert :
    (j k : Text) (v : Value) (d : Fields) → has_key j (insert k v d) ≡ (text_eq k j || has_key j d)
unfolding insert has_key
has_key-insert j k v no_fields = refl
has_key-insert j k v (field i w d) =
    ground (arith, has_key-insert j k v d, text_eq→≡ i k, text_eq_refl k)

fresh-append :
    (k : Text) (v : Value) (d rest : Fields)
    → distinct_keys (append_fields d (field k v rest)) ≡ true
    → has_key k d ≡ false
unfolding append_fields has_key distinct_keys
fresh-append k v no_fields rest h = refl
fresh-append k v (field j w d) rest h = ground (
  arith,
  fresh-append k v d rest,
  has_key-append_fields j d (field k v rest),
  text_eq-sym j k,
  has_key-field j k v rest,
)

-- Pairs with distinct keys are accepted.
pairs-accepted :
    (d pairs : Fields)
    → distinct_keys (append_fields d pairs) ≡ true
    → object_pairs_no_duplicates d pairs ≡ ok (append_fields d pairs)
unfolding object_pairs_no_duplicates
pairs-accepted d no_fields h = rw (append-nil_fields d)
pairs-accepted d (field k v rest) h = rw (fresh-append k v d rest h) (
    pairs-accepted (insert k v d) rest (rw (insert-fresh k v d rest (fresh-append k v d rest h)) h)
    ∙ ap ok (insert-fresh k v d rest (fresh-append k v d rest h)))

distinct-insert :
    (k : Text) (v : Value) (d : Fields)
    → has_key k d ≡ false
    → distinct_keys d ≡ true
    → distinct_keys (insert k v d) ≡ true
unfolding insert distinct_keys has_key
distinct-insert k v no_fields h e = refl
distinct-insert k v (field j w d) h e =
    ground (arith, distinct-insert k v d, has_key-insert j k v d, text_eq-sym j k)

-- What is accepted has distinct keys, and is the pairs.
pairs-distinct :
    (d pairs e : Fields)
    → distinct_keys d ≡ true
    → object_pairs_no_duplicates d pairs ≡ ok e
    → (e ≡ append_fields d pairs) × (distinct_keys e ≡ true)
unfolding object_pairs_no_duplicates
pairs-distinct d no_fields e h p =
    (rw (append-nil_fields d) (cc), subst (λ x. distinct_keys x ≡ true) (cc) h)
pairs-distinct d (field k v rest) e h p = elim (Bool-cases (has_key k d)) [
  | inl old ↦ cc (rw old at p)
  | inr new ↦
      let (same, distinct) =
        pairs-distinct (insert k v d) rest e (distinct-insert k v d new h) (rw new at p) in
      (same ∙ insert-fresh k v d rest new, distinct)
]

-- `_object_pairs_no_duplicates` on all pairs of an object.
pub pairs-of_distinct :
    (fs : Fields) → distinct_keys fs ≡ true → object_pairs_no_duplicates no_fields fs ≡ ok fs
unfolding append_fields
pairs-of_distinct fs h = pairs-accepted no_fields fs h

pub pairs-eq_ok :
    (fs e : Fields)
    → object_pairs_no_duplicates no_fields fs ≡ ok e
    → (e ≡ fs) × (distinct_keys e ≡ true)
unfolding append_fields distinct_keys
pairs-eq_ok fs e p = pairs-distinct no_fields fs e refl p
