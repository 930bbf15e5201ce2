-- ===== src/Json/Sort.antt =====
-- `sort_keys=True`: the entries of every dict in the order of their keys.
use delta_protocol.Prelude.{
  Bool, true, false, ◌≡◌, refl, ◌||◌, ◌&&◌, [], ◌∷◌, arith, ltb, ◌==◌, if◌then◌else◌,
}
use delta_protocol.Text.{Text, text_eq}
use delta_protocol.Json.Values.{
  Value, Items, Fields, null, bool, int, float, str, arr, obj, other, no_items, item, no_fields,
  field, has_key,
}

-- `a <= b` on two texts, by code points.
unfoldable pub text_leb : Text → Text → Bool
text_leb [] t = true
text_leb (c ∷ s) [] = false
text_leb (c ∷ s) (d ∷ t) = ltb c d || c == d && text_leb s t

pub text_leb-total : (s t : Text) → text_leb s t ≡ false → text_leb t s ≡ true
unfolding text_leb
text_leb-total [] t h = ground arith
text_leb-total (c ∷ s) [] h = refl
text_leb-total (c ∷ s) (d ∷ t) h = ground (arith, text_leb-total s t)

pub text_leb-antisym : (s t : Text) → text_leb s t ≡ true → text_leb t s ≡ true → s ≡ t
unfolding text_leb
text_leb-antisym [] [] h k = refl
text_leb-antisym [] (d ∷ t) h k = ground arith
text_leb-antisym (c ∷ s) [] h k = ground arith
text_leb-antisym (c ∷ s) (d ∷ t) h k = ground (arith, text_leb-antisym s t)

pub text_leb_trans :
    (s t u : Text) → text_leb s t ≡ true → text_leb t u ≡ true → text_leb s u ≡ true
unfolding text_leb
text_leb_trans [] t u h k = refl
text_leb_trans (c ∷ s) [] u h k = ground arith
text_leb_trans (c ∷ s) (d ∷ t) [] h k = ground arith
text_leb_trans (c ∷ s) (d ∷ t) (e ∷ u) h k = ground (arith, text_leb_trans s t u)

unfoldable pub insert_sorted : Text → Value → Fields → Fields
insert_sorted k v no_fields = field k v no_fields
insert_sorted k v (field j w fs) =
    let rest = insert_sorted k v fs in
    if text_leb k j then field k v (field j w fs) else field j w rest

unfoldable mutual
  pub sort_keys : Value → Value
  sort_keys null = null
  sort_keys (bool b) = bool b
  sort_keys (int i) = int i
  sort_keys (float r i) = float r i
  sort_keys (str t) = str t
  sort_keys (arr xs) = arr (sort_items xs)
  sort_keys (obj fs) = obj (sort_fields fs)
  sort_keys (other n) = other n

  pub sort_items : Items → Items
  sort_items no_items = no_items
  sort_items (item v xs) = item (sort_keys v) (sort_items xs)

  pub sort_fields : Fields → Fields
  sort_fields no_fields = no_fields
  sort_fields (field k v fs) = insert_sorted k (sort_keys v) (sort_fields fs)

-- The keys stand in order, here and in every value below.
abbrev below : Text → Fields → Bool
below k no_fields = true
below k (field j w fs) = text_leb k j

unfoldable mutual
  pub sorted : Value → Bool
  sorted null = true
  sorted (bool b) = true
  sorted (int i) = true
  sorted (float r i) = true
  sorted (str t) = true
  sorted (arr xs) = sorted_items xs
  sorted (obj fs) = sorted_fields fs
  sorted (other n) = true

  pub sorted_items : Items → Bool
  sorted_items no_items = true
  sorted_items (item v xs) = sorted v && sorted_items xs

  pub sorted_fields : Fields → Bool
  sorted_fields no_fields = true
  sorted_fields (field k v fs) = below k fs && (sorted v && sorted_fields fs)

below-insert_sorted :
    (j k : Text) (v : Value) (fs : Fields)
    → text_leb j k ≡ true
    → below j fs ≡ true
    → below j (insert_sorted k v fs) ≡ true
unfolding insert_sorted
below-insert_sorted j k v no_fields h b = h
below-insert_sorted j k v (field i w fs) h b = ground arith

sorted-insert_sorted :
    (k : Text) (v : Value) (fs : Fields)
    → sorted v ≡ true
    → sorted_fields fs ≡ true
    → sorted_fields (insert_sorted k v fs) ≡ true
unfolding insert_sorted sorted
sorted-insert_sorted k v no_fields h s = ground arith
sorted-insert_sorted k v (field j w fs) h s =
    ground (arith, sorted-insert_sorted k v fs, below-insert_sorted j k v fs, text_leb-total k j)

mutual
  unfolding sort_keys sorted

  sorted-sort : (v : Value) → sorted (sort_keys v) ≡ true
  sorted-sort null = refl
  sorted-sort (bool b) = refl
  sorted-sort (int i) = refl
  sorted-sort (float r i) = refl
  sorted-sort (str t) = refl
  sorted-sort (arr xs) = sorted-sort_items xs
  sorted-sort (obj fs) = sorted-sort_fields fs
  sorted-sort (other n) = refl

  sorted-sort_items : (xs : Items) → sorted_items (sort_items xs) ≡ true
  sorted-sort_items no_items = refl
  sorted-sort_items (item v xs) = ground (arith, sorted-sort v, sorted-sort_items xs)

  sorted-sort_fields : (fs : Fields) → sorted_fields (sort_fields fs) ≡ true
  sorted-sort_fields no_fields = refl
  sorted-sort_fields (field k v fs) =
      sorted-insert_sorted k (sort_keys v) (sort_fields fs) (sorted-sort v) (sorted-sort_fields fs)

insert_sorted-below :
    (k : Text) (v : Value) (fs : Fields) → below k fs ≡ true → insert_sorted k v fs ≡ field k v fs
unfolding insert_sorted
insert_sorted-below k v no_fields h = refl
insert_sorted-below k v (field j w fs) h = ground arith

mutual
  unfolding sort_keys sorted

  sort-of_sorted : (v : Value) → sorted v ≡ true → sort_keys v ≡ v
  sort-of_sorted null h = refl
  sort-of_sorted (bool b) h = refl
  sort-of_sorted (int i) h = refl
  sort-of_sorted (float r i) h = refl
  sort-of_sorted (str t) h = refl
  sort-of_sorted (arr xs) h = ground (arith, sort_items-of_sorted xs)
  sort-of_sorted (obj fs) h = ground (arith, sort_fields-of_sorted fs)
  sort-of_sorted (other n) h = refl

  sort_items-of_sorted : (xs : Items) → sorted_items xs ≡ true → sort_items xs ≡ xs
  sort_items-of_sorted no_items h = refl
  sort_items-of_sorted (item v xs) h = ground (arith, sort-of_sorted v, sort_items-of_sorted xs)

  sort_fields-of_sorted : (fs : Fields) → sorted_fields fs ≡ true → sort_fields fs ≡ fs
  sort_fields-of_sorted no_fields h = refl
  sort_fields-of_sorted (field k v fs) h =
      ground (arith, sort-of_sorted v, sort_fields-of_sorted fs, insert_sorted-below k v fs)

-- Sorting what is sorted changes nothing.
pub sort_keys-sort_keys : (v : Value) → sort_keys (sort_keys v) ≡ sort_keys v
sort_keys-sort_keys v = sort-of_sorted (sort_keys v) (sorted-sort v)

pub has_key-insert_sorted :
    (j k : Text) (v : Value) (fs : Fields)
    → has_key j (insert_sorted k v fs) ≡ (text_eq k j || has_key j fs)
unfolding insert_sorted has_key
has_key-insert_sorted j k v no_fields = refl
has_key-insert_sorted j k v (field i w fs) = ground (arith, has_key-insert_sorted j k v fs)
