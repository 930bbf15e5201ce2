-- ===== src/Intent/Matches.antt =====
-- The entries of a registry that match a public key.
use delta_protocol.Prelude.{
  ◌≡◌, Bool, true, false, List, [], ◌∷◌, if◌then◌else◌, ◌||◌, not, ◌⊎◌, inl, inr, &&-split,
  Bool-cases,
}
use delta_protocol.Text.{Text, lit}
use delta_protocol.Json.{
  Value, Fields, null, bool, int, float, str, arr, obj, other, get, truthy, is_text, is_text→≡,
}
use delta_protocol.Result.{Ensures, holds, raised, Ensures-bind}
use delta_protocol.Intent.Keys.{registry_matches, same_text}
use delta_protocol.Intent.Policy.{names_key}

-- An entry stands in the list of keys.
pub data Listed (e : Fields) : List Value → Type 0 where
  here : {vs : List Value} → Listed e (obj e ∷ vs)
  there : {v : Value} {vs : List Value} → Listed e vs → Listed e (v ∷ vs)

pub data InFields (e : Fields) : List Fields → Type 0 where
  first : {es : List Fields} → InFields e (e ∷ es)
  later : {d : Fields} {es : List Fields} → InFields e es → InFields e (d ∷ es)

module _ (public_key : Value) (pk_hash : Text) where
  found-Listed :
      (e d : Fields) (found : Bool) (rest : List Fields) (keys : List Value)
      → (InFields e rest → Listed e keys)
      → InFields e (if found then d ∷ rest else rest)
      → Listed e (obj d ∷ keys)
  found-Listed e d true rest keys k first = here
  found-Listed e d true rest keys k (later m) = there (k m)
  found-Listed e d false rest keys k m = there (k m)

  pub registry_matches-Listed :
      (keys : List Value)
      → Ensures
          (λ es. (e : Fields) → InFields e es → Listed e keys)
          (registry_matches public_key pk_hash keys)
  unfolding registry_matches
  registry_matches-Listed [] = holds λ e m. elim m [ ]
  registry_matches-Listed (obj d ∷ keys) =
      Ensures-bind (registry_matches-Listed keys)
        λ es k. holds λ e m. found-Listed e d _ es keys (k e) m
  registry_matches-Listed (null ∷ keys) = raised
  registry_matches-Listed (bool b ∷ keys) = raised
  registry_matches-Listed (int i ∷ keys) = raised
  registry_matches-Listed (float r i ∷ keys) = raised
  registry_matches-Listed (str t ∷ keys) = raised
  registry_matches-Listed (arr xs ∷ keys) = raised
  registry_matches-Listed (other n ∷ keys) = raised

same_text→≡ : (v w : Value) → same_text v w ≡ true → w ≡ v
same_text→≡ (str t) w h = is_text→≡ w t h
same_text→≡ null w h = cc
same_text→≡ (bool b) w h = cc
same_text→≡ (int i) w h = cc
same_text→≡ (float r i) w h = cc
same_text→≡ (arr xs) w h = cc
same_text→≡ (obj fs) w h = cc
same_text→≡ (other n) w h = cc

pub names_key-parts :
    (public_key : Value) (pk_hash : Text) (e : Fields)
    → names_key public_key pk_hash e ≡ true
    → (get (lit "public_key") e ≡ public_key)
      × ((truthy (get (lit "public_key_hash") e) ≡ false)
          ⊎ (get (lit "public_key_hash") e ≡ str pk_hash))
unfolding names_key
names_key-parts public_key pk_hash e h =
    let declared = get (lit "public_key_hash") e in
    let (same, hash) =
      &&-split (same_text public_key (get (lit "public_key") e))
        (not (truthy declared) || is_text declared pk_hash) h in
    (
      same_text→≡ public_key (get (lit "public_key") e) same,
      elim (Bool-cases (truthy declared)) [
        | inr missing ↦ inl missing
        | inl given ↦ inr (is_text→≡ declared pk_hash (rw given at hash))
      ],
    )
