-- ===== src/Intent/Registered.antt =====
-- The key that `find_registry_key` selects: listed, of the public key, and active at the time of
-- an approval that has one.
use delta_protocol.Intent.Matches.{
  Listed, InFields, first, later, registry_matches-Listed, names_key-parts,
}
use delta_protocol.Intent.Windows.{Moment, ActiveAt, time_of-Moment, active_at-ActiveAt}
use delta_protocol.Intent.Keys.{time_of}
use mathlib.Core.Option.{some-injective}
use delta_protocol.Prelude.{
  ℕ, ◌≡◌, refl, ap, ◌∙◌, true, false, Option, none, some, List, [], ◌∷◌, sym, ◌⊎◌,
}
use delta_protocol.Text.{Text, lit}
use delta_protocol.Json.{Value, Fields, str, get, truthy}
use delta_protocol.Result.{
  ok, err, Ensures, holds, Ensures-ok, Ensures-bind, Ensures-bind_any, Ensures-if, Ensures-weaken,
}
use delta_protocol.Crypto.{Crypto}
use delta_protocol.Intent.Keys.{Outcome, Env, public_key_hash, registry_matches}
use delta_protocol.Intent.Policy.{
  RegistryResult, active, registry_ok, find_registry_key, select_match, active_entry, active_at,
  active_result, names_key,
}
use delta_protocol.Intent.Verify.{registry_check}

-- An entry of the registry with the public key and no other hash than that of the key, which is
-- active at the time of the approval, where the approval has one.
pub record Registered (c : Crypto) (env : Env) (keys : List Value) (public_key created_at : Value)
    : Type 0 where
  pub entry : Fields
  pub pk_hash : Text
  pub created : Option ℕ
  pub listed : Listed entry keys
  pub hashes : public_key_hash c env public_key ≡ ok pk_hash
  pub names : get (lit "public_key") entry ≡ public_key
  pub same_hash :
      (truthy (get (lit "public_key_hash") entry) ≡ false)
      ⊎ (get (lit "public_key_hash") entry ≡ str pk_hash)
  pub time : Moment env created_at created
  pub is_active : (t : ℕ) → created ≡ some t → ActiveAt env entry t

module _ (public_key : Value) (pk_hash : Text) where
  -- The entry that the loop returns, if it returns one.
  Chosen : Env → Option ℕ → List Fields → Option Fields → Type 0
  Chosen env created es o =
      (e : Fields)
      → o ≡ some e
      → InFields e es
        × (names_key public_key pk_hash e ≡ true)
        × ((t : ℕ) → created ≡ some t → ActiveAt env e t)

  active_entry-Chosen :
      (env : Env) (created : Option ℕ) (es : List Fields)
      → Ensures (Chosen env created es) (active_entry env public_key pk_hash created es)
  unfolding active_entry Chosen
  active_entry-Chosen env created [] = holds λ e eq. cc
  active_entry-Chosen env created (d ∷ es) =
      let deeper =
        Ensures-weaken (active_entry-Chosen env created es)
          λ o k. λ e eq. let (m, n, a) = k e eq in (later m, n, a) in
      Ensures-if (names_key public_key pk_hash d)
        (λ named. Ensures-bind_any (active_at env created d) λ act ran.
          Ensures-if act
            (λ yes_active. holds λ e eq.
              let same : d ≡ e = some-injective d e eq in
              (
                rw same first,
                rw same at named,
                λ t made.
                    Ensures-ok (active_at-ActiveAt env t e)
                      (ap (λ o. active_at env o e) (sym made) ∙ rw same at (ran ∙ ap ok yes_active))
                      refl,
              ))
            (λ no_active. deeper))
        (λ other_key. deeper)

  -- What is known of an entry that is selected at the time `created_at`.
  Selected : Env → Value → List Fields → RegistryResult → Type 0
  Selected env created_at es r =
      (e : Fields)
      → r ≡ active e
      → (created : Option ℕ) × Moment env created_at created
        × InFields e es
        × (names_key public_key pk_hash e ≡ true)
        × ((t : ℕ) → created ≡ some t → ActiveAt env e t)

  active_result-Selected :
      (env : Env) (created : Option ℕ) (created_at : Value) (es : List Fields) (o : Option Fields)
      → Moment env created_at created
      → Chosen env created es o
      → Selected env created_at es (active_result o)
  unfolding Chosen Selected
  active_result-Selected env created created_at es none timed k = λ e eq. cc
  active_result-Selected env created created_at es (some d) timed k =
      λ e eq. let (m, n, a) = k e (cc) in (created, timed, m, n, a)

  select_match-Selected :
      (env : Env) (created_at : Value) (es : List Fields)
      → Ensures (Selected env created_at es) (select_match env public_key pk_hash created_at es)
  unfolding select_match Selected
  select_match-Selected env created_at [] = holds λ e eq. cc
  select_match-Selected env created_at (d ∷ es) =
      Ensures-bind (time_of-Moment env created_at) λ created timed.
        Ensures-bind (active_entry-Chosen env created (d ∷ es))
          λ o k. holds (active_result-Selected env created created_at (d ∷ es) o timed k)

module _ (c : Crypto) (env : Env) (public_key created_at : Value) where
  find_registry_key-Registered :
      (keys : List Value)
      → Ensures
          (λ r. (e : Fields) → r ≡ active e → Registered c env keys public_key created_at)
          (find_registry_key c env (some keys) public_key created_at)
  unfolding find_registry_key Selected
  find_registry_key-Registered keys =
      Ensures-bind_any (public_key_hash c env public_key) λ h hashed.
        Ensures-bind (registry_matches-Listed public_key h keys) λ es listed.
          Ensures-weaken (select_match-Selected public_key h env created_at es) λ r k. λ e eq.
            let (created, timed, m, n, a) = k e eq in
            let (same, hash) = names_key-parts public_key h e n in
            record {
              entry = e;
              pk_hash = h;
              created = created;
              listed = listed e m;
              hashes = hashed;
              names = same;
              same_hash = hash;
              time = timed;
              is_active = a;
            }

  -- The registry is not given, or has the key.
  pub RegistryAccepts : Option (List Value) → Type 0
  RegistryAccepts none = Unit
  RegistryAccepts (some keys) = Registered c env keys public_key created_at

  select_match-given :
      (h : Text) (es : List Fields)
      → Ensures
          (λ r. registry_ok r ≡ true → (e : Fields) × (r ≡ active e))
          (select_match env public_key h created_at es)
  unfolding select_match
  select_match-given h [] = holds λ k. cc
  select_match-given h (d ∷ es) = Ensures-bind_any (time_of env created_at) λ created timed.
      Ensures-bind_any (active_entry env public_key h created (d ∷ es)) λ o ran. holds (given o)
    where
      given :
          (o : Option Fields)
          → registry_ok (active_result o) ≡ true
          → (e : Fields) × (active_result o ≡ active e)
      given none k = cc
      given (some e) k = (e, refl)

  find_registry_key-given :
      (keys : List Value)
      → Ensures
          (λ r. registry_ok r ≡ true → (e : Fields) × (r ≡ active e))
          (find_registry_key c env (some keys) public_key created_at)
  unfolding find_registry_key
  find_registry_key-given keys = Ensures-bind_any (public_key_hash c env public_key) λ h hashed.
      Ensures-bind_any (registry_matches public_key h keys) λ es found. select_match-given h es

  registry_check-ok :
      (o : Outcome RegistryResult)
      → registry_check o ≡ true
      → (r : RegistryResult) × (o ≡ ok r) × (registry_ok r ≡ true)
  registry_check-ok (ok r) h = (r, refl, h)
  registry_check-ok (err e) h = cc

  pub registry_check-RegistryAccepts :
      (keys : Option (List Value))
      → registry_check (find_registry_key c env keys public_key created_at) ≡ true
      → RegistryAccepts keys
  unfolding RegistryAccepts
  registry_check-RegistryAccepts none h = tt
  registry_check-RegistryAccepts (some keys) h =
      let (r, ran, good) =
        registry_check-ok (find_registry_key c env (some keys) public_key created_at) h in
      let (e, same) = Ensures-ok (find_registry_key-given keys) ran good in
      Ensures-ok (find_registry_key-Registered keys) ran e same
