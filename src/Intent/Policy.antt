-- ===== src/Intent/Policy.antt =====
-- `find_registry_key`, `intent_policy_ok` and `record_intent_policy_ok`.
use delta_protocol.Prelude.{
  ℕ, Bool, true, false, ◌&&◌, ◌||◌, not, ltb, leb, Option, none, some, List, [], ◌∷◌, if◌then◌else◌,
}
use delta_protocol.Text.{Text, lit}
use delta_protocol.Json.{
  Value, Fields, null, bool, obj, no_fields, get, get_or, as_dict, is_text, truthy,
}
use delta_protocol.Result.{ok, ◌>>=◌}
use delta_protocol.Crypto.{Crypto}
use delta_protocol.Intent.Keys.{
  Outcome, Env, public_key_hash, parse_iso_z, time_of, same_text, registry_matches,
}

-- `t is None or test(t)`
abbrev pub where_given : Option ℕ → (ℕ → Bool) → Bool
where_given none test = true
where_given (some t) test = test t

-- The key is active at `created`: from `active_from`, and before `revoked_at`.
unfoldable pub active_at : Env → Option ℕ → Fields → Outcome Bool
active_at env none e = ok true
active_at env (some created) e = do
  active_from ← time_of env (get (lit "active_from") e)
  revoked_at ← time_of env (get (lit "revoked_at") e)
  ok (where_given active_from (λ t. leb t created) && where_given revoked_at (λ t. ltb created t))

-- The key of the entry is the public key, and its hash is not another one.
unfoldable pub names_key : Value → Text → Fields → Bool
names_key public_key pk_hash e =
    same_text public_key (get (lit "public_key") e)
    && (not (truthy (get (lit "public_key_hash") e))
        || is_text (get (lit "public_key_hash") e) pk_hash)

-- The loop over `matches`.
unfoldable pub active_entry : Env → Value → Text → Option ℕ → List Fields → Outcome (Option Fields)
active_entry env public_key pk_hash created [] = ok none
active_entry env public_key pk_hash created (e ∷ es) =
    let rest = active_entry env public_key pk_hash created es in
    if names_key public_key pk_hash e
    then active_at env created e >>= (λ good. if good then ok (some e) else rest)
    else rest

-- What `find_registry_key` returns, by its reason.
pub data RegistryResult : Type 0 where
  not_provided : RegistryResult
  active : Fields → RegistryResult
  not_found : RegistryResult
  not_active : RegistryResult

abbrev pub registry_ok : RegistryResult → Bool
registry_ok not_provided = true
registry_ok (active e) = true
registry_ok not_found = false
registry_ok not_active = false

abbrev pub active_result : Option Fields → RegistryResult
active_result none = not_active
active_result (some e) = active e

unfoldable pub select_match : Env → Value → Text → Value → List Fields → Outcome RegistryResult
select_match env public_key pk_hash created_at [] = ok not_found
select_match env public_key pk_hash created_at (e ∷ es) = do
  created ← time_of env created_at
  found ← active_entry env public_key pk_hash created (e ∷ es)
  ok (active_result found)

-- `find_registry_key`
unfoldable pub find_registry_key :
    Crypto → Env → Option (List Value) → Value → Value → Outcome RegistryResult
find_registry_key c env none public_key created_at = ok not_provided
find_registry_key c env (some keys) public_key created_at = do
  pk_hash ← public_key_hash c env public_key
  found ← registry_matches public_key pk_hash keys
  select_match env public_key pk_hash created_at found

-- `intent_policy_ok`: a key that is missing is an empty policy, a key that is no dict is refused.
unfoldable pub intent_policy_ok : Env → Fields → Outcome Bool
intent_policy_ok env attestation =
    elim (as_dict (get_or (lit "policy") (obj no_fields) attestation)) [
      | none ↦ ok false
      | some policy ↦ (do
        valid_from ← time_of env (get (lit "valid_from") policy)
        valid_until ← time_of env (get (lit "valid_until") policy)
        ok (
            where_given valid_from (λ t. leb t env.now)
            && where_given valid_until (λ t. leb env.now t)))
    ]

abbrev pub is_none : Value → Bool
is_none null = true
is_none _ = false

-- `v is True`
abbrev pub is_true : Value → Bool
is_true (bool b) = b
is_true _ = false

abbrev pub both_given : Option ℕ → Option ℕ → (ℕ → ℕ → Bool) → Bool
both_given (some a) (some b) test = test a b
both_given _ _ test = true

-- The comparison of the time of the approval with the deadline of the record.
unfoldable pub before_deadline : Env → Value → Value → Outcome Bool
before_deadline env deadline created_at = elim (truthy deadline) [
  | false ↦ ok true
  | true ↦ (do
    created ← parse_iso_z env created_at
    limit ← parse_iso_z env deadline
    ok (both_given created limit leb))
]

-- `record_intent_policy_ok`
unfoldable pub record_intent_policy_ok : Env → Fields → Fields → Outcome Bool
record_intent_policy_ok env record_ attestation =
    let required = get (lit "intent_required") record_ in
    let deadline = get (lit "intent_deadline") record_ in
    if is_none required && is_none deadline
    then ok true
    else if is_true required
    then before_deadline env deadline (get (lit "created_at") attestation)
    else ok false
