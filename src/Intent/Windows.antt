-- ===== src/Intent/Windows.antt =====
-- Time stamps, and the windows of a policy and of an entry of the registry.
use mathlib.Core.Option.{some-injective}
use delta_protocol.Prelude.{
  ℕ, ◌≡◌, refl, sym, Option-cases, ◌≤◌, ◌<◌, Bool, true, false, &&-split, Bool-cases, inl, inr, ltb,
  leb, leb→le, Option, none, some, [], ◌∷◌, arith,
}
use delta_protocol.Text.{Text, lit, strip}
use delta_protocol.Json.{
  Value, Fields, null, bool, int, float, str, arr, obj, other, no_fields, get, get_or, as_dict,
  truthy,
}
use delta_protocol.Result.{
  or_raise, or_raise-eq-ok, Ensures, holds, raised, Ensures-bind, Ensures-bind_any,
}
use delta_protocol.Intent.Keys.{Env, ends_in_z, parse_iso_z, time_of, bad_timestamp}
use delta_protocol.Intent.Policy.{where_given, active_at, intent_policy_ok}

-- A value that names no time, or a text that is the time stamp of an instant.
pub data Moment (env : Env) : Value → Option ℕ → Type 0 where
  absent : {v : Value} → truthy v ≡ false → Moment env v none
  stamped :
      {x : ℕ} {t : Text} {i : ℕ}
      → env.instant (ends_in_z (strip (x ∷ t))) ≡ some i
      → Moment env (str (x ∷ t)) (some i)

pub parse_iso_z-Moment : (env : Env) (v : Value) → Ensures (Moment env v) (parse_iso_z env v)
unfolding parse_iso_z
parse_iso_z-Moment env null = holds (absent refl)
parse_iso_z-Moment env (str []) = holds (absent refl)
parse_iso_z-Moment env (str (x ∷ t)) =
    Ensures-bind_any (or_raise (env.instant (ends_in_z (strip (x ∷ t)))) bad_timestamp)
      λ i e. holds (stamped (or_raise-eq-ok _ _ _ e))
parse_iso_z-Moment env (bool b) = raised
parse_iso_z-Moment env (int i) = raised
parse_iso_z-Moment env (float r i) = raised
parse_iso_z-Moment env (arr xs) = raised
parse_iso_z-Moment env (obj fs) = raised
parse_iso_z-Moment env (other n) = raised

pub time_of-Moment : (env : Env) (v : Value) → Ensures (Moment env v) (time_of env v)
unfolding time_of
time_of-Moment env v = elim (Bool-cases (truthy v)) [
  | inl given ↦ rw (given, time_of) (parse_iso_z-Moment env v)
  | inr missing ↦ rw (missing, time_of) (holds (absent missing))
]

where_given-all :
    (o : Option ℕ) (test : ℕ → Bool)
    → where_given o test ≡ true
    → (t : ℕ) → o ≡ some t
    → test t ≡ true
where_given-all none test h t e = cc
where_given-all (some s) test h t e = rw (sym (some-injective s t e)) h

ltb→lt : (a b : ℕ) → ltb a b ≡ true → a < b
ltb→lt a b h = ground arith

-- The entry is active at the instant: not before `active_from`, and before `revoked_at`, where
-- it has them.
pub record ActiveAt (env : Env) (entry : Fields) (created : ℕ) : Type 0 where
  pub from : Option ℕ
  pub revoked : Option ℕ
  pub is_from : Moment env (get (lit "active_from") entry) from
  pub is_revoked : Moment env (get (lit "revoked_at") entry) revoked
  pub after_start : (t : ℕ) → from ≡ some t → t ≤ created
  pub before_end : (t : ℕ) → revoked ≡ some t → created < t

pub active_at-ActiveAt :
    (env : Env) (created : ℕ) (entry : Fields)
    → Ensures
        (λ good. good ≡ true → ActiveAt env entry created)
        (active_at env (some created) entry)
unfolding active_at
active_at-ActiveAt env created entry =
    Ensures-bind (time_of-Moment env (get (lit "active_from") entry)) λ from mf.
      Ensures-bind (time_of-Moment env (get (lit "revoked_at") entry)) λ revoked mr. holds λ q.
        let (a, b) =
          &&-split (where_given from (λ t. leb t created))
            (where_given revoked (λ t. ltb created t)) q in
        record {
          from = from;
          revoked = revoked;
          is_from = mf;
          is_revoked = mr;
          after_start = λ t e. leb→le t created (where_given-all from _ a t e);
          before_end = λ t e. ltb→lt created t (where_given-all revoked _ b t e);
        }

-- The policy of the attestation is a dict, an empty one where it is missing, and the clock is
-- inside the window that it gives.
pub record PolicyHolds (env : Env) (attestation : Fields) : Type 0 where
  pub policy : Fields
  pub from : Option ℕ
  pub until : Option ℕ
  pub is_policy : as_dict (get_or (lit "policy") (obj no_fields) attestation) ≡ some policy
  pub is_from : Moment env (get (lit "valid_from") policy) from
  pub is_until : Moment env (get (lit "valid_until") policy) until
  pub started : (t : ℕ) → from ≡ some t → t ≤ env.now
  pub not_ended : (t : ℕ) → until ≡ some t → env.now ≤ t

pub intent_policy_ok-PolicyHolds :
    (env : Env) (a : Fields)
    → Ensures (λ good. good ≡ true → PolicyHolds env a) (intent_policy_ok env a)
unfolding intent_policy_ok
intent_policy_ok-PolicyHolds env a =
    elim (Option-cases (as_dict (get_or (lit "policy") (obj no_fields) a))) [
      | inl no_dict ↦ rw (no_dict, intent_policy_ok) (holds λ q. cc)
      | inr (policy, found) ↦
          rw (found, intent_policy_ok)
            (Ensures-bind (time_of-Moment env (get (lit "valid_from") policy)) λ from mf.
              Ensures-bind (time_of-Moment env (get (lit "valid_until") policy)) λ until mu.
                holds λ q.
                  let (s, n) =
                    &&-split (where_given from (λ t. leb t env.now))
                      (where_given until (λ t. leb env.now t)) q in
                  record {
                    policy = policy;
                    from = from;
                    until = until;
                    is_policy = found;
                    is_from = mf;
                    is_until = mu;
                    started = λ t e. leb→le t env.now (where_given-all from _ s t e);
                    not_ended = λ t e. leb→le env.now t (where_given-all until _ n t e);
                  })
    ]
