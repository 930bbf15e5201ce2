-- ===== src/Intent/Deadline.antt =====
-- The deadline that a record gives for its approval.
use mathlib.Core.Option.{some-injective}
use delta_protocol.Prelude.{
  ℕ, ◌≡◌, refl, ap, sym, ◌≤◌, true, false, ◌&&◌, &&-split, Bool-cases, inl, inr, leb, leb→le,
  Option, none, some,
}
use delta_protocol.Text.{lit}
use delta_protocol.Json.{Value, Fields, null, bool, int, float, str, arr, obj, other, get, truthy}
use delta_protocol.Result.{Ensures, holds, Ensures-bind, Ensures-if}
use delta_protocol.Intent.Keys.{Env}
use delta_protocol.Intent.Policy.{
  both_given, is_none, is_true, before_deadline, record_intent_policy_ok,
}
use delta_protocol.Intent.Windows.{Moment, absent, stamped, parse_iso_z-Moment}

-- The record asks for no approval, or asks for one and gives no deadline, or gives a deadline
-- that the time of the approval, where the attestation has one, is not after.
pub data RecordPolicy (env : Env) (record_ attestation : Fields) : Type 0 where
  not_asked :
      get (lit "intent_required") record_ ≡ null
      → get (lit "intent_deadline") record_ ≡ null
      → RecordPolicy env record_ attestation
  no_deadline :
      get (lit "intent_required") record_ ≡ bool true
      → truthy (get (lit "intent_deadline") record_) ≡ false
      → RecordPolicy env record_ attestation
  in_time :
      (created : Option ℕ) (limit : ℕ)
      → get (lit "intent_required") record_ ≡ bool true
      → Moment env (get (lit "intent_deadline") record_) (some limit)
      → Moment env (get (lit "created_at") attestation) created
      → ((t : ℕ) → created ≡ some t → t ≤ limit)
      → RecordPolicy env record_ attestation

is_none→≡ : (v : Value) → is_none v ≡ true → v ≡ null
is_none→≡ null h = refl
is_none→≡ (bool b) h = cc
is_none→≡ (int i) h = cc
is_none→≡ (float r i) h = cc
is_none→≡ (str t) h = cc
is_none→≡ (arr xs) h = cc
is_none→≡ (obj fs) h = cc
is_none→≡ (other n) h = cc

is_true→≡ : (v : Value) → is_true v ≡ true → v ≡ bool true
is_true→≡ (bool b) h = ap bool h
is_true→≡ null h = cc
is_true→≡ (int i) h = cc
is_true→≡ (float r i) h = cc
is_true→≡ (str t) h = cc
is_true→≡ (arr xs) h = cc
is_true→≡ (obj fs) h = cc
is_true→≡ (other n) h = cc

Moment-given :
    (env : Env) (v : Value) (o : Option ℕ)
    → truthy v ≡ true
    → Moment env v o
    → (i : ℕ) × (o ≡ some i)
Moment-given env v o given (absent missing) = cc
Moment-given env v o given (stamped {x} {t} {i} e) = (i, refl)

both_given-le :
    (created : Option ℕ) (limit : ℕ)
    → both_given created (some limit) leb ≡ true
    → (t : ℕ) → created ≡ some t
    → t ≤ limit
both_given-le none limit h t e = cc
both_given-le (some s) limit h t e = rw (sym (some-injective s t e)) (leb→le s limit h)

module _ (env : Env) (r a : Fields) where
  before_deadline-RecordPolicy :
      get (lit "intent_required") r ≡ bool true
      → Ensures
          (λ good. good ≡ true → RecordPolicy env r a)
          (before_deadline env (get (lit "intent_deadline") r) (get (lit "created_at") a))
  unfolding before_deadline
  before_deadline-RecordPolicy asked =
      let deadline = get (lit "intent_deadline") r in
      elim (Bool-cases (truthy deadline)) [
        | inr missing ↦ rw (missing, before_deadline) (holds λ q. no_deadline asked missing)
        | inl given ↦
            rw (given, before_deadline)
              (Ensures-bind (parse_iso_z-Moment env (get (lit "created_at") a)) λ created mc.
                Ensures-bind (parse_iso_z-Moment env deadline) λ limit ml. holds λ q.
                  let (i, is_limit) = Moment-given env deadline limit given ml in
                  in_time created i asked (rw is_limit at ml) mc
                    (both_given-le created i (rw is_limit at q)))
      ]

  pub record_intent_policy_ok-RecordPolicy :
      Ensures (λ good. good ≡ true → RecordPolicy env r a) (record_intent_policy_ok env r a)
  unfolding record_intent_policy_ok
  record_intent_policy_ok-RecordPolicy =
      let required = get (lit "intent_required") r in
      let deadline = get (lit "intent_deadline") r in
      Ensures-if (is_none required && is_none deadline)
        (λ both.
          let (q, d) = &&-split (is_none required) (is_none deadline) both in
          holds λ k. not_asked (is_none→≡ required q) (is_none→≡ deadline d))
        (λ some_given.
          Ensures-if (is_true required)
            (λ asked. before_deadline-RecordPolicy (is_true→≡ required asked))
            (λ not_true. holds λ k. cc))
