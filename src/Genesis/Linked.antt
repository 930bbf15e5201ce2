-- ===== src/Genesis/Linked.antt =====
-- What an accepted chain proof shows.
use delta_protocol.Prelude.{◌≡◌, ap, ◌∙◌, some, List, [], ◌∷◌}
use delta_protocol.Text.{Text, lit, text_eq, text_eq→≡}
use delta_protocol.Json.{
  Value, Fields, null, bool, int, float, str, arr, obj, other, lookup, is_text, is_text→≡,
}
use delta_protocol.Result.{
  ok, require, or_raise, or_raise-eq-ok, require-eq-ok, Ensures, holds, raised, Ensures-ok,
  Ensures-bind, Ensures-bind_any, Ensures-require, Ensures-intro, Ensures-weaken,
}
use delta_protocol.Crypto.{Crypto}
use delta_protocol.Genesis.Chain.{
  missing_field, mismatch, sha256_object, require_field, require_field_equal, first_entry,
  follow_entries, ChainExpected, check_chain_header, verify_chain_proof,
}

-- Entries that lead from the hash `h` to the hash `last`: each names the hash of the one before it.
pub data Linked (c : Crypto) : Text → Text → List Value → Type 0 where
  linked_end : {h : Text} → Linked c h h []
  linked_step :
      {h next last : Text} {e : Fields} {es : List Value}
      → lookup (lit "prev_entry_hash") e ≡ some (str h)
      → sha256_object c (obj e) ≡ ok next
      → Linked c next last es
      → Linked c h last (obj e ∷ es)

-- A proof that is accepted.
pub record ChainAccepted (c : Crypto) (proof : Fields) (x : ChainExpected) : Type 0 where
  pub entries : Value
  pub first : Value
  pub rest : List Value
  pub has_entries : lookup (lit "entries") proof ≡ some entries
  pub are_entries : first_entry entries ≡ ok (first, rest)
  pub target : sha256_object c first ≡ ok x.target_entry_hash
  pub linked : Linked c x.target_entry_hash x.head_entry_hash rest

pub require_field_equal-eq-ok :
    (o : Fields) (k t : Text) → require_field_equal o k t ≡ ok tt → lookup k o ≡ some (str t)
unfolding require_field_equal require_field
require_field_equal-eq-ok o k t h =
    Ensures-ok
      (Ensures-bind_any (or_raise (lookup k o) (missing_field k)) λ v e.
        Ensures-intro (require (is_text v t) (mismatch k)) λ u q.
          or_raise-eq-ok (lookup k o) (missing_field k) v e
          ∙ ap some (is_text→≡ v t (require-eq-ok (is_text v t) (mismatch k) q)))
      h

module _ (c : Crypto) where
  follow_entries-Linked :
      (es : List Value) (current : Text)
      → Ensures (λ last. Linked c current last es) (follow_entries c current es)
  unfolding follow_entries
  follow_entries-Linked [] current = holds linked_end
  follow_entries-Linked (obj e ∷ es) current =
      Ensures-bind_any (require_field_equal e (lit "prev_entry_hash") current) λ u named.
        Ensures-bind_any (sha256_object c (obj e)) λ h hashed.
          Ensures-weaken (follow_entries-Linked es h) λ last linked.
            linked_step (require_field_equal-eq-ok e (lit "prev_entry_hash") current named) hashed
              linked
  follow_entries-Linked (null ∷ es) current = raised
  follow_entries-Linked (bool b ∷ es) current = raised
  follow_entries-Linked (int i ∷ es) current = raised
  follow_entries-Linked (float r i ∷ es) current = raised
  follow_entries-Linked (str t ∷ es) current = raised
  follow_entries-Linked (arr xs ∷ es) current = raised
  follow_entries-Linked (other n ∷ es) current = raised

  -- An accepted chain proof has a first entry with the target hash, and the entries behind it lead
  -- to the head hash, each naming the hash of the one before it.
  pub verify_chain_proof-ChainAccepted :
      (proof : Fields) (x : ChainExpected)
      → verify_chain_proof c proof x ≡ ok tt
      → ChainAccepted c proof x
  unfolding verify_chain_proof require_field
  verify_chain_proof-ChainAccepted proof x run =
      Ensures-ok {P = λ (u : Unit {0}). ChainAccepted c proof x}
        (Ensures-bind_any (check_chain_header proof x) λ u checked.
          Ensures-bind_any (or_raise (lookup (lit "entries") proof) (missing_field (lit "entries")))
            λ entries e1. Ensures-bind_any (first_entry entries) λ (first, rest) e2.
              Ensures-bind_any (sha256_object c first) λ h e3.
                Ensures-require (text_eq h x.target_entry_hash) (mismatch (lit "first")) λ q1.
                  Ensures-bind (follow_entries-Linked rest h) λ last linked.
                    Ensures-intro
                      (require (text_eq last x.head_entry_hash) (mismatch (lit "final")))
                      λ u2 q2.
                        let to_head = text_eq→≡ last x.head_entry_hash (
                          require-eq-ok (text_eq last x.head_entry_hash) (mismatch (lit "final"))
                            q2) in
                        let from_target = text_eq→≡ h x.target_entry_hash q1 in
                        record {
                          entries = entries;
                          first = first;
                          rest = rest;
                          has_entries =
                              or_raise-eq-ok (lookup (lit "entries") proof)
                                (missing_field (lit "entries")) entries e1;
                          are_entries = e2;
                          target = e3 ∙ ap ok from_target;
                          linked = rw (← from_target, ← to_head) linked;
                        })
        run
