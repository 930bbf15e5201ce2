-- ===== src/Trust/Appended.antt =====
-- Ledgers that are created and appended to pass the checks.
use delta_protocol.Trust.Verify.{next_loop}
use delta_protocol.Prelude.{
  ℕ, suc, ◌+◌, ◌≡◌, refl, ap, ◌∙◌, true, none, some, List, [], ◌∷◌, ◌++◌, length, arith,
}
use delta_protocol.Text.{Text, lit, text_eq, text_eq_refl, one_of, strip}
use delta_protocol.Json.{
  Value, Fields, str, arr, obj, int, pos, get, get_or, lookup, items_of, elements-items_of,
  dict_or_empty, as_dict,
}
use delta_protocol.Result.{
  Result, ok, err, ◌>>=◌, >>=-eq-ok, ok-injective, Ensures, holds, Ensures-bind, Ensures-bind_any,
  Ensures-require,
}
use delta_protocol.Crypto.{Crypto}
use delta_protocol.Trust.Entry.{
  EntryArgs, canonical_sha256, valid_roles, valid_event_types, normalize_role, normalize_event_type,
  unsupported_role, unsupported_event_type, record_target, actor_fields, integrity_fields,
  make_entry_body, wrap_entry,
}
use delta_protocol.Trust.Verify.{
  Loop, in_set, check_entry, step, run, entry_flags_ok, all_linked_proofs_ok, linked_proofs_list_ok,
  binding_ok,
}

>>=-ok : {E A : Type 0} (r : Result E A) → (r >>= λ x. ok x) ≡ r
>>=-ok (ok x) = refl
>>=-ok (err e) = refl

-- What the body of a new entry says.
pub record Made (a : EntryArgs) (body : Fields) : Type 0 where
  pub links : get (lit "previous_entry_hash") body ≡ str a.previous_entry_hash
  pub numbered : get (lit "sequence") body ≡ int (pos a.sequence)
  pub role :
      in_set (get (lit "role") (dict_or_empty (get (lit "actor") body))) valid_roles ≡ ok true
  pub event_type :
      in_set (get (lit "type") (dict_or_empty (get (lit "event") body))) valid_event_types ≡ ok true
  pub proofs : get (lit "linked_proofs") body ≡ arr (items_of a.linked_proofs)

normalize_role-one_of :
    (role : Text) → Ensures (λ r. one_of r valid_roles ≡ true) (normalize_role role)
unfolding normalize_role
normalize_role-one_of role =
    Ensures-require (one_of (strip role) valid_roles) unsupported_role λ h. holds h

normalize_event_type-one_of :
    (t : Text) → Ensures (λ r. one_of r valid_event_types ≡ true) (normalize_event_type t)
unfolding normalize_event_type
normalize_event_type-one_of t =
    Ensures-require (one_of (strip t) valid_event_types) unsupported_event_type λ h. holds h

module _ (c : Crypto) where
  pub make_entry_body-Made :
      (repr : Value → Text) (a : EntryArgs) → Ensures (Made a) (make_entry_body c repr a)
  unfolding make_entry_body actor_fields in_set get get_or lookup lit text_eq
  make_entry_body-Made repr a = Ensures-bind (normalize_role-one_of a.role) λ role r.
      Ensures-bind (normalize_event_type-one_of a.event_type) λ event e.
        Ensures-bind_any (record_target c repr a.target a.path) λ target t. holds (record {
          links = refl;
          numbered = refl;
          role = ap ok r;
          event_type = ap ok e;
          proofs = refl;
        })

  pub run-append :
      (xs : List Value) (v : Value) (i : ℕ) (l m : Loop)
      → run c none i l xs ≡ ok m
      → run c none i l (xs ++ v ∷ []) ≡ step c none (i + length xs) m v
  unfolding run
  run-append [] v i l m h =
      let same : l ≡ m = ok-injective l m h in
      let at_end : i ≡ i + 0 = omega arith in
      >>=-ok (step c none i l v)
      ∙ (ap (λ j. step c none j l v) at_end ∙ ap (λ k. step c none (i + 0) k v) same)
  run-append (x ∷ xs) v i l m h =
      let (next, e, rest) = >>=-eq-ok (step c none i l x) _ h in
      let at_end : suc i + length xs ≡ i + suc (length xs) = omega arith in
      rw (e, ◌>>=◌) (run-append xs v (suc i) next m rest ∙ ap (λ j. step c none j m v) at_end)

-- What the entry around a body of hash `h` says.
pub record Wrapped (body entry : Fields) (h : Text) : Type 0 where
  pub has_body : as_dict (get (lit "entry_body") entry) ≡ some body
  pub declares : get (lit "entry_body_hash") entry ≡ str h
  pub self_check :
      get (lit "self_check_hash") (dict_or_empty (get (lit "entry_integrity") entry)) ≡ str h

pub wrap_entry-Wrapped :
    (c : Crypto) (body : Fields)
    → Ensures
        (λ entry. (h : Text) × (canonical_sha256 c (obj body) ≡ ok h) × Wrapped body entry h)
        (wrap_entry c body)
unfolding wrap_entry integrity_fields get get_or lookup lit text_eq
wrap_entry-Wrapped c body =
    Ensures-bind_any (canonical_sha256 c (obj body))
      λ h e. holds (h, e, record { has_body = refl; declares = refl; self_check = refl })

-- The flags of the loop stay set.
module _ (a : EntryArgs) (l : Loop) (body entry : Fields) (h : Text) where
  pub next_loop-flags :
      Made a body
      → Wrapped body entry h
      → a.previous_entry_hash ≡ l.previous_hash
      → all_linked_proofs_ok a.linked_proofs ≡ true
      → entry_flags_ok l.flags ≡ true
      → entry_flags_ok (next_loop none a.sequence l entry body h true true).flags ≡ true
  unfolding next_loop linked_proofs_list_ok binding_ok entry_flags_ok
  next_loop-flags m w linked proofs good =
      rw (m.links, m.numbered, m.proofs, w.declares, w.self_check)
        (rw
          (
            ← linked,
            elements-items_of a.linked_proofs,
            proofs,
            text_eq_refl h,
            text_eq_refl a.previous_entry_hash,
          )
          (ground (arith)))

  pub check_entry-next_loop :
      (c : Crypto)
      → Made a body
      → canonical_sha256 c (obj body) ≡ ok h
      → check_entry c none a.sequence l entry body
        ≡ ok (next_loop none a.sequence l entry body h true true)
  unfolding check_entry
  check_entry-next_loop c m e = rw (e, ◌>>=◌) (rw (m.role, ◌>>=◌) (rw (m.event_type, ◌>>=◌) refl))
