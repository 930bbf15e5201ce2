-- ===== src/Trust/Chain.antt =====
-- What a ledger that `verify_ledger` accepts is: a chain of hashes from `GENESIS`.
use delta_protocol.Trust.Verify.{next_loop}
use delta_protocol.Json.{is_dict→≡}
use delta_protocol.Trust.Verify.{make_report, found_record}
use delta_protocol.Prelude.{
  ℕ, suc, ◌≡◌, refl, ap, ◌∙◌, Bool, true, ◌&&◌, inl, inr, Option, some, List, [], ◌∷◌, arith,
  Option-cases, ltb, length,
}
use delta_protocol.Text.{Text, lit}
use delta_protocol.Json.{
  Value, Fields, null, bool, int, float, str, arr, obj, other, pos, get, as_dict, dict_or_empty,
  is_int, is_text→≡,
}
use delta_protocol.Result.{
  ok, >>=-eq-ok, ok-injective, Ensures, holds, Ensures-ok, Ensures-bind_any,
}
use delta_protocol.Crypto.{Crypto}
use delta_protocol.Trust.Entry.{canonical_sha256, valid_roles, valid_event_types}
use delta_protocol.Trust.Verify.{
  Flags, Loop, Report, in_set, check_entry, step, run, start, entry_flags_ok, report_ok,
  verify_ledger, supplied_hash, list_or_empty, linked_proofs_list_ok,
}

-- The entry number `idx` after an entry whose body has the hash `previous`; `h` is the hash of its
-- own body.
pub record Link (c : Crypto) (idx : ℕ) (previous h : Text) (entry body : Fields) : Type 0 where
  pub has_body : as_dict (get (lit "entry_body") entry) ≡ some body
  pub hashes : canonical_sha256 c (obj body) ≡ ok h
  pub declares : get (lit "entry_body_hash") entry ≡ str h
  pub links : get (lit "previous_entry_hash") body ≡ str previous
  pub numbered : is_int (get (lit "sequence") body) (pos idx) ≡ true
  pub role :
      in_set (get (lit "role") (dict_or_empty (get (lit "actor") body))) valid_roles ≡ ok true
  pub event_type :
      in_set (get (lit "type") (dict_or_empty (get (lit "event") body))) valid_event_types ≡ ok true
  pub proofs : linked_proofs_list_ok (get (lit "linked_proofs") body) ≡ true

-- A chain from number `idx` after the hash `previous`, whose last hash is `h`.
pub data Chain (c : Crypto) : ℕ → Text → Text → List Value → Type 0 where
  chain_end : {idx : ℕ} {h : Text} → Chain c idx h h []
  chain_link :
      {idx : ℕ} {previous h last : Text} {entry body : Fields} {rest : List Value}
      → Link c idx previous h entry body
      → Chain c (suc idx) h last rest
      → Chain c idx previous last (obj entry ∷ rest)

-- The flags that the chain depends on.
unfoldable pub flags_ok : Flags → Bool
flags_ok f =
    f.shapes
    && (f.hashes && (f.links && (f.sequence && (f.roles && (f.event_types && f.linked_proofs)))))

-- What one step keeps: where its flags are still set, they were before, and the entry is a link.
pub record Stepped (c : Crypto) (idx : ℕ) (l next : Loop) (v : Value) : Type 0 where
  pub entry : Fields
  pub body : Fields
  pub is_entry : v ≡ obj entry
  pub before : flags_ok l.flags ≡ true
  pub last : next.last_hash ≡ next.previous_hash
  pub link : Link c idx l.previous_hash next.previous_hash entry body

and-split :
    (s h l q r e p h' l' q' r' e' p' : Bool)
    → (s && ((h && h') && ((l && l') && ((q && q') && ((r && r') && ((e && e') && (p && p')))))))
      ≡ true
    → ((s && (h && (l && (q && (r && (e && p)))))) ≡ true)
      × (h' ≡ true)
      × (l' ≡ true)
      × (q' ≡ true)
      × (r' ≡ true)
      × (e' ≡ true)
      × (p' ≡ true)
and-split s h l q r e p h' l' q' r' e' p' k = ground arith

module _ (c : Crypto) (record_hash : Option Text) where
  check_entry-Stepped :
      (idx : ℕ) (l : Loop) (entry body : Fields)
      → as_dict (get (lit "entry_body") entry) ≡ some body
      → Ensures
          (λ next. flags_ok next.flags ≡ true → Stepped c idx l next (obj entry))
          (check_entry c record_hash idx l entry body)
  unfolding check_entry next_loop flags_ok
  check_entry-Stepped idx l entry body b =
      Ensures-bind_any (canonical_sha256 c (obj body)) λ h hashed.
        Ensures-bind_any
          (in_set (get (lit "role") (dict_or_empty (get (lit "actor") body))) valid_roles)
          λ r er.
            Ensures-bind_any
              (in_set (get (lit "type") (dict_or_empty (get (lit "event") body))) valid_event_types)
              λ e ee. holds λ k.
                let f = l.flags in
                let (before, declared, linked, numbered, role, event, proofs) =
                  and-split f.shapes f.hashes f.links f.sequence f.roles f.event_types
                    f.linked_proofs _ _ _ _ _ _ k in
                record {
                  entry = entry;
                  body = body;
                  is_entry = refl;
                  before = before;
                  last = refl;
                  link = record {
                    has_body = b;
                    hashes = hashed;
                    declares = is_text→≡ (get (lit "entry_body_hash") entry) h declared;
                    links = is_text→≡ (get (lit "previous_entry_hash") body) l.previous_hash linked;
                    numbered = numbered;
                    role = er ∙ ap ok role;
                    event_type = ee ∙ ap ok event;
                    proofs = proofs;
                  };
                }

  step-Stepped :
      (idx : ℕ) (l : Loop) (v : Value)
      → Ensures
          (λ next. flags_ok next.flags ≡ true → Stepped c idx l next v)
          (step c record_hash idx l v)
  unfolding step flags_ok
  step-Stepped idx l (obj entry) = elim (Option-cases (as_dict (get (lit "entry_body") entry))) [
    | inl missing ↦ rw (missing, step) (holds λ k. cc)
    | inr (body, found) ↦ rw (found, step) (check_entry-Stepped idx l entry body found)
  ]
  step-Stepped idx l null = holds λ k. cc
  step-Stepped idx l (bool b) = holds λ k. cc
  step-Stepped idx l (int i) = holds λ k. cc
  step-Stepped idx l (float r i) = holds λ k. cc
  step-Stepped idx l (str t) = holds λ k. cc
  step-Stepped idx l (arr xs) = holds λ k. cc
  step-Stepped idx l (other n) = holds λ k. cc

  -- The loop: the entries that are still to come are a chain from the hash that is carried.
  pub run-Chain :
      (vs : List Value) (idx : ℕ) (l final : Loop)
      → run c record_hash idx l vs ≡ ok final
      → flags_ok final.flags ≡ true
      → (flags_ok l.flags ≡ true) × Chain c idx l.previous_hash final.previous_hash vs
  unfolding run
  run-Chain [] idx l final h k =
      rw (← ok-injective l final h) (rw (← ok-injective l final h) at k, chain_end)
  run-Chain (v ∷ vs) idx l final h k =
      let (next, stepped, rest) = >>=-eq-ok (step c record_hash idx l v) _ h in
      let (there, chain) = run-Chain vs (suc idx) next final rest k in
      let s = Ensures-ok (step-Stepped idx l v) stepped there in
      (s.before, rw s.is_entry (chain_link s.link chain))

  run-last :
      (vs : List Value) (idx : ℕ) (l final : Loop)
      → run c record_hash idx l vs ≡ ok final
      → flags_ok final.flags ≡ true
      → l.last_hash ≡ l.previous_hash
      → final.last_hash ≡ final.previous_hash
  unfolding run
  run-last [] idx l final h k e = rw (← ok-injective l final h) e
  run-last (v ∷ vs) idx l final h k e =
      let (next, stepped, rest) = >>=-eq-ok (step c record_hash idx l v) _ h in
      let (there, chain) = run-Chain vs (suc idx) next final rest k in
      let s = Ensures-ok (step-Stepped idx l v) stepped there in
      run-last vs (suc idx) next final rest k s.last

  run-last_cons :
      (vs : List Value) (final : Loop)
      → ltb 0 (length vs) ≡ true
      → run c record_hash 0 start vs ≡ ok final
      → flags_ok final.flags ≡ true
      → final.last_hash ≡ final.previous_hash
  unfolding run
  run-last_cons [] final n h k = cc
  run-last_cons (v ∷ vs) final n h k =
      let (next, stepped, rest) = >>=-eq-ok (step c record_hash 0 start v) _ h in
      let (there, chain) = run-Chain vs 1 next final rest k in
      let s = Ensures-ok (step-Stepped 0 start v) stepped there in
      run-last vs 1 next final rest k s.last

-- A ledger that is accepted, with its report.
pub record LedgerAccepted (c : Crypto) (ledger : Fields) (r : Report) : Type 0 where
  pub body : Fields
  pub has_body : get (lit "ledger_body") ledger ≡ obj body
  pub hashes : canonical_sha256 c (obj body) ≡ ok r.ledger_body_hash
  pub declares : get (lit "ledger_body_hash") ledger ≡ str r.ledger_body_hash
  pub chain : Chain c 0 (lit "GENESIS") r.last_entry_hash (list_or_empty (get (lit "entries") body))
  pub not_empty : ltb 0 (length (list_or_empty (get (lit "entries") body))) ≡ true

pub report_ok-parts :
    (r : Report)
    → report_ok r ≡ true
    → (r.ledger_shape_ok ≡ true)
      × (r.entry_count_ok ≡ true)
      × (r.ledger_body_hash_ok ≡ true)
      × (entry_flags_ok r.entries_ok ≡ true)
unfolding report_ok
report_ok-parts r h = ground arith

pub flags_ok-found :
    (f : Flags) (b : Bool)
    → entry_flags_ok (record f { record_binding = b }) ≡ true
    → flags_ok f ≡ true
unfolding flags_ok entry_flags_ok
flags_ok-found f b h = ground arith

-- A ledger that passes every check has a body with the declared hash, and its entries are a chain
-- from `GENESIS`: each declares the hash of its body, names the hash of the one before it, has its
-- position as sequence, and has a known role and event type. The last hash is the one reported.
pub verify_ledger-LedgerAccepted :
    (c : Crypto) (repr : Value → Text) (ledger : Fields) (record_ : Option Fields) (r : Report)
    → verify_ledger c repr ledger record_ ≡ ok r
    → report_ok r ≡ true
    → LedgerAccepted c ledger r
unfolding verify_ledger make_report
verify_ledger-LedgerAccepted c repr ledger record_ r h k =
    let body = dict_or_empty (get (lit "ledger_body") ledger) in
    let entries = list_or_empty (get (lit "entries") body) in
    Ensures-ok {P = λ (r : Report). report_ok r ≡ true → LedgerAccepted c ledger r}
      (Ensures-bind_any (canonical_sha256 c (obj body)) λ expected hashed.
        Ensures-bind_any (supplied_hash c record_) λ record_hash supplied.
          Ensures-bind_any (run c record_hash 0 start entries) λ l ran. holds λ q.
            let (shape, count, declared, flags) =
              report_ok-parts (make_report repr ledger expected record_hash l) q in
            let good =
              flags_ok-found l.flags
                (l.flags.record_binding && found_record record_hash l.matching_record_entries)
                flags in
            let (first, chain) = run-Chain c record_hash entries 0 start l ran good in
            let linked : Chain c 0 (lit "GENESIS") l.last_hash entries =
              rw (run-last_cons c record_hash entries l count ran good) chain in
            record {
              body = body;
              has_body = is_dict→≡ (get (lit "ledger_body") ledger) shape;
              hashes = hashed;
              declares = is_text→≡ (get (lit "ledger_body_hash") ledger) expected declared;
              chain = linked;
              not_empty = count;
            })
      h k
