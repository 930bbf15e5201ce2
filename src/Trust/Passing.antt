-- ===== src/Trust/Passing.antt =====
-- Every ledger that is created, and appended to any number of times, passes the checks.
use delta_protocol.Prelude.{
  ◌+◌, ◌≡◌, refl, ap, ◌∙◌, true, ◌&&◌, none, List, [], ◌∷◌, ◌++◌, length, length-append, ltb,
  lt→ltb, arith,
}
use delta_protocol.Text.{Text, lit, text_eq, text_eq_refl}
use delta_protocol.Json.{
  Value, Fields, str, arr, obj, get, get_or, lookup, items_of, elements-items_of,
}
use delta_protocol.Result.{ok, ◌>>=◌, holds, Ensures-ok, Ensures-bind_any}
use delta_protocol.Crypto.{Crypto}
use delta_protocol.Trust.Entry.{
  EntryArgs, canonical_sha256, make_entry_body, wrap_entry, integrity_fields,
}
use delta_protocol.Trust.Ledger.{ledger_body, ledger_of, make_ledger, create_ledger}
use delta_protocol.Trust.Verify.{
  Flags, Loop, Report, step, run, start, entry_flags_ok, report_ok, supplied_hash, make_report,
  verify_ledger, all_linked_proofs_ok, found_record, next_loop,
}
use delta_protocol.Trust.Appended.{
  make_entry_body-Made, wrap_entry-Wrapped, next_loop-flags, check_entry-next_loop, run-append,
}

-- A ledger that passes every check.
pub record Passes (c : Crypto) (repr : Value → Text) (ledger : Fields) : Type 0 where
  pub report : Report
  pub verifies : verify_ledger c repr ledger none ≡ ok report
  pub passes : report_ok report ≡ true

-- A body of a ledger with these entries, which all pass, ending in the state `l`.
pub record GoodBody (c : Crypto) (body : Fields) (entries : List Value) (l : Loop) : Type 0 where
  pub kind : get (lit "type") body ≡ str (lit "delta_trust_ledger_body")
  pub protocol : get (lit "protocol") body ≡ str (lit "DELTA-0")
  pub holds_entries : get (lit "entries") body ≡ arr (items_of entries)
  pub runs : run c none 0 start entries ≡ ok l
  pub flags : entry_flags_ok l.flags ≡ true
  pub present : ltb 0 (length entries) ≡ true

unset_binding :
    (f : Flags)
    → entry_flags_ok f ≡ true
    → entry_flags_ok (record f { record_binding = f.record_binding && true }) ≡ true
unfolding entry_flags_ok
unset_binding f h = ground arith

module _ (c : Crypto) (repr : Value → Text) where
  pub ledger_of-Passes :
      (body : Fields) (h : Text) (entries : List Value) (l : Loop)
      → GoodBody c body entries l
      → canonical_sha256 c (obj body) ≡ ok h
      → Passes c repr (ledger_of body h)
  unfolding verify_ledger ledger_of integrity_fields supplied_hash make_report report_ok
      found_record get get_or lookup lit text_eq
  ledger_of-Passes body h entries l g hashed = record {
    report = make_report repr (ledger_of body h) h none l;
    verifies =
        rw (hashed, ◌>>=◌)
          (rw (g.holds_entries) (rw (elements-items_of entries) (rw (g.runs, ◌>>=◌) refl)));
    passes =
        rw (g.kind, g.protocol, g.holds_entries)
          (rw (elements-items_of entries, g.present, text_eq_refl h)
            (unset_binding l.flags g.flags));
  }

-- The entries of a ledger that passes: the loop runs over them with every flag set.
pub record GoodRun (c : Crypto) (entries : List Value) : Type 0 where
  pub final : Loop
  pub runs : run c none 0 start entries ≡ ok final
  pub flags : entry_flags_ok final.flags ≡ true
  pub present : ltb 0 (length entries) ≡ true

module _ (c : Crypto) (repr : Value → Text) where
  -- One more entry, made for the end of the ledger.
  made_step :
      (a : EntryArgs) (l : Loop) (body entry : Fields)
      → make_entry_body c repr a ≡ ok body
      → wrap_entry c body ≡ ok entry
      → a.previous_entry_hash ≡ l.previous_hash
      → all_linked_proofs_ok a.linked_proofs ≡ true
      → entry_flags_ok l.flags ≡ true
      → (m : Loop) × (step c none a.sequence l (obj entry) ≡ ok m) × (entry_flags_ok m.flags ≡ true)
  unfolding step
  made_step a l body entry made wrapped linked proofs good =
      let facts = Ensures-ok (make_entry_body-Made c repr a) made in
      let (h, hashed, w) = Ensures-ok (wrap_entry-Wrapped c body) wrapped in
      (
        next_loop none a.sequence l entry body h true true,
        rw (w.has_body, step) (check_entry-next_loop a l body entry h c facts hashed),
        next_loop-flags a l body entry h facts w linked proofs good,
      )

  pub made-GoodRun :
      (a : EntryArgs) (entries : List Value) (l : Loop) (body entry : Fields)
      → run c none 0 start entries ≡ ok l
      → make_entry_body c repr a ≡ ok body
      → wrap_entry c body ≡ ok entry
      → a.sequence ≡ length entries
      → a.previous_entry_hash ≡ l.previous_hash
      → all_linked_proofs_ok a.linked_proofs ≡ true
      → entry_flags_ok l.flags ≡ true
      → GoodRun c (entries ++ obj entry ∷ [])
  made-GoodRun a entries l body entry ran made wrapped at_end linked proofs good =
      let (m, stepped, flags) = made_step a l body entry made wrapped linked proofs good in
      record {
        final = m;
        runs =
            let at : 0 + length entries ≡ a.sequence = omega (arith, at_end) in
            run-append c entries (obj entry) 0 start l ran
            ∙ (ap (λ i. step c none i l (obj entry)) at ∙ stepped);
        flags = flags;
        present =
            lt→ltb 0 (length (entries ++ obj entry ∷ []))
              (omega (arith, length-append entries (obj entry ∷ [])));
      }

  pub make_ledger-Passes :
      (created_at chain_id : Text) (entries : List Value) (h : Text)
      → GoodRun c entries
      → canonical_sha256 c (obj (ledger_body created_at chain_id entries)) ≡ ok h
      → Passes c repr (ledger_of (ledger_body created_at chain_id entries) h)
  unfolding ledger_body get get_or lookup lit text_eq
  make_ledger-Passes created_at chain_id entries h g hashed =
      ledger_of-Passes c repr (ledger_body created_at chain_id entries) h entries g.final
        (record {
          kind = refl;
          protocol = refl;
          holds_entries = refl;
          runs = g.runs;
          flags = g.flags;
          present = g.present;
        })
        hashed

  nothing_run : run c none 0 start [] ≡ ok start
  unfolding run
  nothing_run = refl

  all_set : entry_flags_ok start.flags ≡ true
  unfolding entry_flags_ok
  all_set = refl

  -- A ledger that `create_ledger` gives, with well-formed linked proofs, passes every check.
  pub create_ledger-Passes :
      (created_at : Text) (args : EntryArgs) (ledger : Fields)
      → all_linked_proofs_ok args.linked_proofs ≡ true
      → create_ledger c repr created_at args ≡ ok ledger
      → Passes c repr ledger
  unfolding create_ledger make_ledger
  create_ledger-Passes created_at args ledger proofs run_ok =
      let first = record args { sequence = 0; previous_entry_hash = lit "GENESIS" } in
      Ensures-ok {P = Passes c repr}
        (Ensures-bind_any (make_entry_body c repr first) λ body made.
          Ensures-bind_any (wrap_entry c body) λ entry wrapped.
            Ensures-bind_any
              (canonical_sha256 c (obj (ledger_body created_at args.chain_id (obj entry ∷ []))))
              λ h hashed. holds (
                make_ledger-Passes created_at args.chain_id (obj entry ∷ []) h
                  (made-GoodRun first [] start body entry nothing_run made wrapped refl refl proofs
                    all_set)
                  hashed))
        run_ok
