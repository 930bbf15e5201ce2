-- ===== src/Trust/Reached.antt =====
-- Ledgers that `command_create_ledger` writes and `command_append_entry` appends to.
use delta_protocol.Prelude.{
  ◌≡◌, refl, true, ◌||◌, not, inl, inr, Bool-cases, none, List, [], ◌∷◌, ◌++◌, length,
}
use delta_protocol.Text.{Text, lit, text_eq, starts_with, non_empty}
use delta_protocol.Json.{Value, Fields, str, obj, get, get_or, lookup, insert, truthy}
use delta_protocol.Result.{
  ok, ◌>>=◌, Ensures, holds, Ensures-ok, Ensures-bind, Ensures-bind_any, Ensures-require,
}
use delta_protocol.Crypto.{Crypto}
use delta_protocol.Trust.Entry.{
  EntryArgs, canonical_sha256, make_entry_body, wrap_entry, str_of, or_else, last_hash_invalid,
  chain_id_mismatch,
}
use delta_protocol.Trust.Ledger.{
  ledger_body, ledger_of, make_ledger, create_ledger, load_ledger, previous_hash_of,
  keep_created_at, append_entry,
}
use delta_protocol.Trust.Verify.{start, all_linked_proofs_ok}
use delta_protocol.Trust.Chain.{run-Chain, flags_ok-found}
use delta_protocol.Trust.Passing.{
  Passes, GoodBody, GoodRun, ledger_of-Passes, made-GoodRun, make_ledger-Passes,
  create_ledger-Passes,
}
use delta_protocol.Trust.Loaded.{load_ledger-parts, last_entry_hash-Chain, verify_ledger-GoodRun}
use delta_protocol.Trust.Linked.{
  Paths, linked_proof_from_args, all_linked_proofs_ok-linked_proof_from_args,
}

abbrev pub with_items : Crypto → Paths → EntryArgs → List Text → EntryArgs
with_items c paths args items = record args { linked_proofs = linked_proof_from_args c paths items }

module _ (c : Crypto) (repr : Value → Text) where
  kept-GoodBody :
      (created_at : Value) (now chain_id : Text) (entries : List Value) (g : GoodRun c entries)
      → GoodBody c
          (insert (lit "created_at") created_at (ledger_body now chain_id entries))
          entries
          g.final
  unfolding ledger_body insert get get_or lookup lit text_eq
  kept-GoodBody created_at now chain_id entries g = record {
    kind = refl;
    protocol = refl;
    holds_entries = refl;
    runs = g.runs;
    flags = g.flags;
    present = g.present;
  }

  -- What `keep_created_at` writes.
  keep_created_at-Passes :
      (created_at : Value) (now chain_id : Text) (entries : List Value) (h : Text)
      → GoodRun c entries
      → canonical_sha256 c (obj (ledger_body now chain_id entries)) ≡ ok h
      → Ensures (Passes c repr) (
          keep_created_at c created_at
            (ledger_body now chain_id entries)
            (ledger_of (ledger_body now chain_id entries) h))
  unfolding keep_created_at
  keep_created_at-Passes created_at now chain_id entries h g hashed =
      elim (Bool-cases (truthy created_at)) [
        | inr unset ↦
            rw (unset, keep_created_at)
              (holds (make_ledger-Passes c repr now chain_id entries h g hashed))
        | inl set ↦
            rw (set, keep_created_at)
              (let kept = insert (lit "created_at") created_at (ledger_body now chain_id entries) in
                Ensures-bind_any (canonical_sha256 c (obj kept)) λ k rehashed. holds (
                  ledger_of-Passes c repr kept k entries g.final
                    (kept-GoodBody created_at now chain_id entries g) rehashed))
      ]

  make_ledger-ledger_of :
      (now chain_id : Text) (entries : List Value)
      → Ensures
          (λ ledger.
            (h : Text) × (canonical_sha256 c (obj (ledger_body now chain_id entries)) ≡ ok h)
            × (ledger ≡ ledger_of (ledger_body now chain_id entries) h))
          (make_ledger c now chain_id entries)
  unfolding make_ledger
  make_ledger-ledger_of now chain_id entries =
      Ensures-bind_any (canonical_sha256 c (obj (ledger_body now chain_id entries)))
        λ h hashed. holds (h, hashed, refl)

  previous_hash_of-last :
      (entries : List Value) (g : GoodRun c entries)
      → Ensures (λ previous. previous ≡ g.final.previous_hash) (previous_hash_of entries)
  unfolding previous_hash_of
  previous_hash_of-last entries g =
      let good = flags_ok-found g.final.flags g.final.flags.record_binding g.flags in
      let (first, chain) = run-Chain c none entries 0 start g.final g.runs good in
      rw (last_entry_hash-Chain entries g.present chain, ◌>>=◌)
        (Ensures-require (starts_with g.final.previous_hash (lit "sha256:")) last_hash_invalid
          λ prefixed. holds refl)

  -- What `append_entry` writes, over the entries of a ledger that passes.
  append_entry-GoodRun :
      (now : Text) (args : EntryArgs) (body : Fields) (entries : List Value)
      → GoodRun c entries
      → all_linked_proofs_ok args.linked_proofs ≡ true
      → Ensures (Passes c repr) (append_entry c repr now args body entries)
  unfolding append_entry previous_hash_of make_ledger
  append_entry-GoodRun now args body entries g proofs =
      let chain_id = str_of repr (or_else (get (lit "chain_id") body) (str args.chain_id)) in
      Ensures-bind (previous_hash_of-last entries g) λ previous last.
        Ensures-require (not (non_empty args.chain_id) || text_eq args.chain_id chain_id)
          chain_id_mismatch
          λ same.
            let a = record args {
              chain_id = chain_id;
              sequence = length entries;
              previous_entry_hash = previous;
            } in
            Ensures-bind_any (make_entry_body c repr a) λ new made.
              Ensures-bind_any (wrap_entry c new) λ entry wrapped.
                let all_entries = entries ++ obj entry ∷ [] in
                Ensures-bind (make_ledger-ledger_of now chain_id all_entries) λ ledger made_of.
                  let (h, hashed, is_ledger) = made_of in
                  rw is_ledger (
                    keep_created_at-Passes (get (lit "created_at") body) now chain_id all_entries h
                      (made-GoodRun c repr a entries g.final new entry g.runs made wrapped refl last
                        proofs g.flags)
                      hashed)

  -- A ledger that `append_entry` gives for a ledger that passes every check passes them too.
  pub append_entry-Passes :
      (now : Text) (args : EntryArgs) (ledger body next : Fields) (entries : List Value)
      → Passes c repr ledger
      → load_ledger (obj ledger) ≡ ok (ledger, body, entries)
      → all_linked_proofs_ok args.linked_proofs ≡ true
      → append_entry c repr now args body entries ≡ ok next
      → Passes c repr next
  append_entry-Passes now args ledger body next entries p loaded proofs appended =
      let (same, is_body, is_entries) = Ensures-ok (load_ledger-parts ledger) loaded in
      let good : GoodRun c entries =
        rw (← is_entries, ← is_body)
          (Ensures-ok (verify_ledger-GoodRun c repr ledger) p.verifies p.passes) in
      Ensures-ok (append_entry-GoodRun now args body entries good proofs) appended

-- The ledgers that a sequence of the two commands writes, each with the linked proofs that the
-- command line names.
pub data Reached (c : Crypto) (repr : Value → Text) (paths : Paths) : Fields → Type 0 where
  created :
      {ledger : Fields} (now : Text) (args : EntryArgs) (items : List Text)
      → create_ledger c repr now (with_items c paths args items) ≡ ok ledger
      → Reached c repr paths ledger
  appended :
      {ledger body next : Fields} {entries : List Value} (now : Text) (args : EntryArgs)
      (items : List Text)
      → Reached c repr paths ledger
      → load_ledger (obj ledger) ≡ ok (ledger, body, entries)
      → append_entry c repr now (with_items c paths args items) body entries ≡ ok next
      → Reached c repr paths next

-- Whatever sequence of `create-ledger` and `append-entry` writes a ledger, `verify_ledger` gives a
-- report on it in which every check is set.
pub Reached-Passes :
    (c : Crypto) (repr : Value → Text) (paths : Paths) (ledger : Fields)
    → Reached c repr paths ledger
    → Passes c repr ledger
Reached-Passes c repr paths ledger (created now args items made) =
    create_ledger-Passes c repr now (with_items c paths args items) ledger
      (all_linked_proofs_ok-linked_proof_from_args c paths items) made
Reached-Passes c repr paths ledger (appended now args items before loaded made) =
    append_entry-Passes c repr now (with_items c paths args items) _ _ ledger _
      (Reached-Passes c repr paths _ before) loaded
      (all_linked_proofs_ok-linked_proof_from_args c paths items) made
