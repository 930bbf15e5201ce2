-- ===== src/Trust/Loaded.antt =====
-- What `load_ledger` gives of a ledger that passes the checks.
use delta_protocol.Prelude.{
  ℕ, ◌≡◌, refl, ap, true, ◌&&◌, none, some, List, [], ◌∷◌, length, ltb, lt→ltb, arith,
}
use delta_protocol.Text.{Text, lit}
use delta_protocol.Json.{
  Value, Fields, null, bool, int, float, other, str, arr, obj, get, as_dict, as_list, dict_or_empty,
}
use delta_protocol.Result.{ok, or_raise, or_raise-eq-ok, Ensures, holds, Ensures-bind_any}
use delta_protocol.Crypto.{Crypto}
use delta_protocol.Trust.Entry.{canonical_sha256, no_ledger_body, no_entries_list}
use delta_protocol.Trust.Ledger.{load_ledger, last_entry_hash}
use delta_protocol.Trust.Verify.{
  Flags, run, start, entry_flags_ok, report_ok, supplied_hash, list_or_empty, make_report,
  verify_ledger, found_record,
}
use delta_protocol.Trust.Chain.{Chain, chain_end, chain_link, report_ok-parts}
use delta_protocol.Trust.Passing.{GoodRun}

as_dict-dict_or_empty : (v : Value) (fs : Fields) → as_dict v ≡ some fs → dict_or_empty v ≡ fs
as_dict-dict_or_empty (obj gs) fs h = cc
as_dict-dict_or_empty null fs h = cc
as_dict-dict_or_empty (bool b) fs h = cc
as_dict-dict_or_empty (int i) fs h = cc
as_dict-dict_or_empty (float r i) fs h = cc
as_dict-dict_or_empty (str t) fs h = cc
as_dict-dict_or_empty (arr xs) fs h = cc
as_dict-dict_or_empty (other n) fs h = cc

as_list-list_or_empty : (v : Value) (vs : List Value) → as_list v ≡ some vs → list_or_empty v ≡ vs
as_list-list_or_empty (obj gs) vs h = cc
as_list-list_or_empty null vs h = cc
as_list-list_or_empty (bool b) vs h = cc
as_list-list_or_empty (int i) vs h = cc
as_list-list_or_empty (float r i) vs h = cc
as_list-list_or_empty (str t) vs h = cc
as_list-list_or_empty (arr xs) vs h = cc
as_list-list_or_empty (other n) vs h = cc

-- The body and the entries of a loaded ledger.
pub load_ledger-parts :
    (ledger : Fields)
    → Ensures
        (λ p.
          (p.0 ≡ ledger)
          × (dict_or_empty (get (lit "ledger_body") p.0) ≡ p.1)
          × (list_or_empty (get (lit "entries") p.1) ≡ p.2))
        (load_ledger (obj ledger))
unfolding load_ledger
load_ledger-parts ledger =
    Ensures-bind_any (or_raise (as_dict (get (lit "ledger_body") ledger)) no_ledger_body) λ b eb.
      Ensures-bind_any (or_raise (as_list (get (lit "entries") b)) no_entries_list) λ es ee. holds (
        refl,
        as_dict-dict_or_empty (get (lit "ledger_body") ledger) b (or_raise-eq-ok _ _ _ eb),
        as_list-list_or_empty (get (lit "entries") b) es (or_raise-eq-ok _ _ _ ee),
      )

unset_found :
    (f : Flags)
    → entry_flags_ok (record f { record_binding = f.record_binding && found_record none 0 }) ≡ true
    → entry_flags_ok f ≡ true
unfolding entry_flags_ok found_record
unset_found f h = ground arith

-- The last entry of a chain declares its last hash.
pub last_entry_hash-Chain :
    {c : Crypto} {i : ℕ} {previous last : Text} (vs : List Value)
    → ltb 0 (length vs) ≡ true
    → Chain c i previous last vs
    → last_entry_hash vs ≡ ok (str last)
unfolding last_entry_hash
last_entry_hash-Chain [] n k = cc
last_entry_hash-Chain (v ∷ []) n (chain_link link chain_end) = ap ok (link.declares)
last_entry_hash-Chain (v ∷ w ∷ vs) n (chain_link link rest) =
    last_entry_hash-Chain (w ∷ vs) (lt→ltb 0 (length (w ∷ vs)) (omega arith)) rest

module _ (c : Crypto) (repr : Value → Text) where
  pub verify_ledger-GoodRun :
      (ledger : Fields)
      → Ensures
          (λ r.
            report_ok r ≡ true
            → GoodRun c (
                list_or_empty
                  (get (lit "entries") (dict_or_empty (get (lit "ledger_body") ledger)))))
          (verify_ledger c repr ledger none)
  unfolding verify_ledger supplied_hash make_report found_record
  verify_ledger-GoodRun ledger =
      let body = dict_or_empty (get (lit "ledger_body") ledger) in
      Ensures-bind_any (canonical_sha256 c (obj body)) λ expected hashed.
        Ensures-bind_any (run c none 0 start (list_or_empty (get (lit "entries") body))) λ l ran.
          holds λ q.
            let (shape, count, declared, flags) =
              report_ok-parts (make_report repr ledger expected none l) q in
            record { final = l; runs = ran; flags = unset_found l.flags flags; present = count }
