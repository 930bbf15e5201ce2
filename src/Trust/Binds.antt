-- ===== src/Trust/Binds.antt =====
-- The last hash of a chain binds every entry before it.
use delta_protocol.Trust.Verify.{Report, report_ok, verify_ledger, list_or_empty}
use delta_protocol.Trust.Chain.{LedgerAccepted, verify_ledger-LedgerAccepted}
use delta_protocol.Json.{dict_or_empty}
use delta_protocol.Json.{null}
use delta_protocol.Prelude.{all, Option-cases}
use delta_protocol.Prelude.{
  ℕ, ◌≡◌, refl, sym, ap, ◌∙◌, Bool, true, false, &&-split, ◌⊎◌, inl, inr, none, some, List, [], ◌∷◌,
  length, arith,
}
use delta_protocol.Text.{Text, Bytes, lit}
use delta_protocol.Json.{Value, Fields, str, obj, get, get_or, lookup, distinct_keys, as_dict}
use delta_protocol.Json.Dump.{dump}
use delta_protocol.Json.Sort.{sort_keys, sort_fields}
use delta_protocol.Json.SortLookup.{lookup-sort_fields}
use delta_protocol.Json.Bytes.{json_bytes}
use delta_protocol.Utf8.{encode}
use delta_protocol.Result.{ok, or_raise, >>=-eq-ok, or_raise-eq-ok, ok-injective}
use delta_protocol.Crypto.{Crypto, Collision, sha256_prefixed-binds}
use delta_protocol.Canonical.Plain.{is_plain}
use delta_protocol.Canonical.Laws.{encode-dump-injective}
use delta_protocol.Trust.Entry.{canonical_sha256, unencodable}
use delta_protocol.Trust.Chain.{Chain, chain_end, chain_link}

-- Bodies that are equal up to the order of keys at every position.
pub data SameBodies : List Value → List Value → Type 0 where
  same_end : SameBodies [] []
  same_next :
      {e d b a : Fields} {es ds : List Value}
      → as_dict (get (lit "entry_body") e) ≡ some b
      → as_dict (get (lit "entry_body") d) ≡ some a
      → sort_keys (obj b) ≡ sort_keys (obj a)
      → SameBodies es ds
      → SameBodies (obj e ∷ es) (obj d ∷ ds)

json_bytes-text :
    (v : Value) (b : Bytes) → json_bytes false v ≡ some b → encode (dump (sort_keys v)) ≡ some b
unfolding json_bytes
json_bytes-text v b h = ground arith

module _ (c : Crypto) where
  canonical_sha256-binds_bodies :
      (v w : Value) (h : Text)
      → is_plain v ≡ true
      → is_plain w ≡ true
      → canonical_sha256 c v ≡ ok h
      → canonical_sha256 c w ≡ ok h
      → (sort_keys v ≡ sort_keys w) ⊎ Collision c
  unfolding canonical_sha256
  canonical_sha256-binds_bodies v w h p q hv hw =
      let (a, ba, ea) = >>=-eq-ok (or_raise (json_bytes false v) unencodable) _ hv in
      let (b, bb, eb) = >>=-eq-ok (or_raise (json_bytes false w) unencodable) _ hw in
      let ta = json_bytes-text v a (or_raise-eq-ok (json_bytes false v) unencodable a ba) in
      let tb = json_bytes-text w b (or_raise-eq-ok (json_bytes false w) unencodable b bb) in
      elim (sha256_prefixed-binds c a b (ok-injective _ _ (ea ∙ sym eb))) [
        | inl same ↦ inl (encode-dump-injective v w b p q (rw (← same) ta) tb)
        | inr collision ↦ inr collision
      ]

get-str : (k t : Text) (fs : Fields) → get k fs ≡ str t → lookup k fs ≡ some (str t)
unfolding get get_or
get-str k t fs h = elim (Option-cases (lookup k fs)) [
  | inl missing ↦ let bad : null ≡ str t = rw (missing, get, get_or) at h in absurd (cc)
  | inr (v, found) ↦ let there : v ≡ str t = rw (found, get, get_or) at h in found ∙ ap some there
]

-- A text field is the same in two dicts that are equal up to the order of keys.
same_field :
    (k p q : Text) (b a : Fields)
    → distinct_keys b ≡ true
    → distinct_keys a ≡ true
    → sort_keys (obj b) ≡ sort_keys (obj a)
    → get k b ≡ str p
    → get k a ≡ str q
    → p ≡ q
unfolding sort_keys
same_field k p q b a db da same hp hq =
    let sorted : sort_fields b ≡ sort_fields a = cc in
    let lp = lookup-sort_fields k p b db (get-str k p b hp) in
    let lq = lookup-sort_fields k q a da (get-str k q a hq) in
    let both : some (str p) ≡ some (str q) = sym lp ∙ (ap (lookup k) sorted ∙ lq) in cc

-- The body of an entry is of the canonical profile.
unfoldable pub plain_body : Value → Bool
plain_body (obj e) = elim (as_dict (get (lit "entry_body") e)) [
  | none ↦ true
  | some b ↦ is_plain (obj b)
]
plain_body _ = true

plain_body-Link :
    (e b : Fields)
    → as_dict (get (lit "entry_body") e) ≡ some b
    → plain_body (obj e) ≡ true
    → is_plain (obj b) ≡ true
unfolding plain_body
plain_body-Link e b found p = rw (found, plain_body) at p

plain-distinct : (b : Fields) → is_plain (obj b) ≡ true → distinct_keys b ≡ true
unfolding is_plain
plain-distinct b p = ground arith

module _ (c : Crypto) where
  -- Two chains of one length with one last hash, whose bodies are of the canonical profile, have
  -- the same bodies up to the order of keys and start after the same hash, or SHA-256 has a
  -- collision.
  pub Chain-binds :
      {es ds : List Value} {i j : ℕ} {p q last : Text}
      → Chain c i p last es
      → Chain c j q last ds
      → length es ≡ length ds
      → all plain_body es ≡ true
      → all plain_body ds ≡ true
      → (SameBodies es ds × (p ≡ q)) ⊎ Collision c
  Chain-binds chain_end chain_end n pe pd = inl (same_end, refl)
  Chain-binds chain_end (chain_link m y) n pe pd = absurd (omega arith)
  Chain-binds (chain_link l x) chain_end n pe pd = absurd (omega arith)
  Chain-binds {p = p} {q = q} (chain_link {h = h} {entry = e} {body = b} {rest = es} l x)
        (chain_link {entry = d} {body = a} {rest = ds} m y) n pe pd =
      let (pb, pes) = &&-split (plain_body (obj e)) (all plain_body es) pe in
      let (pa, pds) = &&-split (plain_body (obj d)) (all plain_body ds) pd in
      let qb = plain_body-Link e b l.has_body pb in
      let qa = plain_body-Link d a m.has_body pa in
      elim (Chain-binds x y (omega arith) pes pds) [
        | inr collision ↦ inr collision
        | inl (bodies, one_hash) ↦
            elim (canonical_sha256-binds_bodies c (obj b) (obj a) h qb qa l.hashes
              (m.hashes ∙ ap ok (sym one_hash))) [
                | inr collision ↦ inr collision
                | inl same ↦ inl (
                  same_next l.has_body m.has_body same bodies,
                  same_field (lit "previous_entry_hash") p q b a (plain-distinct b qb)
                      (plain-distinct a qa) same l.links m.links,
                )
              ]
      ]

-- The entries that `verify_ledger` reads.
abbrev pub ledger_entries : Fields → List Value
ledger_entries ledger =
    list_or_empty (get (lit "entries") (dict_or_empty (get (lit "ledger_body") ledger)))

ledger-Chain :
    (c : Crypto) (ledger : Fields) (r : Report)
    → LedgerAccepted c ledger r
    → Chain c 0 (lit "GENESIS") r.last_entry_hash (ledger_entries ledger)
ledger-Chain c ledger r a = rw a.has_body a.chain

-- Two ledgers that pass every check, with one last hash and equally many entries, whose bodies are
-- of the canonical profile, have the same entry bodies up to the order of keys, or SHA-256 has a
-- collision.
pub verify_ledger-binds :
    (c : Crypto) (repr : Value → Text) (ledger other_ledger : Fields) (r s : Report)
    → verify_ledger c repr ledger none ≡ ok r
    → report_ok r ≡ true
    → verify_ledger c repr other_ledger none ≡ ok s
    → report_ok s ≡ true
    → r.last_entry_hash ≡ s.last_entry_hash
    → length (ledger_entries ledger) ≡ length (ledger_entries other_ledger)
    → all plain_body (ledger_entries ledger) ≡ true
    → all plain_body (ledger_entries other_ledger) ≡ true
    → SameBodies (ledger_entries ledger) (ledger_entries other_ledger) ⊎ Collision c
verify_ledger-binds c repr ledger other_ledger r s e1 k1 e2 k2 one_hash n p q =
    let x = ledger-Chain c ledger r (verify_ledger-LedgerAccepted c repr ledger none r e1 k1) in
    let y =
      ledger-Chain c other_ledger s
        (verify_ledger-LedgerAccepted c repr other_ledger none s e2 k2) in
    let z : Chain c 0 (lit "GENESIS") r.last_entry_hash (ledger_entries other_ledger) =
      rw one_hash y in
    elim (Chain-binds c x z n p q) [
      | inl (bodies, start) ↦ inl bodies
      | inr collision ↦ inr collision
    ]
