-- ===== src/Audit/Verify.antt =====
-- `command_verify_package`: the checks of a package against a record.
use delta_protocol.Prelude.{
  Bool, true, false, ◌&&◌, ◌||◌, not, any, Option, none, some, List, [], ◌∷◌,
}
use delta_protocol.Text.{Text, Bytes, lit, text_eq}
use delta_protocol.Json.{
  Value, Fields, str, arr, obj, get, as_dict, dict_or_empty, is_text, truthy, elements,
}
use delta_protocol.Json.Same.{same_value}
use delta_protocol.Result.{ok, err, ◌>>=◌, or_raise}
use delta_protocol.Crypto.{Crypto, sha256_prefixed}
use delta_protocol.Audit.Keys.{
  Outcome, attribute_error, unhashable, canonical_sha256, b64url_decode_unpadded,
}
use delta_protocol.Audit.Commitments.{Commitment, collect_evidence_commitments}

-- The flags of the loop over the entries.
pub record EntryFlags : Type 0 where
  pub shapes : Bool
  pub hashes : Bool
  pub aad_hashes : Bool
  pub ciphertext_hashes : Bool

abbrev pub known_hash : List Commitment → Text → Bool
known_hash ms h = any (λ (m : Commitment). text_eq m.evidence_hash h) ms

-- `commitment_hash in known_hashes`: a list or a dict has no hash.
unfoldable pub in_known : List Commitment → Value → Outcome Bool
in_known ms (str h) = ok (known_hash ms h)
in_known ms (arr xs) = err unhashable
in_known ms (obj fs) = err unhashable
in_known ms _ = ok false

unfoldable pub encryption_shape : Fields → Bool
encryption_shape enc =
    is_text (get (lit "alg") enc) (lit "X25519-HKDF-SHA256-AES-256-GCM")
    && (truthy (get (lit "ephemeral_public_key") enc)
        && (truthy (get (lit "nonce") enc) && truthy (get (lit "ciphertext") enc)))

abbrev pub text_of : (Value → Text) → Value → Text
text_of repr (str t) = t
text_of repr v = repr v

unfoldable pub hash_of_decoded : Crypto → Value → Outcome Bytes → Bool
hash_of_decoded c declared (ok raw) = is_text declared (sha256_prefixed c raw)
hash_of_decoded c declared (err e) = false

-- The `try` over the ciphertext, which stands where a hash is declared. `str` of what is no text is
-- `repr`.
unfoldable pub ciphertext_ok : Crypto → (Value → Text) → Fields → Bool
ciphertext_ok c repr enc =
    let declared = get (lit "ciphertext_hash") enc in
    not (truthy declared)
    || hash_of_decoded c declared
        (b64url_decode_unpadded (str (text_of repr (get (lit "ciphertext") enc))))

-- The flags after an entry.
unfoldable pub next_flags : Crypto → (Value → Text) → Fields → EntryFlags → Bool → Text → EntryFlags
next_flags c repr entry f known aad_hash =
    let evidence = dict_or_empty (get (lit "evidence") entry) in
    let enc = dict_or_empty (get (lit "encryption") entry) in
    record {
      shapes = f.shapes && encryption_shape enc;
      hashes =
          f.hashes
          && (known
              && same_value (get (lit "plaintext_hash") evidence)
                  (get (lit "commitment_hash") evidence));
      aad_hashes = f.aad_hashes && is_text (get (lit "aad_hash") entry) aad_hash;
      ciphertext_hashes = f.ciphertext_hashes && ciphertext_ok c repr enc;
    }

unfoldable pub check_entry :
    Crypto → (Value → Text) → List Commitment → EntryFlags → Value → Outcome EntryFlags
check_entry c repr ms f (obj entry) = do
  known ← in_known ms (get (lit "commitment_hash") (dict_or_empty (get (lit "evidence") entry)))
  aad_hash ← canonical_sha256 c (obj (dict_or_empty (get (lit "aad") entry)))
  ok (next_flags c repr entry f known aad_hash)
check_entry c repr ms f _ = ok (record f { shapes = false })

unfoldable pub check_entries :
    Crypto → (Value → Text) → List Commitment → EntryFlags → List Value → Outcome EntryFlags
check_entries c repr ms f [] = ok f
check_entries c repr ms f (v ∷ vs) = do
  next ← check_entry c repr ms f v
  check_entries c repr ms next vs

abbrev pub all_set : EntryFlags
all_set = record { shapes = true; hashes = true; aad_hashes = true; ciphertext_hashes = true }

-- Both documents name the key; where both have a hash of it, these are compared too.
unfoldable pub recipient_ok : Fields → Value → Outcome Bool
recipient_ok recipient public_doc = do
  doc ← or_raise (as_dict public_doc) attribute_error
  let ours = get (lit "public_key_hash") recipient
  let theirs = get (lit "public_key_hash") doc
  ok (
      same_value (get (lit "public_key") recipient) (get (lit "public_key") doc)
      && (not (truthy ours && truthy theirs) || same_value ours theirs))

unfoldable pub check_recipient : Fields → Option Value → Outcome Bool
check_recipient package_ none = ok true
check_recipient package_ (some doc) =
    recipient_ok (dict_or_empty (get (lit "recipient") package_)) doc

-- `checks`.
pub record Checks : Type 0 where
  pub shape_ok : Bool
  pub record_binding_ok : Bool
  pub recipient_ok : Bool
  pub entries_ok : EntryFlags
  pub present_ok : Bool

abbrev list_values : Value → List Value
list_values (arr xs) = elements xs
list_values _ = []

abbrev pub entries_in : Fields → List Value
entries_in package_ = list_values (get (lit "entries") package_)

abbrev some_left : {A : Type 0} → List A → Bool
some_left [] = false
some_left (x ∷ xs) = true

-- `command_verify_package`
unfoldable pub verify_package :
    Crypto → (Value → Text) → Value → Value → Option Value → Outcome Checks
verify_package c repr record_value package_value auditor_doc = do
  record_hash ← canonical_sha256 c record_value
  package_ ← or_raise (as_dict package_value) attribute_error
  recipient ← check_recipient package_ auditor_doc
  record_ ← or_raise (as_dict record_value) attribute_error
  let ms = collect_evidence_commitments record_ (lit "all")
  let entries = entries_in package_
  let summary = dict_or_empty (get (lit "evidence_summary") package_)
  flags ← check_entries c repr ms all_set entries
  ok (record {
    shape_ok =
        is_text (get (lit "type") package_) (lit "delta_audit_package")
        && is_text (get (lit "protocol") package_) (lit "DELTA-0");
    record_binding_ok =
        is_text (get (lit "record_hash") (dict_or_empty (get (lit "target") package_))) record_hash;
    recipient_ok = recipient;
    entries_ok = flags;
    present_ok =
        some_left entries
        || (truthy (get (lit "no_evidence_found") summary)
            || not (some_left ms) && not (some_left entries));
  })

unfoldable pub flags_ok : EntryFlags → Bool
flags_ok f = f.shapes && (f.hashes && (f.aad_hashes && f.ciphertext_hashes))

-- `all(checks.values())`
unfoldable pub all_ok : Checks → Bool
all_ok k =
    k.shape_ok
    && (k.record_binding_ok && (k.recipient_ok && (flags_ok k.entries_ok && k.present_ok)))
