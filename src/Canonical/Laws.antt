-- ===== src/Canonical/Laws.antt =====
-- Canonicalisation of canonical text, and what the canonical bytes and their hash say of a value.
use mathlib.Core.Option.{some-injective}
use delta_protocol.Prelude.{sym, ◌≡◌, refl, ap, ◌∙◌, ◌⊎◌, inl, inr, true, some}
use delta_protocol.Text.{Text, Bytes}
use delta_protocol.Json.{Value}
use delta_protocol.Json.Dump.{dump}
use delta_protocol.Json.Sort.{sort_keys, sort_keys-sort_keys}
use delta_protocol.Result.{ok, ◌>>=◌, or_raise, >>=-eq-ok, ok-injective, or_raise-eq-ok}
use delta_protocol.Utf8.{encode, decode, decode-encode}
use delta_protocol.Crypto.{Crypto, Collision, sha256_prefixed-binds}
use delta_protocol.Canonical.Load.{unicode_error, load_json_text, validate_value}
use delta_protocol.Canonical.Plain.{is_plain, validate-plain, plain-sort}
use delta_protocol.Canonical.RoundTrip.{load-dump}
use delta_protocol.Canonical.Sound.{load-plain}
use delta_protocol.Canonical.Api.{canonical_json_bytes, canonicalize_text, canonical_sha256}

-- The canonical text of a value, encoded.
bytes-text :
    (v : Value) (b : Bytes) → canonical_json_bytes v ≡ ok b → encode (dump (sort_keys v)) ≡ some b
unfolding canonical_json_bytes
bytes-text v b h =
    let (u, valid, e) = >>=-eq-ok (validate_value v) _ h in
    or_raise-eq-ok (encode (dump (sort_keys v))) unicode_error b e

-- The canonical text of a value of the profile is accepted, and stays as it is.
canonical-of_dump :
    (v : Value) (b : Bytes)
    → is_plain v ≡ true
    → encode (dump (sort_keys v)) ≡ some b
    → canonicalize_text (dump (sort_keys v)) ≡ ok (dump (sort_keys v))
unfolding canonicalize_text canonical_json_bytes
canonical-of_dump v b p e =
    let q = plain-sort v p in
    rw (load-dump (sort_keys v) q, ◌>>=◌)
      (rw (validate-plain (sort_keys v) q, ◌>>=◌)
        (rw (sort_keys-sort_keys v) (rw (e, or_raise) (rw (decode-encode _ b e, or_raise) refl))))

canonicalize_text-parts :
    (t c : Text)
    → canonicalize_text t ≡ ok c
    → (v : Value) × (b : Bytes) × (is_plain v ≡ true)
      × (encode (dump (sort_keys v)) ≡ some b)
      × (c ≡ dump (sort_keys v))
unfolding canonicalize_text
canonicalize_text-parts t c h =
    let (v, loaded, h1) = >>=-eq-ok (load_json_text t) _ h in
    let (b, bytes, h2) = >>=-eq-ok (canonical_json_bytes v) _ h1 in
    let e = bytes-text v b bytes in
    (
      v,
      b,
      load-plain t v loaded,
      e,
      some-injective c _ (sym (or_raise-eq-ok (decode b) unicode_error c h2) ∙ decode-encode _ b e),
    )

-- Canonical text is its own canonical text.
pub canonicalize_text-canonicalize_text :
    (t c : Text) → canonicalize_text t ≡ ok c → canonicalize_text c ≡ ok c
canonicalize_text-canonicalize_text t c h =
    let (v, b, p, e, same) = canonicalize_text-parts t c h in rw same (canonical-of_dump v b p e)

-- The encoded text of a value of the profile determines the value up to the order of keys.
pub encode-dump-injective :
    (v w : Value) (b : Bytes)
    → is_plain v ≡ true
    → is_plain w ≡ true
    → encode (dump (sort_keys v)) ≡ some b
    → encode (dump (sort_keys w)) ≡ some b
    → sort_keys v ≡ sort_keys w
encode-dump-injective v w b p q h k =
    let same = some-injective _ _ (sym (decode-encode _ b h) ∙ decode-encode _ b k) in
    ok-injective _ _ (
      sym (load-dump (sort_keys v) (plain-sort v p))
      ∙ (ap load_json_text same ∙ load-dump (sort_keys w) (plain-sort w q)))

-- Two values of the profile with the same canonical bytes are equal up to the order of keys.
pub canonical_json_bytes-injective :
    (v w : Value) (b : Bytes)
    → is_plain v ≡ true
    → is_plain w ≡ true
    → canonical_json_bytes v ≡ ok b
    → canonical_json_bytes w ≡ ok b
    → sort_keys v ≡ sort_keys w
canonical_json_bytes-injective v w b p q h k =
    encode-dump-injective v w b p q (bytes-text v b h) (bytes-text w b k)

-- Equal canonical hashes of two values of the profile: the values are equal up to the order of
-- keys, or their canonical bytes are a collision of SHA-256.
pub canonical_sha256-binds :
    (c : Crypto) (v w : Value) (h : Text)
    → is_plain v ≡ true
    → is_plain w ≡ true
    → canonical_sha256 c v ≡ ok h
    → canonical_sha256 c w ≡ ok h
    → (sort_keys v ≡ sort_keys w) ⊎ Collision c
unfolding canonical_sha256
canonical_sha256-binds c v w h p q hv hw =
    let (a, ba, ea) = >>=-eq-ok (canonical_json_bytes v) _ hv in
    let (b, bb, eb) = >>=-eq-ok (canonical_json_bytes w) _ hw in
    elim (sha256_prefixed-binds c a b (ok-injective _ _ (ea ∙ sym eb))) [
      | inl same ↦ inl (canonical_json_bytes-injective v w b p q (rw (← same) ba) bb)
      | inr collision ↦ inr collision
    ]
