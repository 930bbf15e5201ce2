-- ===== src/Crypto.antt =====
-- The cryptographic code that the tools call and that is not in the repository: `hashlib.sha256`
-- and the Ed25519 signatures of the package `cryptography`. They are parameters. No law says that
-- SHA-256 has no collisions: theorems that depend on it give the two colliding inputs instead.
use delta_protocol.Prelude.{
  ℕ, ◌≡◌, ◌≢◌, Bool, true, false, ◌⊎◌, inl, inr, Bool-cases, ◌&&◌, ◌||◌, all, leb, length, [], ◌∷◌,
  ◌++◌, sym, ◌∙◌, false≢true,
}
use delta_protocol.Text.{Text, Bytes, lit, text_eq, text_eq→≡, text_eq_refl}

-- A lowercase hexadecimal digit.
unfoldable pub is_hex : ℕ → Bool
is_hex c = leb 48 c && leb c 57 || leb 97 c && leb c 102

pub record Crypto : Type 0 where
  -- `hashlib.sha256(data).hexdigest()`
  pub hexdigest : Bytes → Text
  -- `Ed25519PublicKey.from_public_bytes(key).verify(signature, message)` raises nothing.
  pub verifies : Bytes → Bytes → Bytes → Bool

-- What `hexdigest` is documented to return.
pub record IsLawful (c : Crypto) : Type 0 where
  pub length-hexdigest : (b : Bytes) → length (c.hexdigest b) ≡ 64
  pub hex-hexdigest : (b : Bytes) → all is_hex (c.hexdigest b) ≡ true

-- Two inputs of SHA-256 with one digest.
pub record Collision (c : Crypto) : Type 0 where
  pub left : Bytes
  pub right : Bytes
  pub differ : left ≢ right
  pub collide : c.hexdigest left ≡ c.hexdigest right

-- `"sha256:" + hashlib.sha256(data).hexdigest()`
unfoldable pub sha256_prefixed : Crypto → Bytes → Text
sha256_prefixed c b = lit "sha256:" ++ c.hexdigest b

cons-tail : (c : ℕ) (s t : Text) → c ∷ s ≡ c ∷ t → s ≡ t
cons-tail c s t h = cc

append-cancel : (p s t : Text) → p ++ s ≡ p ++ t → s ≡ t
append-cancel [] s t h = h
append-cancel (c ∷ p) s t h = append-cancel p s t (cons-tail c (p ++ s) (p ++ t) h)

text_eq-false : (a b : Text) → text_eq a b ≡ false → a ≢ b
text_eq-false a b h e = false≢true (rw e at (sym h) ∙ text_eq_refl b)

-- Equal hashes come from equal bytes, or show a collision.
pub sha256_prefixed-binds :
    (c : Crypto) (a b : Bytes) → sha256_prefixed c a ≡ sha256_prefixed c b → (a ≡ b) ⊎ Collision c
unfolding sha256_prefixed
sha256_prefixed-binds c a b h = elim (Bool-cases (text_eq a b)) [
  | inl same ↦ inl (text_eq→≡ a b same)
  | inr differ ↦ inr (record {
    left = a;
    right = b;
    differ = text_eq-false a b differ;
    collide = append-cancel (lit "sha256:") (c.hexdigest a) (c.hexdigest b) h;
  })
]
