-- ===== src/Tests/Toy.antt =====
-- A hash and a signature scheme to run the code with: the digest is 64 times the digit of the
-- length, and a signature is the message.
use delta_protocol.Prelude.{
  ℕ, zero, suc, ◌+◌, ◌%◌, ◌≡◌, refl, ap, ◌∙◌, Option, none, some, true, all, length, [], ◌∷◌, arith,
}
use delta_protocol.Text.{Text, Bytes}
use delta_protocol.Base64.RoundTrip.{is_byte}
use delta_protocol.Audit.Keys.{Sealing, IsSound}
use delta_protocol.Crypto.{Crypto, IsLawful, is_hex}

abbrev pub repeat : ℕ → ℕ → Text
repeat zero c = []
repeat (suc n) c = c ∷ repeat n c

abbrev pub toy : Crypto
toy = record {
  hexdigest = λ b. repeat 64 (48 + length b % 10);
  verifies = λ key signature message. true;
}

length-repeat : (n c : ℕ) → length (repeat n c) ≡ n
length-repeat zero c = refl
length-repeat (suc n) c = ground (arith, length-repeat n c)

hex-digit : (n : ℕ) → is_hex (48 + n % 10) ≡ true
unfolding is_hex
hex-digit n = ground arith

hex-repeat : (n c : ℕ) → is_hex c ≡ true → all is_hex (repeat n c) ≡ true
hex-repeat zero c h = refl
hex-repeat (suc n) c h = ground (arith, hex-repeat n c)

pub toy-IsLawful : IsLawful toy
toy-IsLawful = record {
  length-hexdigest = λ b. length-repeat 64 (48 + length b % 10);
  hex-hexdigest = λ b. hex-repeat 64 (48 + length b % 10) (hex-digit (length b));
}

-- A sealed text writes every number in ones that a zero ends, behind a first byte.
abbrev ones : ℕ → Bytes → Bytes
ones zero t = 0 ∷ t
ones (suc n) t = 1 ∷ ones n t

abbrev unary : Bytes → Bytes
unary [] = []
unary (n ∷ p) = ones n (unary p)

abbrev count : ℕ → Bytes → Bytes
count k [] = []
count k (zero ∷ t) = k ∷ count 0 t
count k (suc b ∷ t) = count (suc k) t

abbrev unsealed : Bytes → Option Bytes
unsealed [] = none
unsealed (b ∷ t) = some (count 0 t)

abbrev pub toy_sealing : Sealing
toy_sealing = record {
  digest = λ b. b;
  public_of = λ private. repeat 32 1;
  exchange = λ private public. some (repeat 32 7);
  derive = λ salt secret. secret;
  seal = λ key nonce plaintext aad. 9 ∷ unary plaintext;
  unseal = λ key nonce ciphertext aad. unsealed ciphertext;
}

count-ones : (n k : ℕ) (t : Bytes) → count k (ones n t) ≡ (k + n) ∷ count 0 t
count-ones zero k t = let same : k ≡ k + 0 = omega arith in ap (λ i. i ∷ count 0 t) same
count-ones (suc n) k t =
    let same : suc k + n ≡ k + suc n = omega arith in
    count-ones n (suc k) t ∙ ap (λ i. i ∷ count 0 t) same

count-unary : (p : Bytes) → count 0 (unary p) ≡ p
count-unary [] = refl
count-unary (n ∷ p) =
    let same : 0 + n ≡ n = omega arith in count-ones n 0 (unary p) ∙ rw (same, count-unary p) refl

bytes-ones : (n : ℕ) (t : Bytes) → all is_byte t ≡ true → all is_byte (ones n t) ≡ true
bytes-ones zero t h = h
bytes-ones (suc n) t h = bytes-ones n t h

bytes-unary : (p : Bytes) → all is_byte (unary p) ≡ true
bytes-unary [] = refl
bytes-unary (n ∷ p) = bytes-ones n (unary p) (bytes-unary p)

pub toy_sealing-IsSound : IsSound toy_sealing
toy_sealing-IsSound = record {
  agrees = λ private other. refl;
  length-public_of = λ private. refl;
  bytes-public_of = λ private. refl;
  opens = λ key nonce plaintext aad. ap some (count-unary plaintext);
  bytes-seal = λ key nonce plaintext aad. bytes-unary plaintext;
  non_empty-seal = λ key nonce plaintext aad. refl;
}
