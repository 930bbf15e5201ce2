-- ===== src/EvidenceSet/Valid.antt =====
-- A hash that the tools compute passes `validate_sha256`.
use delta_protocol.Prelude.{
  ℕ, ◌≡◌, refl, Bool, true, false, not, all, &&-split, [], ◌∷◌, ◌++◌, drop, arith,
}
use delta_protocol.Text.{
  Text, Bytes, lit, strip, strip_left, strip_right, is_white, lower, starts_with-append,
}
use delta_protocol.Json.{str}
use delta_protocol.Result.{ok}
use delta_protocol.Crypto.{Crypto, IsLawful, is_hex, sha256_prefixed}
use delta_protocol.EvidenceSet.Hashes.{normalize_sha256, validate_sha256}

hex-not_white : (c : ℕ) → is_hex c ≡ true → is_white c ≡ false
unfolding is_hex is_white
hex-not_white c h = ground arith

-- A text without white space.
abbrev is_solid : Text → Bool
is_solid t = all (λ c. not (is_white c)) t

strip_right-solid : (t : Text) → is_solid t ≡ true → strip_right t ≡ t
unfolding strip_right
strip_right-solid [] h = refl
strip_right-solid (c ∷ []) h = ground arith
strip_right-solid (c ∷ d ∷ t) h =
    let (solid, rest) = &&-split (not (is_white c)) (is_solid (d ∷ t)) h in
    rw (strip_right-solid (d ∷ t) rest) refl

hex-solid : (t : Text) → all is_hex t ≡ true → is_solid t ≡ true
hex-solid [] h = refl
hex-solid (c ∷ t) h = ground (arith, hex-not_white c, hex-solid t)

lower-hex : (t : Text) → all is_hex t ≡ true → lower t ≡ t
unfolding lower is_hex
lower-hex [] h = refl
lower-hex (c ∷ t) h = ground (arith, lower-hex t)

prefix-solid : (t : Text) → is_solid t ≡ true → is_solid (lit "sha256:" ++ t) ≡ true
unfolding lit is_white
prefix-solid t h = h

strip_left-hash : (t : Text) → strip_left (lit "sha256:" ++ t) ≡ lit "sha256:" ++ t
unfolding strip_left lit is_white
strip_left-hash t = refl

strip-hash : (t : Text) → all is_hex t ≡ true → strip (lit "sha256:" ++ t) ≡ lit "sha256:" ++ t
unfolding strip
strip-hash t h = rw (strip_left-hash t) (strip_right-solid _ (prefix-solid t (hex-solid t h)))

drop_prefix : (t : Text) → drop 7 (lit "sha256:" ++ t) ≡ t
unfolding lit
drop_prefix t = refl

prefixed-normal :
    (t : Text) → all is_hex t ≡ true → normalize_sha256 (lit "sha256:" ++ t) ≡ lit "sha256:" ++ t
unfolding normalize_sha256
prefixed-normal t h = rw (strip-hash t h, starts_with-append (lit "sha256:") t) refl

pub validate_sha256-hash :
    (c : Crypto) (b : Bytes) (name : Text)
    → IsLawful c
    → validate_sha256 (str (sha256_prefixed c b)) name ≡ ok tt
unfolding validate_sha256 sha256_prefixed
validate_sha256-hash c b name l =
    let h = l.hex-hexdigest b in
    rw
      (
        prefixed-normal (c.hexdigest b) h,
        drop_prefix (c.hexdigest b),
        lower-hex (c.hexdigest b) h,
        l.length-hexdigest b,
        h,
      )
      refl
