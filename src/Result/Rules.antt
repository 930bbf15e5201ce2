-- ===== src/Result/Rules.antt =====
-- Postconditions: a property of the value, where the run gives one.
use mathlib.Core.Path.{subst}
use delta_protocol.Prelude.{◌≡◌, refl, Bool, true, false, if◌then◌else◌}
use delta_protocol.Result.Defs.{Result, ok, err, ◌>>=◌, ◌>>◌, require}

pub data Ensures {E A : Type 0} (P : A → Type 0) : Result E A → Type 0 where
  holds : {a : A} → P a → Ensures P (ok a)
  raised : {e : E} → Ensures P (err e)

module _ {E A : Type 0} {P : A → Type 0} where
  pub Ensures-ok : {r : Result E A} {a : A} → Ensures P r → r ≡ ok a → P a
  Ensures-ok (holds h) e = subst P (cc) h
  Ensures-ok raised e = cc

  pub Ensures-bind :
      {B : Type 0} {Q : B → Type 0} {r : Result E A} {f : A → Result E B}
      → Ensures P r
      → ((a : A) → P a → Ensures Q (f a))
      → Ensures Q (r >>= f)
  Ensures-bind (holds {a} h) k = k a h
  Ensures-bind raised k = raised

  pub Ensures-if :
      (b : Bool) {x y : Result E A}
      → (b ≡ true → Ensures P x)
      → (b ≡ false → Ensures P y)
      → Ensures P (if b then x else y)
  Ensures-if true hx hy = hx refl
  Ensures-if false hx hy = hy refl

  pub Ensures-bind_any :
      {B : Type 0} (r : Result E B) {f : B → Result E A}
      → ((b : B) → r ≡ ok b → Ensures P (f b))
      → Ensures P (r >>= f)
  Ensures-bind_any (ok b) k = k b refl
  Ensures-bind_any (err e) k = raised

  pub Ensures-intro : (r : Result E A) → ((a : A) → r ≡ ok a → P a) → Ensures P r
  Ensures-intro (ok a) h = holds (h a refl)
  Ensures-intro (err e) h = raised

  pub Ensures-require :
      (b : Bool) (e : E) {k : Result E A} → (b ≡ true → Ensures P k) → Ensures P (require b e >> k)
  Ensures-require true e h = h refl
  Ensures-require false e h = raised

  pub Ensures-weaken :
      {Q : A → Type 0} {r : Result E A} → Ensures P r → ((a : A) → P a → Q a) → Ensures Q r
  Ensures-weaken (holds {a} h) k = holds (k a h)
  Ensures-weaken raised k = raised

-- A run that gives a value, and a property of it.
pub data Yields {E A : Type 0} (P : A → Type 0) : Result E A → Type 0 where
  yields : {a : A} → P a → Yields P (ok a)

pub Yields-value :
    {E A : Type 0} {P : A → Type 0} (r : Result E A) → Yields P r → (a : A) × (r ≡ ok a) × P a
Yields-value (ok a) (yields h) = (a, refl, h)
Yields-value (err e) h = elim h [ ]
