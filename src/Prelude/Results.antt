-- ===== src/Prelude/Results.antt =====
-- Code that throws, as a result over an error type, with `do`.
use mathlib.Core.Path.{◌≡◌, refl}
use mathlib.Core.Bool.{Bool, true, false}
use mathlib.Core.Option.{Option, none, some}

pub data Result {ℓ κ} (E : Type ℓ) (A : Type κ) : Type (ℓ ⊔ κ) where
  ok : A → Result E A
  err : E → Result E A

-- What follows a throw is not run.
infixl 5 ◌>>=◌
abbrev pub ◌>>=◌ {ℓ κ μ} :
    {E : Type ℓ} {A : Type κ} {B : Type μ} → Result E A → (A → Result E B) → Result E B
err thrown >>= next = err thrown
ok value >>= next = next value

-- `if (o === undefined) throw e`
abbrev pub or_throw {ℓ κ} : {E : Type ℓ} {A : Type κ} → Option A → E → Result E A
or_throw none e = err e
or_throw (some a) e = ok a

-- `if (o !== undefined) throw e`
abbrev pub or_absent {ℓ κ} : {E : Type ℓ} {A : Type κ} → Option A → E → Result E (Unit {0})
or_absent none e = ok tt
or_absent (some a) e = err e

-- `if (!b) throw e`
abbrev pub guard {ℓ} : {E : Type ℓ} → Bool → E → Result E (Unit {0})
guard false thrown = err thrown
guard true thrown = ok tt

infixl 5 ◌>>◌
abbrev pub ◌>>◌ {ℓ κ} : {E : Type ℓ} {B : Type κ} → Result E (Unit {0}) → Result E B → Result E B
check >> next = check >>= λ done. next

module _ {ℓ κ μ} {E : Type ℓ} {A : Type κ} {B : Type μ} where
  -- A call that returned went through its first part, and then through the rest.
  pub >>=-eq-ok :
      (first : Result E A) (rest : A → Result E B) {answer : B}
      → (first >>= rest) ≡ ok answer
      → (value : A) × (first ≡ ok value) × (rest value ≡ ok answer)
  >>=-eq-ok (err thrown) rest e = cc
  >>=-eq-ok (ok value) rest e = (value, refl, e)

module _ {ℓ κ} {E : Type ℓ} {B : Type κ} where
  pub guard->>-ok :
      (b : Bool) (e : E) (k : Result E B) {r : B}
      → (guard b e >> k) ≡ ok r
      → (b ≡ true) × (k ≡ ok r)
  guard->>-ok true e k h = (refl, h)
  guard->>-ok false e k h = cc

module _ {ℓ κ μ} {E : Type ℓ} {A : Type κ} {B : Type μ} where
  pub or_throw->>=-ok :
      (o : Option A) (e : E) (f : A → Result E B) {r : B}
      → (or_throw o e >>= f) ≡ ok r
      → (a : A) × (o ≡ some a) × (f a ≡ ok r)
  or_throw->>=-ok none e f h = cc
  or_throw->>=-ok (some a) e f h = (a, refl, h)

  pub or_absent->>-ok :
      (o : Option A) (e : E) (k : Result E B) {r : B}
      → (or_absent o e >> k) ≡ ok r
      → (o ≡ none) × (k ≡ ok r)
  or_absent->>-ok none e k h = (refl, h)
  or_absent->>-ok (some a) e k h = cc

pub same_ok {ℓ κ} : {E : Type ℓ} {A : Type κ} {a b : A} → ◌≡◌ {A = Result E A} (ok a) (ok b) → a ≡ b
same_ok e = cc
