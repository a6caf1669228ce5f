-- ===== src/Prelude/Lists.antt =====
-- Lists measured by native numbers, Boolean filters, and predicates over all members.
use Prim.Native.Nat.{ℕ, zero, suc, ◌+◌, ◌≤◌}
use mathlib.Core.Path.{◌≡◌, refl}
use mathlib.Core.List.{List, [], ◌∷◌, ◌++◌}
use mathlib.Core.Bool.{Bool, true, false, not}
use native.Mathlib.Omega.{arith}
use veri_node_backend.Prelude.Tests.{if◌then◌else◌}

module _ {ℓ} {A : Type ℓ} where
  abbrev pub length : List A → ℕ
  length [] = 0
  length (x ∷ xs) = suc (length xs)

  abbrev pub take : ℕ → List A → List A
  take zero xs = []
  take (suc n) [] = []
  take (suc n) (x ∷ xs) = x ∷ take n xs

  -- `xs.filter(p)` for a Boolean test.
  abbrev pub keep : (A → Bool) → List A → List A
  keep p [] = []
  keep p (x ∷ xs) = if p x then x ∷ keep p xs else keep p xs

  abbrev pub All {κ} : (A → Type κ) → List A → Type κ
  All P [] = Unit
  All P (x ∷ xs) = P x × All P xs

module _ {ℓ} {A : Type ℓ} where
  pub length-append : (xs ys : List A) → length (xs ++ ys) ≡ length xs + length ys
  length-append [] ys = omega arith
  length-append (x ∷ xs) ys = omega (arith, length-append xs ys)

  pub length-keep-le : (p : A → Bool) (xs : List A) → length (keep p xs) ≤ length xs
  length-keep-le p [] = omega arith
  length-keep-le p (x ∷ xs) = ground (arith, length-keep-le p xs)

  pub length-take-le : (n : ℕ) (xs : List A) → length (take n xs) ≤ n
  length-take-le zero xs = omega arith
  length-take-le (suc n) [] = omega arith
  length-take-le (suc n) (x ∷ xs) = omega (arith, length-take-le n xs)

  pub All-append {κ} : (P : A → Type κ) (xs ys : List A) → All P xs → All P ys → All P (xs ++ ys)
  All-append P [] ys h k = k
  All-append P (x ∷ xs) ys (p, h) k = (p, All-append P xs ys h k)

  pub All-keep {κ} : (P : A → Type κ) (p : A → Bool) (xs : List A) → All P xs → All P (keep p xs)
  All-keep P p [] h = tt
  All-keep P p (x ∷ xs) (hx, hr) = go (p x) hx (All-keep P p xs hr)
    where
      go : (b : Bool) → P x → All P (keep p xs) → All P (if b then x ∷ keep p xs else keep p xs)
      go true hx hr = (hx, hr)
      go false hx hr = hr

  pub All-map {κ μ} :
      (P : A → Type κ) (Q : A → Type μ)
      → ((x : A) → P x → Q x)
      → (xs : List A) → All P xs
      → All Q xs
  All-map P Q f [] h = tt
  All-map P Q f (x ∷ xs) (p, h) = (f x p, All-map P Q f xs h)

  pub All-pair {κ μ} :
      (P : A → Type κ) (Q : A → Type μ) (xs : List A)
      → All P xs
      → All Q xs
      → All (λ x. P x × Q x) xs
  All-pair P Q [] h k = tt
  All-pair P Q (x ∷ xs) (p, h) (q, k) = ((p, q), All-pair P Q xs h k)

  -- Every member that a filter keeps passes its test.
  pub keep-passes : (p : A → Bool) (xs : List A) → All (λ x. p x ≡ true) (keep p xs)
  keep-passes p [] = tt
  keep-passes p (x ∷ xs) = go (p x) refl (keep-passes p xs)
    where
      go :
          (b : Bool)
          → p x ≡ b
          → All (λ x. p x ≡ true) (keep p xs)
          → All (λ x. p x ≡ true) (if b then x ∷ keep p xs else keep p xs)
      go true e h = (e, h)
      go false e h = h

  -- What `filter(x => !p(x))` keeps fails `p`.
  pub keep-not_fails :
      (p : A → Bool) (xs : List A) → All (λ x. p x ≡ false) (keep (λ x. not (p x)) xs)
  keep-not_fails p [] = tt
  keep-not_fails p (x ∷ xs) = go (p x) refl (keep-not_fails p xs)
    where
      go :
          (b : Bool)
          → p x ≡ b
          → All (λ x. p x ≡ false) (keep (λ x. not (p x)) xs)
          → All
              (λ x. p x ≡ false)
              (if not b then x ∷ keep (λ x. not (p x)) xs else keep (λ x. not (p x)) xs)
      go true e h = h
      go false e h = (e, h)
