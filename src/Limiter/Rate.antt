-- ===== src/Limiter/Rate.antt =====
-- How many requests a bucket of src/security/rate_limiter.ts lets through.
use veri_node_backend.Prelude.{
  ℕ, String, str_eq, eq_refl, ◌≡◌, refl, sym, subst, Bool, true, false, Option, none, some, List,
  [], ◌∷◌, if◌then◌else◌, ◌+◌, ◌-◌, ◌*◌, ◌≤◌, inl, inr, arith,
}
use veri_node_backend.Dict.{get, get-set, get-empty, key_cases}
use veri_node_backend.Limiter.Buckets.{
  RateLimitTier, free, pro, enterprise, per_minute, one_token, burst_capacity, BucketState, Buckets,
  refilled, consume_tokens, consume,
}

abbrev pub one_if : Bool → ℕ
one_if true = 1
one_if false = 0

-- How many of the requests, each a key and a time, are allowed at `key`.
abbrev pub admitted : RateLimitTier → String → List (String × ℕ) → Buckets → ℕ
admitted tier key [] d = 0
admitted tier key ((k, now) ∷ rs) d =
    let rest = admitted tier key rs (consume tier k now d).1 in
    (if str_eq k key then one_if (consume tier k now d).0.allowed else 0) + rest

-- The times do not go back, from `start` to `end`.
abbrev pub IsOrdered : ℕ → ℕ → List (String × ℕ) → Type 0
IsOrdered start end [] = start ≤ end
IsOrdered start end ((k, now) ∷ rs) = (start ≤ now) × IsOrdered now end rs

refilled_grows :
    (tier : RateLimitTier) (o : Option BucketState) (s t : ℕ)
    → s ≤ t
    → refilled tier o t ≤ refilled tier o s + per_minute tier * (t - s)
refilled_grows free none s t h = omega (arith, h)
refilled_grows pro none s t h = omega (arith, h)
refilled_grows enterprise none s t h = omega (arith, h)
refilled_grows free (some b) s t h = ground arith
refilled_grows pro (some b) s t h = ground arith
refilled_grows enterprise (some b) s t h = ground arith

refilled-le :
    (tier : RateLimitTier) (o : Option BucketState) (t : ℕ)
    → refilled tier o t ≤ burst_capacity tier
refilled-le free none t = omega arith
refilled-le pro none t = omega arith
refilled-le enterprise none t = omega arith
refilled-le free (some b) t = omega arith
refilled-le pro (some b) t = omega arith
refilled-le enterprise (some b) t = omega arith

-- What a request leaves in the bucket pays for what it lets through.
consumed :
    (tier : RateLimitTier) (n t : ℕ)
    → n ≤ burst_capacity tier
    → one_token * one_if (consume_tokens tier n t).0.allowed
        + refilled tier (some (consume_tokens tier n t).1) t
      ≤ n
consumed free n t h = ground arith
consumed pro n t h = ground arith
consumed enterprise n t h = ground arith

ordered-le : (start end : ℕ) (rs : List (String × ℕ)) → IsOrdered start end rs → start ≤ end
ordered-le start end [] h = h
ordered-le start end ((k, now) ∷ rs) (a, h) = omega (arith, a, ordered-le now end rs h)

weigh :
    (tier : RateLimitTier) (a m l0 l1 l2 s t e : ℕ)
    → s ≤ t
    → t ≤ e
    → l1 ≤ l0 + per_minute tier * (t - s)
    → one_token * a + l2 ≤ l1
    → one_token * m ≤ l2 + per_minute tier * (e - t)
    → one_token * (a + m) ≤ l0 + per_minute tier * (e - s)
weigh free a m l0 l1 l2 s t e p q h k r = omega (arith, p, q, h, k, r)
weigh pro a m l0 l1 l2 s t e p q h k r = omega (arith, p, q, h, k, r)
weigh enterprise a m l0 l1 l2 s t e p q h k r = omega (arith, p, q, h, k, r)

-- A request at another key does not touch the bucket.
other_key :
    (tier : RateLimitTier) (k key : String) (now t : ℕ) (d : Buckets)
    → str_eq k key ≡ false
    → refilled tier (get (consume tier k now d).1 key) t ≡ refilled tier (get d key) t
unfolding consume
other_key tier k key now t d n = rw (get-set, n) refl

own_key :
    (tier : RateLimitTier) (key : String) (now t : ℕ) (d : Buckets)
    → refilled tier (get (consume tier key now d).1 key) t
      ≡ refilled tier (some (consume_tokens tier (refilled tier (get d key) now) now).1) t
unfolding consume
own_key tier key now t d = rw (get-set, eq_refl key) refl

-- A request at the key itself, given the bound for those that follow.
own_step :
    (tier : RateLimitTier) (key : String) (start now end : ℕ) (rs : List (String × ℕ)) (d : Buckets)
    → start ≤ now
    → now ≤ end
    → one_token * admitted tier key rs (consume tier key now d).1
      ≤ refilled tier (get (consume tier key now d).1 key) now + per_minute tier * (end - now)
    → one_token * admitted tier key ((key, now) ∷ rs) d
      ≤ refilled tier (get d key) start + per_minute tier * (end - start)
unfolding consume
own_step tier key start now end rs d a late rest =
    let n = refilled tier (get d key) now in
    rw (eq_refl key) (
      weigh tier (one_if (consume_tokens tier n now).0.allowed)
        (admitted tier key rs (consume tier key now d).1) _ n
        (refilled tier (some (consume_tokens tier n now).1) now) start now end a late
        (refilled_grows tier (get d key) start now a)
        (consumed tier n now (refilled-le tier (get d key) now))
        (rw (own_key tier key now now d) at rest))

admitted-le :
    (tier : RateLimitTier) (key : String) (start end : ℕ) (rs : List (String × ℕ)) (d : Buckets)
    → IsOrdered start end rs
    → one_token * admitted tier key rs d
      ≤ refilled tier (get d key) start + per_minute tier * (end - start)
unfolding consume
admitted-le tier key start end [] d h = omega arith
admitted-le tier key start end ((k, now) ∷ rs) d (a, h) =
    let rest = admitted-le tier key now end rs (consume tier k now d).1 h in
    let late = ordered-le now end rs h in
    let grows = refilled_grows tier (get d key) start now a in
    elim (key_cases k key) [
      | inr n ↦ rw n (
          weigh tier 0 (admitted tier key rs (consume tier k now d).1) _ _ _ start now end a late
            grows (omega arith) (rw (other_key tier k key now now d n) at rest))
      | inl p ↦
          subst
            (λ j.
              one_token * admitted tier key ((j, now) ∷ rs) d
              ≤ refilled tier (get d key) start + per_minute tier * (end - start))
            (sym p)
            (own_step tier key start now end rs d a late (
              subst
                (λ j.
                  one_token * admitted tier key rs (consume tier j now d).1
                  ≤ refilled tier (get (consume tier j now d).1 key) now
                    + per_minute tier * (end - now))
                p rest))
    ]

-- Whatever requests a new store of one tier gets between two times that do not go back, at this key
-- and at others, the number that it allows at the key, in tokens, is at most the burst capacity and
-- what the tier refills in between.
pub rate_bounded :
    (tier : RateLimitTier) (key : String) (start end : ℕ) (rs : List (String × ℕ))
    → IsOrdered start end rs
    → one_token * admitted tier key rs [] ≤ burst_capacity tier + per_minute tier * (end - start)
rate_bounded tier key start end rs h = rw get-empty at (admitted-le tier key start end rs [] h)
