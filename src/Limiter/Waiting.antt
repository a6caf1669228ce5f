-- ===== src/Limiter/Waiting.antt =====
-- What the Retry-After of src/security/rate_limiter.ts promises.
use veri_node_backend.Prelude.{ℕ, String, eq_refl, ◌≡◌, true, false, some, ◌+◌, ◌*◌, ◌≤◌, arith}
use veri_node_backend.Dict.{get, get-set}
use veri_node_backend.Limiter.Buckets.{
  RateLimitTier, free, pro, enterprise, Buckets, refilled, consume_tokens, consume,
}

waited :
    (tier : RateLimitTier) (n now later : ℕ)
    → (consume_tokens tier n now).0.allowed ≡ false
    → now + (consume_tokens tier n now).0.retry_after_seconds * 1000 ≤ later
    → (consume_tokens tier
        (refilled tier (some (consume_tokens tier n now).1) later)
        later).0.allowed
      ≡ true
waited free n now later h t = ground arith
waited pro n now later h t = ground arith
waited enterprise n now later h t = ground arith

-- When a request is refused, the next request at the key is allowed if it comes after the answered
-- number of seconds or later.
pub retry_after_suffices :
    (tier : RateLimitTier) (key : String) (now later : ℕ) (d : Buckets)
    → (consume tier key now d).0.allowed ≡ false
    → now + (consume tier key now d).0.retry_after_seconds * 1000 ≤ later
    → (consume tier key later (consume tier key now d).1).0.allowed ≡ true
unfolding consume
retry_after_suffices tier key now later d h t =
    rw (get-set, eq_refl key) (waited tier (refilled tier (get d key) now) now later h t)
