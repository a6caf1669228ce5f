-- ===== src/Limiter/Buckets.antt =====
-- The token buckets of src/security/rate_limiter.ts, in memory. Token counts are the exact values of the
-- source's floating-point numbers, in units of 1/60000 token, so that a tier of n requests a minute
-- refills n units each millisecond. Times are milliseconds.
use Prim.Native.String.{◌++◌}
use veri_node_backend.Prelude.{
  ℕ, String, str_eq, Bool, true, false, Option, none, some, [], ◌∷◌, leb, if◌then◌else◌, ◌+◌, ◌-◌,
  ◌*◌, ◌/◌, min, max,
}
use veri_node_backend.Dict.{Dict, get, set}

pub data RateLimitTier : Type 0 where
  free pro enterprise : RateLimitTier

-- `TIER_DEFINITION[tier].perMinute`
abbrev pub per_minute : RateLimitTier → ℕ
per_minute free = 10
per_minute pro = 100
per_minute enterprise = 1000

abbrev pub one_token : ℕ
one_token = 60000

-- `(perMinute / 60) * BUCKET_WINDOW_SECONDS`
abbrev pub burst_capacity : RateLimitTier → ℕ
burst_capacity free = 100000
burst_capacity pro = 1000000
burst_capacity enterprise = 10000000

pub record BucketState : Type 0 where
  pub tokens : ℕ
  pub last_refill_ms : ℕ

abbrev pub Buckets : Type 0
Buckets = Dict BucketState

pub record ConsumeResult : Type 0 where
  pub allowed : Bool
  pub retry_after_seconds : ℕ

-- `Math.max(1, Math.ceil((1 - tokens) / (refillRatePerMs * 1000)))`
abbrev pub retry_after : RateLimitTier → ℕ → ℕ
retry_after free tokens = max 1 ((60000 - tokens + 9999) / 10000)
retry_after pro tokens = max 1 ((60000 - tokens + 99999) / 100000)
retry_after enterprise tokens = max 1 ((60000 - tokens + 999999) / 1000000)

abbrev pub retry_after_from_tokens : RateLimitTier → ℕ → ℕ
retry_after_from_tokens tier tokens = if leb one_token tokens then 0 else retry_after tier tokens

-- The tokens of a bucket at a time, a new one where there is none.
abbrev pub refilled : RateLimitTier → Option BucketState → ℕ → ℕ
refilled tier none now = burst_capacity tier
refilled tier (some b) now =
    min (burst_capacity tier) (b.tokens + (now - b.last_refill_ms) * per_minute tier)

abbrev pub consume_tokens : RateLimitTier → ℕ → ℕ → ConsumeResult × BucketState
consume_tokens tier tokens now =
    if leb one_token tokens
    then (
      record { allowed = true; retry_after_seconds = 0 },
      record { tokens = tokens - one_token; last_refill_ms = now },
    )
    else (
      record { allowed = false; retry_after_seconds = retry_after_from_tokens tier tokens },
      record { tokens = tokens; last_refill_ms = now },
    )

unfoldable pub consume : RateLimitTier → String → ℕ → Buckets → ConsumeResult × Buckets
consume tier key now d =
    let (r, b) = consume_tokens tier (refilled tier (get d key) now) now in (r, set d key b)

-- `resolveTier`: the exact path, else the first pattern that matches. How a pattern matches a path is
-- RegExp's.
abbrev pub first_match :
    (String → String → Bool) → String → Dict RateLimitTier → RateLimitTier → RateLimitTier
first_match matches path [] default_tier = default_tier
first_match matches path ((glob, tier) ∷ d) default_tier =
    let rest = first_match matches path d default_tier in
    if str_eq glob path then rest else if matches glob path then tier else rest

abbrev pub exact_or : Option RateLimitTier → RateLimitTier → RateLimitTier
exact_or none other = other
exact_or (some tier) other = tier

unfoldable pub resolve_tier :
    (String → String → Bool) → String → Dict RateLimitTier → RateLimitTier → RateLimitTier
resolve_tier matches path tiers default_tier =
    exact_or (get tiers path) (first_match matches path tiers default_tier)

abbrev pub tier_name : RateLimitTier → String
tier_name free = "free"
tier_name pro = "pro"
tier_name enterprise = "enterprise"

-- `rate-limit:${tier}:${routeKey}:${clientKey}`
unfoldable pub store_key : RateLimitTier → String → String → String
store_key tier route client =
    "rate-limit:" ++ (tier_name tier ++ (":" ++ (route ++ (":" ++ client))))

-- What the middleware does with a request: it calls `next`, or answers 429 with a Retry-After.
pub data Verdict : Type 0 where
  passes_on : Verdict
  too_many : ℕ → Verdict

abbrev pub verdict : ConsumeResult → Verdict
verdict r = if r.allowed then passes_on else too_many r.retry_after_seconds

-- The middleware over the store in memory; `client` is what the key generator gives.
unfoldable pub limit_request :
    (String → String → Bool)
    → Dict RateLimitTier
    → RateLimitTier
    → String
    → String
    → ℕ
    → Buckets
    → Verdict × Buckets
unfolding consume resolve_tier store_key
limit_request matches tiers default_tier path client now d =
    let tier = resolve_tier matches path tiers default_tier in
    let (r, e) = consume tier (store_key tier path client) now d in (verdict r, e)
