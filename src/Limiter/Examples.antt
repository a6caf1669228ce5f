-- ===== src/Limiter/Examples.antt =====
-- The rate limiter at concrete requests.
use veri_node_backend.Prelude.{
  ℕ, String, ◌≡◌, refl, true, false, List, [], ◌∷◌, ◌+◌, ◌-◌, ◌*◌, ◌≤◌, arith,
}
use veri_node_backend.Dict.{get, set}
use veri_node_backend.Limiter.Buckets.{
  free, pro, enterprise, Buckets, one_token, burst_capacity, per_minute, consume, resolve_tier,
  store_key, limit_request, too_many,
}
use veri_node_backend.Limiter.Rate.{admitted, rate_bounded}
use veri_node_backend.Limiter.Waiting.{retry_after_suffices}

program : Unit {0}
unfolding get set consume resolve_tier store_key limit_request
program = tt

abbrev requests : List (String × ℕ)
requests = ("a", 1000) ∷ ("a", 1500) ∷ ("b", 1600) ∷ ("a", 4000) ∷ []

-- A free client has one token and two thirds.
two_admitted : admitted free "a" requests [] ≡ 2
unfolding program
two_admitted = refl

exact_first :
    resolve_tier (λ shape path. true) "/a" (("*", pro) ∷ ("/a", enterprise) ∷ []) free ≡ enterprise
unfolding program
exact_first = refl

limited :
    (limit_request
      (λ shape path. false)
      []
      free
      "/a"
      "c"
      1500
      (limit_request (λ shape path. false) [] free "/a" "c" 1000 []).1).0
    ≡ too_many 2
unfolding program
limited = refl

abbrev once : Buckets
once = (consume free "a" 1000 []).1

refused : (consume free "a" 1500 once).0.allowed ≡ false
unfolding program
refused = refl

told_to_wait : (consume free "a" 1500 once).0.retry_after_seconds ≡ 2
unfolding program
told_to_wait = refl

rate_bounded_example :
    one_token * admitted free "a" requests [] ≤ burst_capacity free + per_minute free * (9000 - 500)
rate_bounded_example =
    rate_bounded free "a" 500 9000 requests
      (omega arith, (omega arith, (omega arith, (omega arith, omega arith))))

long_enough : 1500 + (consume free "a" 1500 once).0.retry_after_seconds * 1000 ≤ 3500
unfolding program
long_enough = omega arith

retry_after_suffices_example :
    (consume free "a" 3500 (consume free "a" 1500 once).1).0.allowed ≡ true
retry_after_suffices_example = retry_after_suffices free "a" 1500 3500 once refused long_enough
