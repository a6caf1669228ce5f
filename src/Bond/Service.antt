-- ===== src/Bond/Service.antt =====
-- Histories of service calls over the in-memory store.
use veri_node_backend.Prelude.{String, ◌≡◌, inl, inr, false, List, [], ◌∷◌, arith, Bool-cases, All}
use veri_node_backend.Prelude.Int.{ℤ}
use veri_node_backend.Bond.Defs.{BondPool, Result}
use veri_node_backend.Bond.Memory.{
  Store, service_stake, service_unstake, reconcile_pool, is_out_of_range,
}
use veri_node_backend.Bond.Keys.{ColonFree}
use veri_node_backend.Bond.Sums.{IsNonneg}
use veri_node_backend.Bond.Backing.{
  IsBacked, stake-IsBacked, unstake-IsBacked, reconcile_pool-IsBacked,
}

pub data Call : Type 0 where
  stakes unstakes : String → String → ℤ → Call
  reconciles : String → Call

abbrev pub pool_of : Call → String
pool_of (stakes pool v amount) = pool
pool_of (unstakes pool v amount) = pool
pool_of (reconciles pool) = pool

unfoldable pub step : Store → Call → Result BondPool × Store
step s (stakes pool v amount) = service_stake s pool v amount
step s (unstakes pool v amount) = service_unstake s pool v amount
step s (reconciles pool) = reconcile_pool s pool

unfoldable pub run : Store → List Call → Store
unfolding step
run s [] = s
run s (c ∷ cs) = run (step s c).1 cs

in_range-IsNonneg : (amount : ℤ) → is_out_of_range amount ≡ false → IsNonneg amount
unfolding is_out_of_range
in_range-IsNonneg amount h = ground arith

step-IsBacked : (s : Store) (c : Call) → ColonFree (pool_of c) → IsBacked s → IsBacked (step s c).1
unfolding step service_stake service_unstake
step-IsBacked s (stakes pool v amount) plain h = elim (Bool-cases (is_out_of_range amount)) [
  | inl e ↦ rw e h
  | inr e ↦ rw e (stake-IsBacked s pool v h plain amount (in_range-IsNonneg amount e))
]
step-IsBacked s (unstakes pool v amount) plain h = elim (Bool-cases (is_out_of_range amount)) [
  | inl e ↦ rw e h
  | inr e ↦ rw e (unstake-IsBacked s pool v h plain amount (in_range-IsNonneg amount e))
]
step-IsBacked s (reconciles pool) plain h = reconcile_pool-IsBacked s pool h

-- From a backed store, any history of service calls on pools whose ids have no colon, failing calls
-- included, leaves the store backed: every pool's balance is the sum of its stakes, and every stake
-- is between 0 and the store's limit.
pub run-IsBacked :
    (s : Store) (cs : List Call)
    → All (λ c. ColonFree (pool_of c)) cs
    → IsBacked s
    → IsBacked (run s cs)
unfolding run
run-IsBacked s [] plain h = h
run-IsBacked s (c ∷ cs) (p, plain) h = run-IsBacked (step s c).1 cs plain (step-IsBacked s c p h)
