-- ===== src/Bond/Memory.antt =====
-- `InMemoryBondPoolStore` of src/staking/poolStore.ts, and `BondPoolService` of
-- src/staking/bondPool.ts over it. The pool lock makes each call run alone, so a call is a function
-- of the store. A call that throws returns the store as it left it.
use veri_node_backend.Prelude.{
  String, str_eq, Bool, false, ◌||◌, Option, none, some, [], ◌∷◌, ◌==◌, if◌then◌else◌,
}
use veri_node_backend.Prelude.Int.{ℤ, pos, ◌+ℤ◌, ◌-ℤ◌, ltb_ℤ}
use Prim.Native.String.{◌++◌}
use veri_node_backend.Dict.{Dict, get, set, remove}
use veri_node_backend.Bond.Defs.{
  BondPool, ValidatorStake, pool_not_found, insufficient_stake, insufficient_pool_balance,
  stake_limit, amount_out_of_range, Result, ok, err,
}

pub record Store : Type 0 where
  pub pools : Dict BondPool
  pub stakes : Dict ValidatorStake
  pub max_validator_stake : ℤ

unfoldable pub stake_key : String → String → String
stake_key pool validator = pool ++ (":" ++ validator)

unfoldable pub create_pool : BondPool → Store → Store
create_pool pool s = record s { pools = set s.pools pool.id pool }

unfoldable pub create_stake : ValidatorStake → Store → Store
create_stake stake s = record s {
  stakes = set s.stakes (stake_key stake.pool_id stake.validator_id) stake;
}

unfoldable pub get_pool : Store → String → Option BondPool
get_pool s pool = get s.pools pool

unfoldable pub get_validator_stake : Store → String → String → Option ValidatorStake
get_validator_stake s pool validator = get s.stakes (stake_key pool validator)

-- `existing?.amount ?? 0n`
abbrev pub amount_or_zero : Option ValidatorStake → ℤ
amount_or_zero none = pos 0
amount_or_zero (some e) = e.amount

-- The assignments of `stake` to the stakes and to the pool object, which the map holds.
abbrev pub staked : String → String → ℤ → BondPool → ℤ → Store → Store
staked pool validator amount p next s = record s {
  stakes =
      set s.stakes (stake_key pool validator)
        (record { pool_id = pool; validator_id = validator; amount = next });
  pools =
      set s.pools pool (record p { balance = p.balance +ℤ amount; version = p.version +ℤ pos 1 });
}

unfoldable pub stake : Store → String → String → ℤ → Result BondPool × Store
stake s pool validator amount = elim (get s.pools pool) [
  | none ↦ (err pool_not_found, s)
  | some p ↦
      let next = amount_or_zero (get s.stakes (stake_key pool validator)) +ℤ amount in
      if ltb_ℤ s.max_validator_stake next then (err stake_limit, s) else (
        ok (record p { balance = p.balance +ℤ amount; version = p.version +ℤ pos 1 }),
        staked pool validator amount p next s,
      )
]

-- `nextAmount === 0n`
abbrev pub is_zero : ℤ → Bool
is_zero (pos n) = n == 0
is_zero _ = false

abbrev pub unstaked : String → String → ℤ → BondPool → ValidatorStake → Store → Store
unstaked pool validator amount p e s = record s {
  stakes =
      if is_zero (e.amount -ℤ amount)
      then remove s.stakes (stake_key pool validator)
      else set s.stakes (stake_key pool validator) (record e { amount = e.amount -ℤ amount });
  pools =
      set s.pools pool (record p { balance = p.balance -ℤ amount; version = p.version +ℤ pos 1 });
}

unfoldable pub unstake_from :
    Store → String → String → ℤ → BondPool → Option ValidatorStake → Result BondPool × Store
unstake_from s pool validator amount p none = (err insufficient_stake, s)
unstake_from s pool validator amount p (some e) =
    if ltb_ℤ e.amount amount
    then (err insufficient_stake, s)
    else if ltb_ℤ p.balance amount
    then (err insufficient_pool_balance, s)
    else (
      ok (record p { balance = p.balance -ℤ amount; version = p.version +ℤ pos 1 }),
      unstaked pool validator amount p e s,
    )

unfoldable pub unstake : Store → String → String → ℤ → Result BondPool × Store
unfolding unstake_from
unstake s pool validator amount = elim (get s.pools pool) [
  | none ↦ (err pool_not_found, s)
  | some p ↦ unstake_from s pool validator amount p (get s.stakes (stake_key pool validator))
]

unfoldable pub sum_of : String → Dict ValidatorStake → ℤ
sum_of pool [] = pos 0
sum_of pool ((k, e) ∷ d) =
    if str_eq e.pool_id pool then e.amount +ℤ sum_of pool d else sum_of pool d

unfoldable pub sum_validator_stakes : Store → String → ℤ
unfolding sum_of
sum_validator_stakes s pool = sum_of pool s.stakes

unfoldable pub reconcile_pool : Store → String → Result BondPool × Store
unfolding sum_validator_stakes
reconcile_pool s pool = elim (get s.pools pool) [
  | none ↦ (err pool_not_found, s)
  | some p ↦
      let p' : BondPool = record p {
        balance = sum_validator_stakes s pool;
        version = p.version +ℤ pos 1;
      } in
      (ok p', record s { pools = set s.pools pool p' })
]

-- bondPool.ts

abbrev pub min_stake : ℤ
min_stake = pos 100

abbrev pub max_stake : ℤ
max_stake = pos 100000

-- `assertStakeAmount` throws.
unfoldable pub is_out_of_range : ℤ → Bool
is_out_of_range amount = ltb_ℤ amount min_stake || ltb_ℤ max_stake amount

unfoldable pub service_stake : Store → String → String → ℤ → Result BondPool × Store
unfolding is_out_of_range
service_stake s pool validator amount =
    if is_out_of_range amount then (err amount_out_of_range, s) else stake s pool validator amount

unfoldable pub service_unstake : Store → String → String → ℤ → Result BondPool × Store
unfolding is_out_of_range
service_unstake s pool validator amount =
    if is_out_of_range amount then (err amount_out_of_range, s) else unstake s pool validator amount

unfoldable pub service_get_pool : Store → String → Option BondPool
unfolding get_pool sum_validator_stakes
service_get_pool s pool = elim (get_pool s pool) [
  | none ↦ none
  | some p ↦ some (record p { balance = sum_validator_stakes s pool })
]
