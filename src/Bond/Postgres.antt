-- ===== src/Bond/Postgres.antt =====
-- `PgBondPoolStore` of src/staking/poolStore.ts. The rows of one pool may be changed by other
-- transactions between the SELECT and the UPDATE of an optimistic attempt: `others` says how, by
-- the number of the attempt. A transaction that throws is rolled back: of its tables only what the
-- others did remains. Its columns are BIGINT, and amounts and balances have a CHECK
-- (src/database/migrations/006_bond_pools.sql): a statement that leaves this range throws.
use veri_node_backend.Prelude.{
  ℕ, zero, suc, String, str_eq, ◌&&◌, Option, none, some, List, [], ◌∷◌, if◌then◌else◌,
}
use veri_node_backend.Prelude.Int.{ℤ, pos, ◌+ℤ◌, ◌-ℤ◌, ltb_ℤ, eqb_ℤ}
use veri_node_backend.Dict.{Dict, get, set}
use veri_node_backend.Bond.Defs.{
  BondPool, ValidatorStake, pool_not_found, insufficient_stake, insufficient_pool_balance,
  stake_limit, conflict, out_of_range, Result, ok, err,
}
use veri_node_backend.Bond.Rows.{is_bigint, is_storable, select_stake, upsert_stake, subtract_stake}
use veri_node_backend.Bond.Cases.{paid_in, paid_out}

-- The primary key of validator_stakes is the pair of columns, so rows stand in a list.
pub record PgTables : Type 0 where
  pub bond_pools : Dict BondPool
  pub validator_stakes : List ValidatorStake

abbrev pub max_optimistic_attempts : ℕ
max_optimistic_attempts = 5

-- The UPDATE of a pool's row, whose new values must fit.
abbrev pub written : String → BondPool → Dict BondPool → Result BondPool × Dict BondPool
written pool p d =
    if is_storable p.balance && is_bigint p.version
    then (ok p, set d pool p)
    else (err out_of_range, d)

module _ (others : ℕ → Dict BondPool → Dict BondPool) (pool : String) (amount : ℤ) where
  -- The UPDATE of an attempt, after the SELECT read `current`; `rest` is the attempts that follow.
  abbrev pub try_increment :
      BondPool → Dict BondPool → Result BondPool × Dict BondPool → Result BondPool × Dict BondPool
  try_increment current d rest = elim (get d pool) [
    | none ↦ rest
    | some row ↦
        if eqb_ℤ row.version current.version then written pool (paid_in row amount) d else rest
  ]

  unfoldable pub increment_pool_balance : ℕ → ℕ → Dict BondPool → Result BondPool × Dict BondPool
  increment_pool_balance zero attempt d = (err conflict, d)
  increment_pool_balance (suc left) attempt d =
      let rest = increment_pool_balance left (suc attempt) (others attempt d) in
      elim (get d pool) [
        | none ↦ (err pool_not_found, d)
        | some current ↦ try_increment current (others attempt d) rest
      ]

  abbrev pub try_decrement :
      BondPool → Dict BondPool → Result BondPool × Dict BondPool → Result BondPool × Dict BondPool
  try_decrement current d rest = elim (get d pool) [
    | none ↦ rest
    | some row ↦
        if eqb_ℤ row.version current.version
        then (if ltb_ℤ row.balance amount then rest else written pool (paid_out row amount) d)
        else rest
  ]

  unfoldable pub decrement_pool_balance : ℕ → ℕ → Dict BondPool → Result BondPool × Dict BondPool
  decrement_pool_balance zero attempt d = (err conflict, d)
  decrement_pool_balance (suc left) attempt d =
      let rest = decrement_pool_balance left (suc attempt) (others attempt d) in
      elim (get d pool) [
        | none ↦ (err pool_not_found, d)
        | some current ↦
            if ltb_ℤ current.balance amount
            then (err insufficient_pool_balance, d)
            else try_decrement current (others attempt d) rest
      ]

-- `withTransaction`: the stakes that were written stay only if the transaction ends well.
abbrev pub ended :
    List ValidatorStake
    → List ValidatorStake
    → Result BondPool × Dict BondPool
    → Result BondPool × PgTables
ended before after (ok p, d) = (ok p, record { bond_pools = d; validator_stakes = after })
ended before after (err e, d) = (err e, record { bond_pools = d; validator_stakes = before })

unfoldable pub pg_stake :
    (ℕ → Dict BondPool → Dict BondPool)
    → ℤ
    → PgTables
    → String
    → String
    → ℤ
    → Result BondPool × PgTables
pg_stake others limit t pool v amount = elim (get t.bond_pools pool) [
  | none ↦ (err pool_not_found, t)
  | some _ ↦ elim (upsert_stake limit pool v amount t.validator_stakes) [
    | err x ↦ (err x, t)
    | ok none ↦ (err stake_limit, t)
    | ok (some stakes) ↦
        ended t.validator_stakes stakes
          (increment_pool_balance others pool amount max_optimistic_attempts 0 t.bond_pools)
  ]
]

unfoldable pub pg_unstake :
    (ℕ → Dict BondPool → Dict BondPool)
    → PgTables
    → String
    → String
    → ℤ
    → Result BondPool × PgTables
pg_unstake others t pool v amount = elim (select_stake t.validator_stakes pool v) [
  | none ↦ (err insufficient_stake, t)
  | some e ↦
      if ltb_ℤ e.amount amount
      then (err insufficient_stake, t)
      else if is_bigint amount && is_storable (e.amount -ℤ amount)
      then ended t.validator_stakes (subtract_stake pool v amount t.validator_stakes)
          (decrement_pool_balance others pool amount max_optimistic_attempts 0 t.bond_pools)
      else (err out_of_range, t)
]

unfoldable pub pg_sum : List ValidatorStake → String → ℤ
pg_sum [] pool = pos 0
pg_sum (e ∷ es) pool = if str_eq e.pool_id pool then e.amount +ℤ pg_sum es pool else pg_sum es pool

unfoldable pub pg_get_pool : PgTables → String → Option BondPool
unfolding pg_sum
pg_get_pool t pool = elim (get t.bond_pools pool) [
  | none ↦ none
  | some p ↦ some (record p { balance = pg_sum t.validator_stakes pool })
]

unfoldable pub pg_reconcile_pool : PgTables → String → Result BondPool × PgTables
unfolding pg_sum
pg_reconcile_pool t pool = elim (get t.bond_pools pool) [
  | none ↦ (err pool_not_found, t)
  | some p ↦
      let p' : BondPool = record p {
        balance = pg_sum t.validator_stakes pool;
        version = p.version +ℤ pos 1;
      } in
      if is_storable p'.balance && is_bigint p'.version
      then (ok p', record t { bond_pools = set t.bond_pools pool p' })
      else (err out_of_range, t)
]
