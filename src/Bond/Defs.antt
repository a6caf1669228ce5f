-- ===== src/Bond/Defs.antt =====
-- The data of src/staking/poolStore.ts: pools, stakes and errors. Amounts, balances and versions are
-- `bigint`s. `out_of_range` is the database's refusal of a number or of a row.
use veri_node_backend.Prelude.{String}
use veri_node_backend.Prelude.Int.{ℤ}

pub record BondPool : Type 0 where
  pub id : String
  pub balance : ℤ
  pub version : ℤ

pub record ValidatorStake : Type 0 where
  pub pool_id : String
  pub validator_id : String
  pub amount : ℤ

pub data Error : Type 0 where
  pool_not_found insufficient_stake insufficient_pool_balance stake_limit : Error
  amount_out_of_range conflict out_of_range : Error

pub data Result {ℓ} (A : Type ℓ) : Type ℓ where
  ok : A → Result A
  err : Error → Result A
