-- ===== src/Bond/Examples.antt =====
-- Concrete runs of the bond pools, and the theorems at them.
use veri_node_backend.Prelude.{
  ◌==◌, ℕ, sym, str_eq, if◌then◌else◌, String, ◌≡◌, ◌≢◌, refl, Bool, true, false, none, some, [],
  ◌∷◌, arith, eq_iff,
}
use veri_node_backend.Prelude.Int.{ℤ, pos, ◌+ℤ◌, ◌-ℤ◌}
use veri_node_backend.Dict.{Dict, get, set, remove}
use veri_node_backend.Bond.Defs.{stake_limit, insufficient_stake, BondPool, ValidatorStake, ok, err}
use veri_node_backend.Bond.Memory.{
  Store, stake_key, get_validator_stake, stake, unstake, unstake_from, sum_of, sum_validator_stakes,
  reconcile_pool, is_out_of_range, service_stake, service_unstake, service_get_pool, get_pool,
}
use veri_node_backend.Bond.Postgres.{
  PgTables, pg_stake, pg_unstake, increment_pool_balance, decrement_pool_balance,
}
use veri_node_backend.Bond.Rows.{select_stake, upsert_rows, upsert_stake, subtract_stake}
use veri_node_backend.Bond.Debits.{IsKeyed}
use veri_node_backend.Bond.Optimistic.{Unstaked, pg_unstake_outcome, first_stake_unlimited}
use veri_node_backend.Bond.Backing.{IsBacked}
use veri_node_backend.Bond.Service.{stakes, unstakes, reconciles, step, run, run-IsBacked}
use veri_node_backend.Bond.Solvency.{key_collision}

abbrev pool_at : String → ℤ → BondPool
pool_at id balance = record { id = id; balance = balance; version = pos 1 }

abbrev stake_at : String → String → ℤ → ValidatorStake
stake_at pool v amount = record { pool_id = pool; validator_id = v; amount = amount }

-- Pool "q:x" is empty; validator "x:y" has 500 in pool "q", under the key "q:x:y".
abbrev funded : Store
funded = record {
  pools = ("q", pool_at "q" (pos 500)) ∷ ("q:x", pool_at "q:x" (pos 0)) ∷ [];
  stakes = ("q:x:y", stake_at "q" "x:y" (pos 500)) ∷ [];
  max_validator_stake = pos 100000;
}

program : Unit {0}
unfolding get set remove stake unstake unstake_from sum_of sum_validator_stakes reconcile_pool
    is_out_of_range service_stake service_unstake service_get_pool get_pool step run stake_key ◌+ℤ◌
    ◌-ℤ◌ get_validator_stake pg_stake pg_unstake select_stake upsert_rows upsert_stake
    subtract_stake increment_pool_balance decrement_pool_balance
program = tt

some_eq : {p r : BondPool} → some p ≡ some r → p.balance ≡ r.balance
some_eq e = cc

no_pool : {r : BondPool} {A : Type 0} → none ≡ some r → A
no_pool e = absurd cc

the_balance :
    (b c : Bool) (r : BondPool)
    → (if b then some (pool_at "q" (pos 500)) else if c then some (pool_at "q:x" (pos 0)) else none)
      ≡ some r
    → r.balance ≡ (if b then pos 500 else pos 0)
the_balance true c r e = sym (some_eq e)
the_balance false true r e = sym (some_eq e)
the_balance false false r e = no_pool e

funded-IsBacked : IsBacked funded
unfolding program
funded-IsBacked = record {
  balances = λ p r e. the_balance (str_eq "q" p) (str_eq "q:x" p) r e;
  entries = (
    record { keyed = refl; plain = (refl, tt); nonneg = omega arith; limited = omega arith },
    tt,
  );
  distinct = (tt, tt);
}

in_turn :
    service_get_pool
      (run funded (stakes "q" "v" (pos 200) ∷ unstakes "q" "x:y" (pos 500) ∷ reconciles "q" ∷ []))
      "q"
    ≡ some (record { id = "q"; balance = pos 200; version = pos 4 })
unfolding program
in_turn = refl

refused : (unstake funded "q" "x:y" (pos 501)).0 ≡ err insufficient_stake
unfolding program
refused = refl

run-IsBacked_example :
    IsBacked
      (run funded (stakes "q" "v" (pos 200) ∷ unstakes "q" "x:y" (pos 500) ∷ reconciles "q" ∷ []))
run-IsBacked_example =
    run-IsBacked funded
      (stakes "q" "v" (pos 200) ∷ unstakes "q" "x:y" (pos 500) ∷ reconciles "q" ∷ [])
      ((refl, tt), ((refl, tt), ((refl, tt), tt))) funded-IsBacked

key_collision_example : pos 500 ≢ sum_of "q" (stake funded "q:x" "y" (pos 200)).1.stakes
unfolding program
key_collision_example =
    (key_collision funded "q:x" "q" "y" "x:y" (pos 200) _ (pool_at "q" (pos 500))
      (stake_at "q" "x:y" (pos 500)) funded-IsBacked (λ e. ground (arith, eq_iff "q:x" "q")) refl
      refl refl refl (λ e. cc) refl).2

abbrev rows : PgTables
rows = record {
  bond_pools = ("q", pool_at "q" (pos 500)) ∷ [];
  validator_stakes = stake_at "q" "z" (pos 7) ∷ stake_at "q" "x" (pos 500) ∷ [];
}

-- Another transaction lowers the balance to 400 between the first SELECT and UPDATE.
abbrev busy : ℕ → Dict BondPool → Dict BondPool
busy n d = if n == 0 then set d "q" (record { id = "q"; balance = pos 400; version = pos 9 }) else d

second_attempt :
    (pg_unstake busy rows "q" "x" (pos 300)).0
    ≡ ok (record { id = "q"; balance = pos 100; version = pos 10 })
unfolding program
second_attempt = refl

rows-IsKeyed : IsKeyed rows.validator_stakes
unfolding program
rows-IsKeyed = (refl, (refl, tt))

pg_unstake_outcome_example :
    Unstaked busy rows "q" "x" (pos 300) (pg_unstake busy rows "q" "x" (pos 300))
pg_unstake_outcome_example = pg_unstake_outcome busy rows "q" "x" (pos 300) rows-IsKeyed

first_stake_unlimited_example :
    ((pg_stake (λ n d. d) (pos 100000) rows "q" "y" (pos 100001)).0
      ≡ ok (record { id = "q"; balance = pos 100501; version = pos 2 }))
    × ((stake (record funded { pools = rows.bond_pools }) "q" "y" (pos 100001)).0 ≡ err stake_limit)
unfolding program
first_stake_unlimited_example =
    first_stake_unlimited rows (pos 100000) "q" "y" (pos 100001) (pool_at "q" (pos 500)) refl refl
      refl refl refl refl (record funded { pools = rows.bond_pools }) refl refl refl refl
