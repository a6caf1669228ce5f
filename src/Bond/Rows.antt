-- ===== src/Bond/Rows.antt =====
-- The rows of validator_stakes (src/database/migrations/006_bond_pools.sql), and the statements of
-- `PgBondPoolStore` of src/staking/poolStore.ts at them.
use veri_node_backend.Prelude.{
  String, str_eq, Bool, ◌&&◌, Option, none, some, List, [], ◌∷◌, if◌then◌else◌,
}
use veri_node_backend.Prelude.Int.{ℤ, pos, negsuc, ◌+ℤ◌, ◌-ℤ◌, ltb_ℤ, leb_ℤ}
use veri_node_backend.Bond.Defs.{ValidatorStake, out_of_range, Result, ok, err}
use veri_node_backend.Bond.Memory.{is_zero}

abbrev pub is_row : String → String → ValidatorStake → Bool
is_row pool v e = str_eq e.pool_id pool && str_eq e.validator_id v

unfoldable pub select_stake : List ValidatorStake → String → String → Option ValidatorStake
select_stake [] pool v = none
select_stake (e ∷ es) pool v = if is_row pool v e then some e else select_stake es pool v

-- A BIGINT.
abbrev pub is_bigint : ℤ → Bool
is_bigint x = leb_ℤ (negsuc 9223372036854775807) x && leb_ℤ x (pos 9223372036854775807)

-- A BIGINT with CHECK (... >= 0).
abbrev pub is_storable : ℤ → Bool
is_storable x = leb_ℤ (pos 0) x && leb_ℤ x (pos 9223372036854775807)

abbrev pub prepend :
    ValidatorStake → Result (Option (List ValidatorStake)) → Result (Option (List ValidatorStake))
prepend e (ok none) = ok none
prepend e (ok (some es)) = ok (some (e ∷ es))
prepend e (err x) = err x

-- INSERT ... ON CONFLICT DO UPDATE ... WHERE amount + EXCLUDED.amount <= limit, at rows that are
-- checked one by one: only the update has the test. `none` is an empty RETURNING.
unfoldable pub upsert_rows :
    ℤ → String → String → ℤ → List ValidatorStake → Result (Option (List ValidatorStake))
upsert_rows limit pool v amount [] =
    ok (some ((record { pool_id = pool; validator_id = v; amount = amount }) ∷ []))
upsert_rows limit pool v amount (e ∷ es) =
    let rest = upsert_rows limit pool v amount es in
    let sum = e.amount +ℤ amount in
    if is_row pool v e
    then (if is_storable sum
        then (if ltb_ℤ limit sum then ok none else ok (some ((record e { amount = sum }) ∷ es)))
        else err out_of_range)
    else prepend e rest

-- The statement: the row to insert must pass the CHECK even when there is one to update, and the
-- parameters are BIGINTs.
unfoldable pub upsert_stake :
    ℤ → String → String → ℤ → List ValidatorStake → Result (Option (List ValidatorStake))
unfolding upsert_rows
upsert_stake limit pool v amount es =
    if is_storable amount && is_bigint limit
    then upsert_rows limit pool v amount es
    else err out_of_range

-- UPDATE amount = amount - $1, then DELETE WHERE amount = 0, at amounts that fit.
unfoldable pub subtract_stake : String → String → ℤ → List ValidatorStake → List ValidatorStake
subtract_stake pool v amount [] = []
subtract_stake pool v amount (e ∷ es) =
    let rest = subtract_stake pool v amount es in
    if is_row pool v e
    then (if is_zero (e.amount -ℤ amount)
        then rest
        else (record e { amount = e.amount -ℤ amount }) ∷ rest)
    else e ∷ rest
