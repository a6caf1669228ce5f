-- ===== src/Bond/Optimistic.antt =====
-- What a transaction of the Postgres store does whatever other transactions do to the pools.
use veri_node_backend.Prelude.{
  same_some, subst, ◌∙◌, sym, ◌&&◌, none-some, ℕ, ◌≤◌, String, ◌≡◌, refl, ◌⊎◌, inl, inr, true,
  false, none, some, List, [], ◌∷◌, arith, Bool-cases, Option-cases,
}
use veri_node_backend.Prelude.Int.{◌-ℤ◌, +ℤ_parts, ℤ, pos, ◌+ℤ◌, ltb_ℤ, eqb_ℤ}
use veri_node_backend.Dict.{Dict, get, set}
use veri_node_backend.Bond.Defs.{
  BondPool, ValidatorStake, Error, insufficient_stake, stake_limit, out_of_range, Result, ok, err,
}
use veri_node_backend.Bond.Cases.{paid_in}
use veri_node_backend.Bond.Postgres.{
  PgTables, increment_pool_balance, try_increment, ended, pg_stake, pg_unstake,
}
use veri_node_backend.Bond.Rows.{
  is_bigint, is_storable, is_row, select_stake, upsert_rows, upsert_stake,
}
use veri_node_backend.Bond.Debits.{IsKeyed, Debited, subtract_stake-Debited}
use veri_node_backend.Bond.Attempts.{disturbed, lowered, Refused, Lowered, decrement_outcome}
use veri_node_backend.Bond.Memory.{Store, get_validator_stake, stake}

-- The transaction lowered the stake, whose row was `e`, and the pool's row as it stood, or wrote
-- nothing.
abbrev pub PaidOut :
    (ℕ → Dict BondPool → Dict BondPool)
    → PgTables
    → String
    → String
    → ℤ
    → ValidatorStake
    → Result BondPool × PgTables
    → Type 0
PaidOut others t pool v amount e r =
    (k : ℕ) × (k ≤ 5)
    × (let d = disturbed others pool amount k 0 t.bond_pools in
        ((row : BondPool) × (rows : List ValidatorStake) × (get d pool ≡ some row)
          × (ltb_ℤ row.balance amount ≡ false)
          × Debited pool v amount e t.validator_stakes rows
          × (r ≡ (
            ok (lowered others pool amount row),
            record {
              bond_pools = set d pool (lowered others pool amount row);
              validator_stakes = rows;
            },
          )))
        ⊎ ((x : Error) × Refused others pool amount 5 k d x
            × (r ≡ (err x, record { bond_pools = d; validator_stakes = t.validator_stakes }))))

abbrev pub Unstaked :
    (ℕ → Dict BondPool → Dict BondPool)
    → PgTables
    → String
    → String
    → ℤ
    → Result BondPool × PgTables
    → Type 0
Unstaked others t pool v amount r =
    ((r ≡ (err insufficient_stake, t))
      × ((e : ValidatorStake)
          → select_stake t.validator_stakes pool v ≡ some e
          → ltb_ℤ e.amount amount ≡ true))
    ⊎ ((e : ValidatorStake) × (select_stake t.validator_stakes pool v ≡ some e)
        × (ltb_ℤ e.amount amount ≡ false)
        × (((is_bigint amount && is_storable (e.amount -ℤ amount) ≡ false)
              × (r ≡ (err out_of_range, t)))
            ⊎ PaidOut others t pool v amount e r))

close :
    (others : ℕ → Dict BondPool → Dict BondPool) (t : PgTables) (pool v : String) (amount : ℤ)
    (e : ValidatorStake) (rows : List ValidatorStake) (r : Result BondPool × Dict BondPool)
    → Debited pool v amount e t.validator_stakes rows
    → Lowered others pool amount 5 0 t.bond_pools r
    → PaidOut others t pool v amount e (ended t.validator_stakes rows r)
close others t pool v amount e rows r h (k, le, inl (row, found, enough, q)) =
    (k, le, inl (row, rows, found, enough, h, rw q refl))
close others t pool v amount e rows r h (k, le, inr (x, w, q)) = (k, le, inr (x, w, rw q refl))

-- Where no two rows of the stakes have the same pool and validator, and whatever other transactions
-- do to the pools between the reads and the writes of `unstake`, it ends in one of two ways. It
-- fails and has written nothing: the validator does not hold the amount, a number would leave its
-- column's range, the pool is gone or does not hold the amount, or five attempts have passed.
-- Or the validator held the amount, the pool held it at the moment of the write, and two things
-- have changed: the pool's balance is lowered by the amount, from what it was at that moment, with
-- the next version; and the validator's row is lowered by the amount, or gone if nothing is left of
-- it, while the rows of all other pairs are as before.
pub pg_unstake_outcome :
    (others : ℕ → Dict BondPool → Dict BondPool) (t : PgTables) (pool v : String) (amount : ℤ)
    → IsKeyed t.validator_stakes
    → Unstaked others t pool v amount (pg_unstake others t pool v amount)
unfolding pg_unstake
pg_unstake_outcome others t pool v amount keyed =
    elim (Option-cases (select_stake t.validator_stakes pool v)) [
      | inl n ↦ inl (rw (n, pg_unstake) refl, λ e h. absurd (none-some (sym n ∙ h)))
      | inr (e, found) ↦ elim (Bool-cases (ltb_ℤ e.amount amount)) [
        | inl f ↦ inl (
          rw (found, pg_unstake) (rw f refl),
          λ e' h.
              subst (λ (x : ValidatorStake). ltb_ℤ x.amount amount ≡ true)
                (same_some (sym found ∙ h)) f,
        )
        | inr f ↦ inr (
          e,
          found,
          f,
          elim (Bool-cases (is_bigint amount && is_storable (e.amount -ℤ amount))) [
            | inr g ↦ inl (g, rw (found, pg_unstake) (rw f (rw g refl)))
            | inl g ↦ inr (
                rw (found, pg_unstake)
                  (rw f (
                    rw g (
                      close others t pool v amount e _ _
                        (subtract_stake-Debited pool v amount e t.validator_stakes keyed found)
                        (decrement_outcome others pool amount 5 0 t.bond_pools)))))
          ],
        )
      ]
    ]

upsert_rows-fresh :
    (limit : ℤ) (pool v : String) (amount : ℤ) (es : List ValidatorStake)
    → select_stake es pool v ≡ none
    → (rows : List ValidatorStake) × (upsert_rows limit pool v amount es ≡ ok (some rows))
unfolding select_stake upsert_rows
upsert_rows-fresh limit pool v amount [] h = (_, refl)
upsert_rows-fresh limit pool v amount (e ∷ es) h = elim (Bool-cases (is_row pool v e)) [
  | inl r ↦ absurd (none-some (sym (rw r at h)))
  | inr r ↦
      let (rows, q) = upsert_rows-fresh limit pool v amount es (rw r at h) in
      (e ∷ rows, rw r (rw q refl))
]

upsert_stake-fresh :
    (limit : ℤ) (pool v : String) (amount : ℤ) (es : List ValidatorStake)
    → is_storable amount ≡ true
    → is_bigint limit ≡ true
    → select_stake es pool v ≡ none
    → (rows : List ValidatorStake) × (upsert_stake limit pool v amount es ≡ ok (some rows))
unfolding upsert_stake
upsert_stake-fresh limit pool v amount es fits lim h =
    let (rows, q) = upsert_rows-fresh limit pool v amount es h in (rows, rw fits (rw lim q))

eqb_refl : (x : ℤ) → eqb_ℤ x x ≡ true
eqb_refl x = ground arith

over_limit : (limit amount : ℤ) → ltb_ℤ limit amount ≡ true → ltb_ℤ limit (pos 0 +ℤ amount) ≡ true
over_limit limit amount h = ground (arith, +ℤ_parts (pos 0) amount)

-- With nobody else at work, a row that fits is written at the first attempt.
quiet_increment :
    (pool : String) (amount : ℤ) (d : Dict BondPool) (p : BondPool)
    → get d pool ≡ some p
    → is_storable (p.balance +ℤ amount) ≡ true
    → is_bigint (p.version +ℤ pos 1) ≡ true
    → increment_pool_balance (λ n e. e) pool amount 5 0 d
      ≡ (ok (paid_in p amount), set d pool (paid_in p amount))
unfolding increment_pool_balance
quiet_increment pool amount d p found fits next = rw (found, increment_pool_balance) (try_first _)
  where
    try_first :
        (r : Result BondPool × Dict BondPool)
        → try_increment (λ n e. e) pool amount p d r
          ≡ (ok (paid_in p amount), set d pool (paid_in p amount))
    try_first r = rw (found, try_increment) (rw (eqb_refl p.version) (rw fits (rw next refl)))

-- The first stake of a validator in a pool is not held against the limit: with no row to conflict
-- with, nobody else at work, and every number within the range of its column, `stake` of an amount
-- of zero or more succeeds, where the in-memory store, whose limit is less than the amount, refuses
-- it.
pub first_stake_unlimited :
    (t : PgTables) (limit : ℤ) (pool v : String) (amount : ℤ) (p : BondPool)
    → is_storable amount ≡ true
    → is_bigint limit ≡ true
    → is_storable (p.balance +ℤ amount) ≡ true
    → is_bigint (p.version +ℤ pos 1) ≡ true
    → get t.bond_pools pool ≡ some p
    → select_stake t.validator_stakes pool v ≡ none
    → (s : Store) → s.pools ≡ t.bond_pools
    → s.max_validator_stake ≡ limit
    → get_validator_stake s pool v ≡ none
    → ltb_ℤ limit amount ≡ true
    → ((pg_stake (λ n d. d) limit t pool v amount).0 ≡ ok (paid_in p amount))
      × ((stake s pool v amount).0 ≡ err stake_limit)
unfolding get_validator_stake pg_stake stake
first_stake_unlimited t limit pool v amount p fits range sum next found fresh s same lim none_held
      over =
    (
      let (rows, q) = upsert_stake-fresh limit pool v amount t.validator_stakes fits range fresh in
          rw (found, pg_stake)
            (rw (q, pg_stake)
              (rw (quiet_increment pool amount t.bond_pools p found sum next) refl)),
      let found' : get s.pools pool ≡ some p = rw same found in
          rw (found', stake) (rw none_held (rw lim (rw (over_limit limit amount over) refl))),
    )
