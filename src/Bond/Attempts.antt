-- ===== src/Bond/Attempts.antt =====
-- The attempts of `decrementPoolBalance` of src/staking/poolStore.ts, whatever other transactions do
-- to the pools between them.
use veri_node_backend.Prelude.{
  true, none, ◌&&◌, ℕ, zero, suc, ◌≤◌, String, ◌≡◌, refl, ◌⊎◌, inl, inr, false, some, arith,
  Bool-cases, Option-cases,
}
use veri_node_backend.Prelude.Int.{◌-ℤ◌, ℤ, pos, ◌+ℤ◌, ltb_ℤ, eqb_ℤ}
use veri_node_backend.Dict.{Dict, get, set}
use veri_node_backend.Bond.Defs.{
  BondPool, Error, pool_not_found, insufficient_stake, insufficient_pool_balance, stake_limit,
  amount_out_of_range, conflict, out_of_range, Result, ok, err,
}
use veri_node_backend.Bond.Postgres.{decrement_pool_balance, try_decrement}
use veri_node_backend.Bond.Rows.{is_bigint, is_storable}

module _ (others : ℕ → Dict BondPool → Dict BondPool) (pool : String) (amount : ℤ) where
  -- The pools after `k` turns of the others, the first of which has the number `attempt`.
  abbrev pub disturbed : ℕ → ℕ → Dict BondPool → Dict BondPool
  disturbed zero attempt d = d
  disturbed (suc k) attempt d = disturbed k (suc attempt) (others attempt d)

  abbrev pub lowered : BondPool → BondPool
  lowered row = record {
    id = row.id;
    balance = row.balance -ℤ amount;
    version = row.version +ℤ pos 1;
  }

  -- Why the call ended with this error, at `k` turns of `left` and the pools `d`.
  abbrev pub Refused : ℕ → ℕ → Dict BondPool → Error → Type 0
  Refused left k d conflict = k ≡ left
  Refused left k d pool_not_found = get d pool ≡ none
  Refused left k d insufficient_pool_balance =
      (row : BondPool) × (get d pool ≡ some row) × (ltb_ℤ row.balance amount ≡ true)
  Refused left k d out_of_range =
      (row : BondPool) × (get d pool ≡ some row)
      × (is_storable (row.balance -ℤ amount) && is_bigint (row.version +ℤ pos 1) ≡ false)
  Refused left k d insufficient_stake = ⊥
  Refused left k d stake_limit = ⊥
  Refused left k d amount_out_of_range = ⊥

  Refused-later :
      (left k : ℕ) (d : Dict BondPool) (e : Error)
      → Refused left k d e
      → Refused (suc left) (suc k) d e
  Refused-later left k d conflict h = omega (arith, h)
  Refused-later left k d pool_not_found h = h
  Refused-later left k d insufficient_pool_balance h = h
  Refused-later left k d out_of_range h = h
  Refused-later left k d insufficient_stake h = h
  Refused-later left k d stake_limit h = h
  Refused-later left k d amount_out_of_range h = h

  -- One write, on the row as it stood at that moment, or none.
  abbrev pub Lowered : ℕ → ℕ → Dict BondPool → Result BondPool × Dict BondPool → Type 0
  Lowered left a d r =
      ((k : ℕ) × (k ≤ left)
        × (((row : BondPool) × (get (disturbed k a d) pool ≡ some row)
              × (ltb_ℤ row.balance amount ≡ false)
              × (r ≡ (ok (lowered row), set (disturbed k a d) pool (lowered row))))
            ⊎ ((e : Error) × Refused left k (disturbed k a d) e × (r ≡ (err e, disturbed k a d)))))

  later :
      (left a : ℕ) (d : Dict BondPool) (r : Result BondPool × Dict BondPool)
      → Lowered left (suc a) (others a d) r
      → Lowered (suc left) a d r
  later left a d r (k, le, inl h) = (suc k, omega arith, inl h)
  later left a d r (k, le, inr (e, h, q)) =
      (suc k, omega arith, inr (e, Refused-later left k _ e h, q))

  try_outcome :
      (left a : ℕ) (d : Dict BondPool) (current : BondPool) (r : Result BondPool × Dict BondPool)
      → Lowered left (suc a) (others a d) r
      → Lowered (suc left) a d (try_decrement others pool amount current (others a d) r)
  try_outcome left a d current r h = elim (Option-cases (get (others a d) pool)) [
    | inl n ↦ rw (n, try_decrement) (later left a d r h)
    | inr (row, g) ↦ elim (Bool-cases (eqb_ℤ row.version current.version)) [
      | inr v ↦ rw (g, try_decrement) (rw v (later left a d r h))
      | inl v ↦ elim (Bool-cases (ltb_ℤ row.balance amount)) [
        | inl b ↦ rw (g, try_decrement) (rw v (rw b (later left a d r h)))
        | inr b ↦
            elim (Bool-cases
              (is_storable (row.balance -ℤ amount) && is_bigint (row.version +ℤ pos 1))) [
                | inl f ↦ (
                  1,
                  omega arith,
                  inl (row, g, b, rw (g, try_decrement) (rw v (rw b (rw f refl)))),
                )
                | inr f ↦ (
                  1,
                  omega arith,
                  inr (out_of_range, (row, g, f), rw (g, try_decrement) (rw v (rw b (rw f refl)))),
                )
              ]
      ]
    ]
  ]

  pub decrement_outcome :
      (left a : ℕ) (d : Dict BondPool)
      → Lowered left a d (decrement_pool_balance others pool amount left a d)
  unfolding decrement_pool_balance
  decrement_outcome zero a d = (0, omega arith, inr (conflict, refl, refl))
  decrement_outcome (suc left) a d =
      let rest = decrement_outcome left (suc a) (others a d) in
      elim (Option-cases (get d pool)) [
        | inl n ↦ (0, omega arith, inr (pool_not_found, n, rw (n, decrement_pool_balance) refl))
        | inr (current, e) ↦ elim (Bool-cases (ltb_ℤ current.balance amount)) [
          | inl f ↦ (
            0,
            omega arith,
            inr (
              insufficient_pool_balance,
              (current, e, f),
              rw (e, decrement_pool_balance) (rw f refl),
            ),
          )
          | inr f ↦ rw (e, decrement_pool_balance) (rw f (try_outcome left a d current _ rest))
        ]
      ]
