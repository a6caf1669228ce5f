-- ===== src/Bond/Cases.antt =====
-- The ways in which a call of the in-memory store ends.
use veri_node_backend.Prelude.{
  String, ◌≡◌, ◌⊎◌, inl, inr, true, false, some, Bool-cases, Option-cases,
}
use veri_node_backend.Prelude.Int.{ℤ, pos, ◌+ℤ◌, ◌-ℤ◌, ltb_ℤ}
use veri_node_backend.Dict.{get}
use veri_node_backend.Bond.Defs.{
  BondPool, ValidatorStake, Error, pool_not_found, insufficient_stake, insufficient_pool_balance,
  stake_limit, Result, ok, err,
}
use veri_node_backend.Bond.Memory.{
  Store, stake_key, amount_or_zero, staked, stake, unstaked, unstake_from, unstake,
}

abbrev pub paid_in : BondPool → ℤ → BondPool
paid_in p amount = record p { balance = p.balance +ℤ amount; version = p.version +ℤ pos 1 }

abbrev pub paid_out : BondPool → ℤ → BondPool
paid_out p amount = record p { balance = p.balance -ℤ amount; version = p.version +ℤ pos 1 }

abbrev pub Stakes : Store → String → String → ℤ → Result BondPool × Store → Type 0
Stakes s pool v amount r =
    ((e : Error) × (r ≡ (err e, s)))
    ⊎ ((p : BondPool) × (get s.pools pool ≡ some p)
        × (let next = amount_or_zero (get s.stakes (stake_key pool v)) +ℤ amount in
            (ltb_ℤ s.max_validator_stake next ≡ false)
            × (r ≡ (ok (paid_in p amount), staked pool v amount p next s))))

pub stake_cases :
    (s : Store) (pool v : String) (amount : ℤ) → Stakes s pool v amount (stake s pool v amount)
unfolding stake
stake_cases s pool v amount = elim (Option-cases (get s.pools pool)) [
  | inl e ↦ inl (pool_not_found, rw (e, stake))
  | inr (p, e) ↦
      elim (Bool-cases (
        ltb_ℤ s.max_validator_stake (amount_or_zero (get s.stakes (stake_key pool v)) +ℤ amount))) [
          | inl f ↦ inl (stake_limit, rw (e, stake) (rw f))
          | inr f ↦ inr (p, e, (f, rw (e, stake) (rw f)))
        ]
]

abbrev pub Unstakes : Store → String → String → ℤ → Result BondPool × Store → Type 0
Unstakes s pool v amount r =
    (r ≡ (err pool_not_found, s))
    ⊎ (r ≡ (err insufficient_stake, s))
    ⊎ ((p : BondPool) × (e : ValidatorStake) × (get s.pools pool ≡ some p)
        × (get s.stakes (stake_key pool v) ≡ some e)
        × (ltb_ℤ e.amount amount ≡ false)
        × (((ltb_ℤ p.balance amount ≡ true) × (r ≡ (err insufficient_pool_balance, s)))
            ⊎ ((ltb_ℤ p.balance amount ≡ false)
                × (r ≡ (ok (paid_out p amount), unstaked pool v amount p e s)))))

pub unstake_cases :
    (s : Store) (pool v : String) (amount : ℤ) → Unstakes s pool v amount (unstake s pool v amount)
unfolding unstake
unstake_cases s pool v amount = elim (Option-cases (get s.pools pool)) [
  | inl n ↦ inl (rw (n, unstake))
  | inr (p, found) ↦ elim (Option-cases (get s.stakes (stake_key pool v))) [
    | inl n ↦ inr (inl (rw (found, unstake) (rw n)))
    | inr (e, held) ↦ elim (Bool-cases (ltb_ℤ e.amount amount)) [
      | inl f ↦ inr (inl (rw (found, unstake) (rw (held, unstake_from) (rw f))))
      | inr f ↦ inr (
          inr (
            p,
            e,
            found,
            held,
            f,
            elim (Bool-cases (ltb_ℤ p.balance amount)) [
              | inl g ↦ inl (g, rw (found, unstake) (rw (held, unstake_from) (rw (f, g))))
              | inr g ↦ inr (g, rw (found, unstake) (rw (held, unstake_from) (rw (f, g))))
            ],
          ))
    ]
  ]
]
