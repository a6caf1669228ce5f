-- ===== src/Bond/Debits.antt =====
-- What the UPDATE and the DELETE of `unstake` of src/staking/poolStore.ts leave of the stakes.
use veri_node_backend.Prelude.{
  ◌∙◌, sym, subst, String, str_eq, eq_iff, &&-true, ◌≡◌, ◌≢◌, refl, ◌⊎◌, inl, inr, true, false,
  none, some, List, [], ◌∷◌, arith, Bool-cases, same_some, none-some,
}
use veri_node_backend.Prelude.Int.{ℤ, ◌-ℤ◌, -ℤ_parts}
use veri_node_backend.Bond.Defs.{ValidatorStake}
use veri_node_backend.Bond.Memory.{is_zero}
use veri_node_backend.Bond.Rows.{is_row, select_stake, subtract_stake}

-- The primary key: no two rows have the same pool and validator.
abbrev pub IsKeyed : List ValidatorStake → Type 0
IsKeyed [] = Unit
IsKeyed (e ∷ es) = (select_stake es e.pool_id e.validator_id ≡ none) × IsKeyed es

-- The row `e` of the validator in the pool is lowered by the amount, or gone if nothing is left of
-- it; the rows of all other pairs are as before.
pub record Debited (pool v : String) (amount : ℤ) (e : ValidatorStake)
    (before after : List ValidatorStake) : Type 0 where
  pub own :
      ((e.amount ≡ amount) × (select_stake after pool v ≡ none))
      ⊎ ((e.amount ≢ amount)
          × (select_stake after pool v ≡ some (record e { amount = e.amount -ℤ amount })))
  pub others :
      (pool' v' : String)
      → ¬ ((pool' ≡ pool) × (v' ≡ v))
      → select_stake after pool' v' ≡ select_stake before pool' v'

other_row :
    (pool v pool' v' : String) (e : ValidatorStake)
    → ¬ ((pool' ≡ pool) × (v' ≡ v))
    → is_row pool v e ≡ true
    → is_row pool' v' e ≡ false
other_row pool v pool' v' e h r =
    let (p, q) = &&-true (str_eq e.pool_id pool) (str_eq e.validator_id v) r in
    elim (Bool-cases (is_row pool' v' e)) [
      | inr f ↦ f
      | inl f ↦
          let (p', q') = &&-true (str_eq e.pool_id pool') (str_eq e.validator_id v') f in
          absurd (
            h (
              sym ((eq_iff e.pool_id pool').0 p') ∙ (eq_iff e.pool_id pool).0 p,
              sym ((eq_iff e.validator_id v').0 q') ∙ (eq_iff e.validator_id v).0 q,
            ))
    ]

subtract_stake-others :
    (pool v : String) (amount : ℤ) (pool' v' : String) (es : List ValidatorStake)
    → ¬ ((pool' ≡ pool) × (v' ≡ v))
    → select_stake (subtract_stake pool v amount es) pool' v' ≡ select_stake es pool' v'
unfolding select_stake subtract_stake
subtract_stake-others pool v amount pool' v' [] h = refl
subtract_stake-others pool v amount pool' v' (e ∷ es) h =
    let rest = subtract_stake-others pool v amount pool' v' es h in
    elim (Bool-cases (is_row pool v e)) [
      | inl r ↦
          let f = other_row pool v pool' v' e h r in
          elim (Bool-cases (is_zero (e.amount -ℤ amount))) [
            | inl z ↦ rw r (rw z (rw f rest))
            | inr z ↦ rw r (rw z (rw f rest))
          ]
      | inr r ↦ elim (Bool-cases (is_row pool' v' e)) [
        | inl f ↦ rw r (rw f refl)
        | inr f ↦ rw r (rw f rest)
      ]
    ]

subtract_stake-absent :
    (pool v : String) (amount : ℤ) (es : List ValidatorStake)
    → select_stake es pool v ≡ none
    → select_stake (subtract_stake pool v amount es) pool v ≡ none
unfolding select_stake subtract_stake
subtract_stake-absent pool v amount [] h = refl
subtract_stake-absent pool v amount (e ∷ es) h = elim (Bool-cases (is_row pool v e)) [
  | inl r ↦ absurd (none-some (sym (rw r at h)))
  | inr r ↦ rw r (rw r (subtract_stake-absent pool v amount es (rw r at h)))
]

zero-amount : (x y : ℤ) → is_zero (x -ℤ y) ≡ true → x ≡ y
zero-amount x y h = ground (arith, -ℤ_parts x y)

not_zero-amount : (x y : ℤ) → is_zero (x -ℤ y) ≡ false → x ≢ y
not_zero-amount x y h e = ground (arith, -ℤ_parts x y)

subtract_stake-own :
    (pool v : String) (amount : ℤ) (e : ValidatorStake) (es : List ValidatorStake)
    → IsKeyed es
    → select_stake es pool v ≡ some e
    → ((e.amount ≡ amount) × (select_stake (subtract_stake pool v amount es) pool v ≡ none))
      ⊎ ((e.amount ≢ amount)
          × (select_stake (subtract_stake pool v amount es) pool v
              ≡ some (record e { amount = e.amount -ℤ amount })))
unfolding select_stake subtract_stake
subtract_stake-own pool v amount e [] k h = absurd (none-some h)
subtract_stake-own pool v amount e (x ∷ es) (alone, k) h = elim (Bool-cases (is_row pool v x)) [
  | inr r ↦ rw r (rw r (subtract_stake-own pool v amount e es k (rw r at h)))
  | inl r ↦
      let (p, q) = &&-true (str_eq x.pool_id pool) (str_eq x.validator_id v) r in
      let gone : select_stake es pool v ≡ none =
        rw⁻¹ ((eq_iff x.pool_id pool).0 p, (eq_iff x.validator_id v).0 q) alone in
      subst
        (λ y.
          ((y.amount ≡ amount)
            × (select_stake (subtract_stake pool v amount (x ∷ es)) pool v ≡ none))
          ⊎ ((y.amount ≢ amount)
              × (select_stake (subtract_stake pool v amount (x ∷ es)) pool v
                  ≡ some (record y { amount = y.amount -ℤ amount }))))
        (same_some (rw r at h))
        (elim (Bool-cases (is_zero (x.amount -ℤ amount))) [
          | inl z ↦ inl (
            zero-amount x.amount amount z,
            rw r (rw z (subtract_stake-absent pool v amount es gone)),
          )
          | inr z ↦ inr (not_zero-amount x.amount amount z, rw r (rw z (rw r refl)))
        ])
]

pub subtract_stake-Debited :
    (pool v : String) (amount : ℤ) (e : ValidatorStake) (es : List ValidatorStake)
    → IsKeyed es
    → select_stake es pool v ≡ some e
    → Debited pool v amount e es (subtract_stake pool v amount es)
subtract_stake-Debited pool v amount e es k h = record {
  own = subtract_stake-own pool v amount e es k h;
  others = λ pool' v'. subtract_stake-others pool v amount pool' v' es;
}
