-- ===== src/Bond/Backing.antt =====
-- The bond pools are backed: each balance is the sum of the pool's stakes.
use veri_node_backend.Prelude.{
  String, str_eq, ◌≡◌, refl, inl, inr, true, false, some, arith, if◌then◌else◌, Bool-cases,
  Option-cases, sym, ap, ◌∙◌, All,
}
use veri_node_backend.Prelude.Int.{ℤ, pos, ◌+ℤ◌, ◌-ℤ◌, ◌≤ℤ◌, ltb_ℤ}
use veri_node_backend.Dict.{
  Dict, get, set, remove, get-set, split_key, Distinct, Distinct-set, Distinct-remove, All-set,
  All-remove, All-get,
}
use veri_node_backend.Bond.Defs.{BondPool, ValidatorStake}
use veri_node_backend.Bond.Memory.{
  Store, stake_key, amount_or_zero, stake, is_zero, unstaked, unstake, sum_of, reconcile_pool,
}
use veri_node_backend.Bond.Cases.{stake_cases, unstake_cases, paid_in, paid_out}
use veri_node_backend.Bond.Amounts.{
  take_old, take_none, sum-IsNonneg, not_below, sub-IsNonneg, sub_limited, minus_plus, drop_all,
  drop_none, plus_zero,
}
use veri_node_backend.Bond.Keys.{ColonFree, stake_key-pool}
use veri_node_backend.Bond.Sums.{share, sum_of-set, sum_of-remove, IsNonneg}

-- An entry stands under its own key, in a pool whose id has no colon, within the stake limit.
pub record IsEntry (limit : ℤ) (x : String × ValidatorStake) : Type 0 where
  pub keyed : x.0 ≡ stake_key x.1.pool_id x.1.validator_id
  pub plain : ColonFree x.1.pool_id
  pub nonneg : IsNonneg x.1.amount
  pub limited : x.1.amount ≤ℤ limit

pub record IsBacked (s : Store) : Type 0 where
  pub balances :
      (p : String) (pool : BondPool) → get s.pools p ≡ some pool → pool.balance ≡ sum_of p s.stakes
  pub entries : All (IsEntry s.max_validator_stake) s.stakes
  pub distinct : Distinct s.stakes

-- A call that moves the balance of one pool by as much as its stakes.
abbrev moved : String → BondPool → Dict ValidatorStake → Store → Store
moved pool p stakes s = record s { stakes = stakes; pools = set s.pools pool p }

raised :
    {b x : ℤ} (y : ℤ) (p r : BondPool)
    → some p ≡ some r
    → p.balance ≡ b +ℤ y
    → b ≡ x
    → r.balance ≡ x +ℤ y
raised y p r e f g = cc

moved-IsBacked :
    (pool : String) (p p' : BondPool) (d : Dict ValidatorStake) (change : ℤ) (s : Store)
    → IsBacked s
    → get s.pools pool ≡ some p
    → p'.balance ≡ p.balance +ℤ change
    → ((q : String) → sum_of q d ≡ sum_of q s.stakes +ℤ (if str_eq pool q then change else pos 0))
    → All (IsEntry s.max_validator_stake) d
    → Distinct d
    → IsBacked (moved pool p' d s)
moved-IsBacked pool p p' d change s h found bal sums entries distinct = record {
  balances = λ q r.
      rw (get-set s.pools pool p' q, sums q)
        (split_key
          (λ b i.
            (if b then some p' else get s.pools i) ≡ some r
            → r.balance ≡ sum_of i s.stakes +ℤ (if b then change else pos 0))
          pool q (λ e. raised change p' r e bal (h.balances pool p found))
          (λ _ e. h.balances q r e ∙ sym (plus_zero (sum_of q s.stakes))));
  entries = entries;
  distinct = distinct;
}

module _ (s : Store) (pool validator : String) (h : IsBacked s) (plain : ColonFree pool) where
  -- The entry under a key of the pool belongs to the pool.
  pub owner :
      (e : ValidatorStake) → get s.stakes (stake_key pool validator) ≡ some e → e.pool_id ≡ pool
  owner e found =
      let i = All-get (IsEntry s.max_validator_stake) s.stakes _ e h.entries found in
      stake_key-pool e.pool_id pool e.validator_id validator i.plain plain (sym i.keyed)

  share-owner :
      (q : String)
      → share q (get s.stakes (stake_key pool validator)) ≡ (
          if str_eq pool q then amount_or_zero (get s.stakes (stake_key pool validator)) else pos 0)
  share-owner q = elim (Option-cases (get s.stakes (stake_key pool validator))) [
    | inl e ↦ rw e (ground arith)
    | inr (e, found) ↦ rw found (rw (owner e found) refl)
  ]

  set_sums :
      (v : ValidatorStake) (change : ℤ)
      → v.pool_id ≡ pool
      → v.amount ≡ amount_or_zero (get s.stakes (stake_key pool validator)) +ℤ change
      → (q : String)
      → sum_of q (set s.stakes (stake_key pool validator) v)
        ≡ sum_of q s.stakes +ℤ (if str_eq pool q then change else pos 0)
  set_sums v change own next q =
      let total = sum_of-set q s.stakes (stake_key pool validator) v in
      let old = share-owner q in
      elim (Bool-cases (str_eq pool q)) [
        | inl e ↦ rw e (take_old _ _ _ _ _ change total (rw e at old) (rw (own, e) next))
        | inr e ↦ rw e (take_none _ _ _ _ total (rw e at old) (rw (own, e) refl))
      ]

  pub old-IsNonneg : IsNonneg (amount_or_zero (get s.stakes (stake_key pool validator)))
  old-IsNonneg = elim (Option-cases (get s.stakes (stake_key pool validator))) [
    | inl e ↦ rw e (omega arith)
    | inr (e, found) ↦
        rw found (All-get (IsEntry s.max_validator_stake) s.stakes _ e h.entries found).nonneg
  ]

  pub stake-IsBacked : (amount : ℤ) → IsNonneg amount → IsBacked (stake s pool validator amount).1
  stake-IsBacked amount gain = elim (stake_cases s pool validator amount) [
    | inl (e, q) ↦ rw q h
    | inr (p, found, (below, q)) ↦
        let old = amount_or_zero (get s.stakes (stake_key pool validator)) in
        rw q (
          moved-IsBacked pool p (paid_in p amount) _ amount s h found refl
            (set_sums _ amount refl refl)
            (All-set (IsEntry s.max_validator_stake) s.stakes _ _ h.entries (record {
              keyed = refl;
              plain = plain;
              nonneg = sum-IsNonneg old amount old-IsNonneg gain;
              limited = not_below s.max_validator_stake (old +ℤ amount) below;
            }))
            (Distinct-set s.stakes _ _ h.distinct))
  ]

  removed_sums :
      (e : ValidatorStake) (amount : ℤ)
      → get s.stakes (stake_key pool validator) ≡ some e
      → is_zero (e.amount -ℤ amount) ≡ true
      → (q : String)
      → sum_of q (remove s.stakes (stake_key pool validator))
        ≡ sum_of q s.stakes +ℤ (if str_eq pool q then pos 0 -ℤ amount else pos 0)
  removed_sums e amount found gone q =
      let total = sum_of-remove q s.stakes (stake_key pool validator) h.distinct in
      let old = share-owner q in
      elim (Bool-cases (str_eq pool q)) [
        | inl f ↦
            rw f (drop_all _ _ _ e.amount amount total (rw f at old ∙ ap amount_or_zero found) gone)
        | inr f ↦ rw f (drop_none _ _ _ total (rw f at old))
      ]

  unstaked-IsBacked :
      (p : BondPool) (e : ValidatorStake) (amount : ℤ)
      → IsNonneg amount
      → get s.pools pool ≡ some p
      → get s.stakes (stake_key pool validator) ≡ some e
      → ltb_ℤ e.amount amount ≡ false
      → IsBacked (unstaked pool validator amount p e s)
  unstaked-IsBacked p e amount cost found held enough =
      elim (Bool-cases (is_zero (e.amount -ℤ amount))) [
        | inl z ↦ simp z (
            moved-IsBacked pool p (paid_out p amount) _ (pos 0 -ℤ amount) s h found
              (minus_plus p.balance amount) (removed_sums e amount held z)
              (All-remove (IsEntry s.max_validator_stake) s.stakes _ h.entries)
              (Distinct-remove s.stakes _ h.distinct))
        | inr z ↦
            let i = All-get (IsEntry s.max_validator_stake) s.stakes _ e h.entries held in
            simp z (
              moved-IsBacked pool p (paid_out p amount) _ (pos 0 -ℤ amount) s h found
                (minus_plus p.balance amount)
                (set_sums (record e { amount = e.amount -ℤ amount }) (pos 0 -ℤ amount)
                  (owner e held) (rw held (minus_plus e.amount amount)))
                (All-set (IsEntry s.max_validator_stake) s.stakes _ _ h.entries (record {
                  keyed = i.keyed;
                  plain = i.plain;
                  nonneg = sub-IsNonneg e.amount amount enough;
                  limited = sub_limited e.amount amount s.max_validator_stake cost i.limited;
                }))
                (Distinct-set s.stakes _ _ h.distinct))
      ]

  pub unstake-IsBacked :
      (amount : ℤ) → IsNonneg amount → IsBacked (unstake s pool validator amount).1
  unstake-IsBacked amount cost = elim (unstake_cases s pool validator amount) [
    | inl q ↦ rw q h
    | inr (inl q) ↦ rw q h
    | inr (inr (p, e, found, held, enough, inl (_, q))) ↦ rw q h
    | inr (inr (p, e, found, held, enough, inr (_, q))) ↦
        rw q (unstaked-IsBacked p e amount cost found held enough)
  ]

pub reconcile_pool-IsBacked :
    (s : Store) (pool : String) → IsBacked s → IsBacked (reconcile_pool s pool).1
unfolding reconcile_pool
reconcile_pool-IsBacked s pool h = elim (Option-cases (get s.pools pool)) [
  | inl e ↦ rw (e, reconcile_pool) h
  | inr (p, found) ↦
      let p' : BondPool = record p {
        balance = sum_of pool s.stakes;
        version = p.version +ℤ pos 1;
      } in
      rw (found, reconcile_pool)
        (moved-IsBacked pool p p' s.stakes (pos 0) s h found
          (sym (h.balances pool p found) ∙ sym (plus_zero p.balance)) (λ q. sym (none_added q))
          h.entries h.distinct)
]
  where
    none_added :
        (q : String)
        → sum_of q s.stakes +ℤ (if str_eq pool q then pos 0 else pos 0) ≡ sum_of q s.stakes
    none_added q = elim (Bool-cases (str_eq pool q)) [
      | inl e ↦ rw e (plus_zero (sum_of q s.stakes))
      | inr e ↦ rw e (plus_zero (sum_of q s.stakes))
    ]
