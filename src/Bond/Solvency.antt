-- ===== src/Bond/Solvency.antt =====
-- What backing gives: unstaking is never stopped by the pool, staking can be taken back, and one key
-- for two stakes breaks the backing.
use veri_node_backend.Prelude.{
  String, str_eq, eq_iff, eq_refl, ◌≡◌, ◌≢◌, refl, inl, inr, false, some, arith, ap, sym, ◌∙◌,
}
use veri_node_backend.Prelude.Int.{eq_of_parts, ℤ, pos, ◌+ℤ◌, int_laws, pos_part, neg_part}
use veri_node_backend.Dict.{get, get-set}
use veri_node_backend.Bond.Defs.{Error, BondPool, ValidatorStake, Result, ok, err}
use veri_node_backend.Bond.Memory.{
  Store, stake_key, amount_or_zero, stake, sum_of, get_validator_stake,
}
use veri_node_backend.Bond.Cases.{stake_cases}
use veri_node_backend.Bond.Sums.{sum_of-set}
use veri_node_backend.Bond.Backing.{IsBacked}

abbrev Outcome : Type 0
Outcome = Result BondPool

ok_ne_err : (p : BondPool) (x : Error) → ◌≡◌ {A = Outcome} (ok p) (err x) → ⊥
ok_ne_err p x e = cc

lost_share :
    (a g b x v bal : ℤ) → a +ℤ g ≡ b +ℤ v → g ≡ x → v ≡ pos 0 → x ≢ pos 0 → bal ≡ b → bal ≢ a
lost_share a g b x v bal e f k n m l = n (
    eq_of_parts x (pos 0) (
      omega (
        int_laws,
        ap pos_part e,
        ap neg_part e,
        ap pos_part f,
        ap neg_part f,
        ap pos_part k,
        ap neg_part k,
        ap pos_part m,
        ap neg_part m,
        ap pos_part l,
        ap neg_part l,
      )))

neq_keys : (p q : String) → p ≢ q → str_eq p q ≡ false
neq_keys p q n = ground (arith, eq_iff p q)

-- Two stakes under one key: a stake in one pool that reuses the key of another pool's stake takes
-- that stake's place, so a client of the other pool is shown a stake of the first pool, and the
-- other pool, whose balance is untouched, is no longer backed.
pub key_collision :
    (s : Store) (p q v u : String) (amount : ℤ) (r qp : BondPool) (e : ValidatorStake)
    → IsBacked s
    → p ≢ q
    → stake_key p v ≡ stake_key q u
    → get s.pools q ≡ some qp
    → get_validator_stake s q u ≡ some e
    → e.pool_id ≡ q
    → e.amount ≢ pos 0
    → (stake s p v amount).0 ≡ ok r
    → let s' = (stake s p v amount).1 in
      ((e' : ValidatorStake) × (get_validator_stake s' q u ≡ some e') × (e'.pool_id ≡ p))
      × (get s'.pools q ≡ some qp)
      × (qp.balance ≢ sum_of q s'.stakes)
unfolding get_validator_stake
key_collision s p q v u amount r qp e h apart same found held own nonzero done =
    elim (stake_cases s p v amount) [
      | inl (x, t) ↦ absurd (ok_ne_err r x (sym done ∙ ap (λ (y : Outcome × Store). y.0) t))
      | inr (pp, _, (_, t)) ↦ rw t (
          let held' : get s.stakes (stake_key p v) ≡ some e = rw same held in
          let next = amount_or_zero (get s.stakes (stake_key p v)) +ℤ amount in
          let v' : ValidatorStake = record { pool_id = p; validator_id = v; amount = next } in
          (
            (v', rw (get-set, same) (rw eq_refl), refl),
            rw get-set (rw (neq_keys p q apart) found),
            lost_share _ _ _ e.amount _ qp.balance (sum_of-set q s.stakes (stake_key p v) v')
                (rw held' (rw (own, eq_refl q))) (rw (neq_keys p q apart)) nonzero
                (h.balances q qp found),
          ))
    ]
