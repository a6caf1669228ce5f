-- ===== src/TwoPhase/Cascade.antt =====
-- What the rollback transaction does to the dependent tables, in terms of the tables before it.
use veri_node_backend.Prelude.{
  ℕ, String, ◌≡◌, refl, true, false, not, Option, none, some, arith, keep, eq_refl, ap, eq_iff,
  &&-true, List, [], ◌∷◌, ◌+◌, str_eq, ◌&&◌, inl, inr, Bool-cases,
}
use veri_node_backend.Prelude.Int.{ℤ, pos, negsuc, ◌+ℤ◌, ◌-ℤ◌, ◌≤ℤ◌, +ℤ_parts, -ℤ_parts}
use veri_node_backend.Dict.{get}
use veri_node_backend.TwoPhase.Tables.{
  NodeStatus, RowState, TentativeRow, Reputation, Adjustment, Tables, update_row, has_pending,
}
use veri_node_backend.TwoPhase.Rollback.{
  start_of, window_start, is_speculative_reward, is_speculative_attestation, is_tagged, sum_deltas,
  count_slashes, clamp_score, cascade, execute, claim_row,
}
use veri_node_backend.TwoPhase.Effects.{get-update_row, has_pending-execute, mapped}

-- The compare-and-swap: whatever rolled a node back, a second rollback of it, by any worker with
-- any key, claims nothing and changes nothing.
pub execute_twice :
    (node key key' : String) (target target' : NodeStatus) (reason reason' : String) (now later : ℕ)
    (t : Tables)
    → let u = (execute node key target reason now t).0 in
      execute node key' target' reason' later u ≡ (u, false)
execute_twice node key key' target target' reason reason' now later t =
    unfold execute in (rw (has_pending-execute node key target reason now t, execute) refl)

claimed_window :
    (node reason : String) (now : ℕ) (t : Tables)
    → window_start (claim_row node reason now t) node ≡ window_start t node
unfolding window_start claim_row
claimed_window node reason now t =
    rw (get-update_row t.tentative node, eq_refl node) (same (get t.tentative node))
  where
    same :
        (r : Option TentativeRow)
        → start_of (
            mapped
              (λ row. record row {
                state = RowState.rolled_back;
                error_detail = some reason;
                resolved_at = some now;
              })
              r)
          ≡ start_of r
    same none = refl
    same (some row) = refl

-- The dependent tables after a claimed rollback of `node` tagged `key`.
pub record Cascaded (node key : String) (target : NodeStatus) (now : ℕ) (t u : Tables)
    : Type 0 where
  pub rewards :
      u.reward_tx ≡ keep (λ r. not (is_speculative_reward node (window_start t node) r)) t.reward_tx
  pub attestations :
      u.attestations
      ≡ keep
          (λ a. not (is_speculative_attestation node target (window_start t node) a))
          t.attestations
  pub adjustments : u.adjustments ≡ keep (λ a. not (is_tagged node key a)) t.adjustments
  pub reputations :
      u.reputations
      ≡ update_row t.reputations node (λ r. record {
        score = clamp_score (r.score -ℤ sum_deltas node key t.adjustments);
        slash_version = r.slash_version -ℤ pos (count_slashes node key t.adjustments);
        updated_at = now;
      })
  pub nodes : u.node_status ≡ t.node_status

pub execute-Cascaded :
    (node key : String) (target : NodeStatus) (reason : String) (now : ℕ) (t : Tables)
    → has_pending t node ≡ true
    → Cascaded node key target now t (execute node key target reason now t).0
unfolding execute cascade window_start
execute-Cascaded node key target reason now t h =
    rw (h, execute)
      (record {
        rewards =
            ap (λ s. keep (λ r. not (is_speculative_reward node s r)) t.reward_tx)
              (claimed_window node reason now t);
        attestations =
            ap (λ s. keep (λ a. not (is_speculative_attestation node target s a)) t.attestations)
              (claimed_window node reason now t);
        adjustments = refl;
        reputations = refl;
        nodes = refl;
      })

clamp-sub : (s d x : ℤ) → negsuc 999 ≤ℤ s → s ≤ℤ pos 1000 → x ≡ s +ℤ d → clamp_score (x -ℤ d) ≡ s
unfolding clamp_score
clamp-sub s d x lo hi e = ground (arith, +ℤ_parts s d, -ℤ_parts x d)

-- The sum of the deltas that node and key both name, and how many of these are slashes.
pub data Tagged (node key : String) : List Adjustment → ℤ → ℕ → Type 0 where
  untouched : Tagged node key [] (pos 0) 0
  foreign :
      {as' : List Adjustment} {d : ℤ} {n : ℕ} (a : Adjustment)
      → ¬ ((a.node_id ≡ node) × (a.idempotency_key ≡ key))
      → Tagged node key as' d n
      → Tagged node key (a ∷ as') d n
  slash :
      {as' : List Adjustment} {d : ℤ} {n : ℕ} (a : Adjustment)
      → a.node_id ≡ node
      → a.idempotency_key ≡ key
      → a.is_slash ≡ true
      → Tagged node key as' d n
      → Tagged node key (a ∷ as') (a.delta +ℤ d) (1 + n)
  plain :
      {as' : List Adjustment} {d : ℤ} {n : ℕ} (a : Adjustment)
      → a.node_id ≡ node
      → a.idempotency_key ≡ key
      → a.is_slash ≡ false
      → Tagged node key as' d n
      → Tagged node key (a ∷ as') (a.delta +ℤ d) n

is_tagged-true :
    (node key : String) (a : Adjustment)
    → a.node_id ≡ node
    → a.idempotency_key ≡ key
    → is_tagged node key a ≡ true
is_tagged-true node key a p q = ground (arith, eq_iff a.node_id node, eq_iff a.idempotency_key key)

is_tagged-false :
    (node key : String) (a : Adjustment)
    → ¬ ((a.node_id ≡ node) × (a.idempotency_key ≡ key))
    → is_tagged node key a ≡ false
is_tagged-false node key a h = elim (Bool-cases (is_tagged node key a)) [
  | inr e ↦ e
  | inl e ↦
      let (p, q) = &&-true (str_eq a.node_id node) (str_eq a.idempotency_key key) e in
      absurd (h ((eq_iff a.node_id node).0 p, (eq_iff a.idempotency_key key).0 q))
]

-- The two aggregates of the statement are these.
aggregates :
    (node key : String) (as' : List Adjustment) (d : ℤ) (n : ℕ)
    → Tagged node key as' d n
    → (sum_deltas node key as' ≡ d) × (count_slashes node key as' ≡ n)
unfolding sum_deltas count_slashes
aggregates node key _ _ _ untouched = (refl, refl)
aggregates node key _ _ _ (foreign a h rest) =
    let (p, q) = aggregates node key _ _ _ rest in
    let f = is_tagged-false node key a h in (rw f p, rw f q)
aggregates node key _ _ _ (slash a h k y rest) =
    let (p, q) = aggregates node key _ _ _ rest in
    let f = is_tagged-true node key a h k in
    (rw f (ap (λ z. a.delta +ℤ z) p), rw f (rw y (ap (λ z. 1 + z) q)))
aggregates node key _ _ _ (plain a h k y rest) =
    let (p, q) = aggregates node key _ _ _ rest in
    let f = is_tagged-true node key a h k in (rw f (ap (λ z. a.delta +ℤ z) p), rw f (rw y q))

-- Speculative reputation changes are undone: where the adjustments that name both the node and the
-- key add up to `d`, `n` of them slashes, a score that stands at `s` plus `d`, `s` within -1000 and
-- 1000, is `s` again after the rollback, the slash count loses `n`, and of the adjustments exactly
-- those that name another node or another key are left.
pub reputation_restored :
    (node key : String) (target : NodeStatus) (reason : String) (now : ℕ) (t : Tables)
    (r : Reputation) (s d : ℤ) (n : ℕ)
    → has_pending t node ≡ true
    → get t.reputations node ≡ some r
    → Tagged node key t.adjustments d n
    → r.score ≡ s +ℤ d
    → negsuc 999 ≤ℤ s
    → s ≤ℤ pos 1000
    → let u = (execute node key target reason now t).0 in
      (get u.reputations node
        ≡ some (record { score = s; slash_version = r.slash_version -ℤ pos n; updated_at = now }))
      × (u.adjustments
          ≡ keep (λ a. not (str_eq a.node_id node && str_eq a.idempotency_key key)) t.adjustments)
reputation_restored node key target reason now t r s d n h found tagged score lo hi =
    let c = execute-Cascaded node key target reason now t h in
    let (total, slashes) = aggregates node key t.adjustments d n tagged in
    (
      rw c.reputations (
          rw (get-update_row t.reputations node, eq_refl node)
            (rw (found, mapped)
              (rw (total, slashes) (rw (clamp-sub s d r.score lo hi score) refl)))),
      c.adjustments,
    )
