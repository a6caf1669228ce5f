-- ===== src/TwoPhase/Rollback.antt =====
-- `RollbackHandler` of src/core/state/rollback_handler.ts: the statements of its transaction.
use veri_node_backend.Prelude.{
  ℕ, ◌+◌, String, str_eq, Bool, true, false, not, ◌&&◌, Option, none, some, List, [], ◌∷◌, ◌++◌,
  leb, keep, if◌then◌else◌,
}
use veri_node_backend.Prelude.Int.{ℤ, pos, negsuc, ◌+ℤ◌, ◌-ℤ◌, min_ℤ, max_ℤ}
use veri_node_backend.Dict.{get}
use veri_node_backend.TwoPhase.Tables.{
  TentativeRow, NodeStatus, same_status, RowState, RewardTx, Attestation, Adjustment, Tables,
  update_row, has_pending,
}

-- Step 1, `WHERE node_id = $2 AND state = 'PENDING'`, at a row that the guard let through.
unfoldable pub claim_row : String → String → ℕ → Tables → Tables
claim_row node reason now t = record t {
  tentative = update_row t.tentative node (λ row. record row {
    state = RowState.rolled_back;
    error_detail = some reason;
    resolved_at = some now;
  });
}

-- Step 2.
unfoldable pub append_log : String → String → NodeStatus → String → Tables → Tables
append_log node key target reason t = record t {
  rollback_log =
      t.rollback_log
      ++ record {
        node_id = node;
        idempotency_key = key;
        target_status = target;
        failure_reason = reason;
      }
        ∷ [];
}

abbrev pub start_of : Option TentativeRow → Option ℕ
start_of none = none
start_of (some row) = some row.created_at

-- `SELECT created_at FROM node_status_tentative WHERE node_id = $1`; NULL where there is no row.
unfoldable pub window_start : Tables → String → Option ℕ
window_start t node = start_of (get t.tentative node)

-- `at >= NULL` is not true.
abbrev pub since : Option ℕ → ℕ → Bool
since none at = false
since (some start) at = leb start at

abbrev pub is_speculative_reward : String → Option ℕ → RewardTx → Bool
is_speculative_reward node start r = str_eq r.node_id node && since start r.created_at

abbrev pub is_speculative_attestation : String → NodeStatus → Option ℕ → Attestation → Bool
is_speculative_attestation node target start a =
    str_eq a.node_id node && same_status a.attested_status target && since start a.created_at

abbrev pub is_tagged : String → String → Adjustment → Bool
is_tagged node key a = str_eq a.node_id node && str_eq a.idempotency_key key

-- Step 3.
unfoldable pub delete_rewards : String → Tables → Tables
unfolding window_start
delete_rewards node t = record t {
  reward_tx = keep (λ r. not (is_speculative_reward node (window_start t node) r)) t.reward_tx;
}

-- Step 4.
unfoldable pub delete_attestations : String → NodeStatus → Tables → Tables
unfolding window_start
delete_attestations node target t = record t {
  attestations =
      keep (λ a. not (is_speculative_attestation node target (window_start t node) a))
        t.attestations;
}

-- `COALESCE((SELECT SUM(delta) ... WHERE node_id AND idempotency_key), 0)`
unfoldable pub sum_deltas : String → String → List Adjustment → ℤ
sum_deltas node key [] = pos 0
sum_deltas node key (a ∷ as') =
    if is_tagged node key a then a.delta +ℤ sum_deltas node key as' else sum_deltas node key as'

-- `COALESCE((SELECT COUNT(*) ... AND is_slash = TRUE), 0)`
unfoldable pub count_slashes : String → String → List Adjustment → ℕ
count_slashes node key [] = 0
count_slashes node key (a ∷ as') =
    if is_tagged node key a && a.is_slash
    then 1 + count_slashes node key as'
    else count_slashes node key as'

-- `GREATEST(-1000, LEAST(1000, x))`
unfoldable pub clamp_score : ℤ → ℤ
clamp_score x = max_ℤ (negsuc 999) (min_ℤ (pos 1000) x)

-- Step 5.
unfoldable pub revert_reputation : String → String → ℕ → Tables → Tables
revert_reputation node key now t = record t {
  reputations = update_row t.reputations node (λ r. record {
    score = clamp_score (r.score -ℤ sum_deltas node key t.adjustments);
    slash_version = r.slash_version -ℤ pos (count_slashes node key t.adjustments);
    updated_at = now;
  });
}

unfoldable pub delete_adjustments : String → String → Tables → Tables
delete_adjustments node key t = record t {
  adjustments = keep (λ a. not (is_tagged node key a)) t.adjustments;
}

-- The transaction after a successful claim.
unfoldable pub cascade : String → String → NodeStatus → String → ℕ → Tables → Tables
unfolding claim_row append_log delete_rewards delete_attestations revert_reputation
    delete_adjustments
cascade node key target reason now t =
    let t1 = claim_row node reason now t in
    let t2 = append_log node key target reason t1 in
    let t3 = delete_rewards node t2 in
    let t4 = delete_attestations node target t3 in
    let t5 = revert_reputation node key now t4 in delete_adjustments node key t5

-- `execute`: the tables after the transaction, and `claimed`.
unfoldable pub execute : String → String → NodeStatus → String → ℕ → Tables → Tables × Bool
unfolding has_pending
execute node key target reason now t =
    if has_pending t node then (cascade node key target reason now t, true) else (t, false)
