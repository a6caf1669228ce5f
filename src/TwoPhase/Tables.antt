-- ===== src/TwoPhase/Tables.antt =====
-- The tables of src/database/node_status.sql, and the state machine of
-- src/core/state/two_phase_controller.ts. Times are milliseconds.
use veri_node_backend.Prelude.{
  ℕ, String, Bool, true, false, ◌||◌, Option, none, some, List, [], ◌∷◌,
}
use veri_node_backend.Prelude.Int.{ℤ}
use veri_node_backend.Dict.{Dict, get, set}

pub data NodeStatus : Type 0 where
  provisioned pending active slashed archived : NodeStatus

-- VALID_TRANSITIONS
unfoldable pub valid_transitions : NodeStatus → List NodeStatus
valid_transitions provisioned = pending ∷ []
valid_transitions pending = active ∷ []
valid_transitions active = slashed ∷ archived ∷ []
valid_transitions slashed = archived ∷ []
valid_transitions archived = []

unfoldable pub same_status : NodeStatus → NodeStatus → Bool
same_status provisioned provisioned = true
same_status pending pending = true
same_status active active = true
same_status slashed slashed = true
same_status archived archived = true
same_status _ _ = false

unfoldable pub includes : List NodeStatus → NodeStatus → Bool
includes [] s = false
includes (t ∷ ts) s = same_status t s || includes ts s

-- `VALID_TRANSITIONS[from].includes(to)`
unfoldable pub is_allowed : NodeStatus → NodeStatus → Bool
unfolding valid_transitions same_status includes
is_allowed from to = includes (valid_transitions from) to

-- The column `state` of node_status_tentative.
pub data RowState : Type 0 where
  pending committed rolled_back : RowState

abbrev pub is_pending : RowState → Bool
is_pending RowState.pending = true
is_pending RowState.committed = false
is_pending RowState.rolled_back = false

pub record NodeRow : Type 0 where
  pub status : NodeStatus
  pub updated_at : ℕ

pub record TentativeRow : Type 0 where
  pub target_status : NodeStatus
  pub idempotency_key : String
  pub state : RowState
  pub error_detail : Option String
  pub resolved_at : Option ℕ
  pub created_at : ℕ
  pub expires_at : ℕ

pub record RollbackLogRow : Type 0 where
  pub node_id : String
  pub idempotency_key : String
  pub target_status : NodeStatus
  pub failure_reason : String

pub record RewardTx : Type 0 where
  pub node_id : String
  pub created_at : ℕ

pub record Attestation : Type 0 where
  pub node_id : String
  pub attested_status : NodeStatus
  pub created_at : ℕ

pub record Reputation : Type 0 where
  pub score : ℤ
  pub slash_version : ℤ
  pub updated_at : ℕ

pub record Adjustment : Type 0 where
  pub node_id : String
  pub idempotency_key : String
  pub delta : ℤ
  pub is_slash : Bool

-- A dictionary stands for a table with the primary key node_id.
pub record Tables : Type 0 where
  pub node_status : Dict NodeRow
  pub tentative : Dict TentativeRow
  pub rollback_log : List RollbackLogRow
  pub reward_tx : List RewardTx
  pub attestations : List Attestation
  pub reputations : Dict Reputation
  pub adjustments : List Adjustment

-- `UPDATE ... WHERE node_id = k`: changes the row, if there is one.
abbrev pub update_row {ℓ} : {V : Type ℓ} → Dict V → String → (V → V) → Dict V
update_row d k f = elim (get d k) [ none ↦ d | some v ↦ set d k (f v) ]

abbrev pub pending_in : Option TentativeRow → Bool
pending_in none = false
pending_in (some row) = is_pending row.state

-- `EXISTS (... WHERE node_id = k AND state = 'PENDING')`
unfoldable pub has_pending : Tables → String → Bool
has_pending t node = pending_in (get t.tentative node)
