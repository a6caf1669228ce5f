-- ===== src/TwoPhase/Controller/Outside.antt =====
-- What `TwoPhaseController` of src/core/state/two_phase_controller.ts exchanges with the outside: its
-- errors, the contract's replies, the results, and the world that it awaits.
use veri_node_backend.Prelude.{ℕ, String, Bool, Option}
use veri_node_backend.TwoPhase.Tables.{NodeStatus, TentativeRow}

pub data Error : Type 0 where
  db_error node_not_found : Error
  illegal_transition : NodeStatus → NodeStatus → Error
  already_pending : Option TentativeRow → Error

pub data Result {ℓ} (A : Type ℓ) : Type ℓ where
  ok : A → Result A
  err : Error → Result A

-- What `encodeStatusTransitionTx` puts in the transaction.
pub record Envelope : Type 0 where
  pub contract_id : String
  pub node_id : String
  pub target_status : NodeStatus
  pub memo : String
  pub ledger_sequence : ℕ

-- `rpc.sendTransaction` returns success or failure, or throws.
pub data Reply : Type 0 where
  success : String → Reply
  failure threw : Option String → Reply

pub record World : Type 0 where
  pub contract_id : String
  -- the parsed answer of `simulateTransaction`, if it came and is finite
  pub ledger : Option ℕ
  pub nonce : String
  pub digest : String → String
  pub show : ℕ → String
  pub send : Envelope → Reply
  -- the clock at phase 1, at each commit attempt, and at the rollback
  pub now : ℕ
  pub commit_at : ℕ → ℕ
  pub rollback_at : ℕ
  -- the statements that the database refuses; a refused transaction writes nothing
  pub read_fails : Bool
  pub insert_fails : Bool
  pub reread_fails : Bool
  pub commit_fails : ℕ → Bool
  pub mark_fails : Bool
  pub rollback_fails : Bool

pub record TransitionResult : Type 0 where
  pub node_id : String
  pub previous_status : NodeStatus
  pub target_status : NodeStatus
  pub idempotency_key : String
  pub tx_hash : Option String
  pub committed : Bool
  pub rolled_back : Bool

-- The local variables of `transition` that live across phase 2.
pub record Ticket : Type 0 where
  pub node_id : String
  pub current_status : NodeStatus
  pub target_status : NodeStatus
  pub idempotency_key : String
  pub ledger_sequence : ℕ

abbrev pub commit_retry_attempts : ℕ
commit_retry_attempts = 2

-- 30 seconds
abbrev pub tentative_ttl : ℕ
tentative_ttl = 30000
