-- ===== src/TwoPhase/Controller.antt =====
-- `TwoPhaseController` of src/core/state/two_phase_controller.ts. What the controller awaits (the
-- database's failures, the RPC endpoint, randomness, hashing and the clock) is a `World`.
pub mod Outside
pub use Outside.*
use veri_node_backend.Prelude.{
  ℕ, zero, suc, ◌+◌, String, str_eq, Bool, true, false, not, ◌&&◌, ◌||◌, Option, none, some, [],
  ◌∷◌, ltb, if◌then◌else◌,
}
use Prim.Native.String.{◌++◌}
use veri_node_backend.Dict.{Dict, get, set}
use veri_node_backend.TwoPhase.Tables.{
  NodeStatus, is_allowed, RowState, is_pending, TentativeRow, Tables, update_row, has_pending,
}
use veri_node_backend.TwoPhase.Rollback.{execute}

unfoldable pub build_idempotency_key :
    (String → String) → (ℕ → String) → String → ℕ → String → String
build_idempotency_key digest show node ledger nonce =
    digest (node ++ (":" ++ (show ledger ++ (":" ++ nonce))))

unfoldable pub fetch_ledger_sequence : World → ℕ
fetch_ledger_sequence w = elim w.ledger [ none ↦ 0 | some seq ↦ seq ]

-- `idempotency_key ... UNIQUE`: another node's row has the key.
unfoldable pub key_taken : String → String → Dict TentativeRow → Bool
key_taken node key [] = false
key_taken node key ((j, row) ∷ d) =
    (not (str_eq j node) && str_eq row.idempotency_key key) || key_taken node key d

-- The row that phase 1 writes, whether it inserts or replaces: every column is set.
abbrev pub fresh_row : World → Ticket → TentativeRow
fresh_row w k = record {
  target_status = k.target_status;
  idempotency_key = k.idempotency_key;
  state = RowState.pending;
  error_detail = none;
  resolved_at = none;
  created_at = w.now;
  expires_at = w.now + tentative_ttl;
}

abbrev pub begun : World → Ticket → Tables → Tables
begun w k t = record t { tentative = set t.tentative k.node_id (fresh_row w k) }

-- The INSERT of phase 1. `ok none` is a row count of 0: a PENDING row stands in the way.
unfoldable pub insert_tentative : World → Ticket → Tables → Result (Option Tables)
insert_tentative w k t =
    if has_pending t k.node_id
    then ok none
    else if key_taken k.node_id k.idempotency_key t.tentative
    then err db_error
    else ok (some (begun w k t))

-- Phase 1, once the guards have passed.
unfoldable pub phase_one : World → Ticket → Tables → Result Ticket × Tables
unfolding insert_tentative
phase_one w k t = if w.insert_fails then (err db_error, t) else elim (insert_tentative w k t) [
  | err e ↦ (err e, t)
  | ok none ↦
      if w.reread_fails
      then (err db_error, t)
      else (err (already_pending (get t.tentative k.node_id)), t)
  | ok (some t') ↦ (ok k, t')
]

unfoldable pub make_ticket : World → String → NodeStatus → NodeStatus → Ticket
unfolding build_idempotency_key fetch_ledger_sequence
make_ticket w node current target =
    let seq = fetch_ledger_sequence w in
    record {
      node_id = node;
      current_status = current;
      target_status = target;
      idempotency_key = build_idempotency_key w.digest w.show node seq w.nonce;
      ledger_sequence = seq;
    }

-- The guards of `transition`, and phase 1.
unfoldable pub prepare : World → String → NodeStatus → Tables → Result Ticket × Tables
unfolding phase_one make_ticket
prepare w node target t =
    if w.read_fails then (err db_error, t) else elim (get t.node_status node) [
      | none ↦ (err node_not_found, t)
      | some row ↦
          if is_allowed row.status target
          then phase_one w (make_ticket w node row.status target) t
          else (err (illegal_transition row.status target), t)
    ]

-- Phase 2: the hash, or `contractError`.
pub data Outcome : Type 0 where
  confirmed : String → Outcome
  contract_error : String → Outcome

abbrev message_or : Option String → String → String
message_or none d = d
message_or (some m) d = m

unfoldable pub encode_tx : World → Ticket → Envelope
encode_tx w k = record {
  contract_id = w.contract_id;
  node_id = k.node_id;
  target_status = k.target_status;
  memo = k.idempotency_key;
  ledger_sequence = k.ledger_sequence;
}

unfoldable pub phase_two : World → Ticket → Outcome
unfolding encode_tx
phase_two w k = elim (w.send (encode_tx w k)) [
  | success hash ↦ confirmed hash
  | failure m ↦ contract_error (message_or m "Contract rejected the transaction")
  | threw m ↦ contract_error (message_or m "RPC threw unexpectedly")
]

-- The commit transaction. Neither statement looks at the state or the key of the tentative row.
unfoldable pub commit_tx : String → NodeStatus → ℕ → Tables → Tables
commit_tx node target now t = record t {
  node_status = update_row t.node_status node (λ row. record { status = target; updated_at = now });
  tentative =
      update_row t.tentative node
        (λ row. record row { state = RowState.committed; resolved_at = some now });
}

-- The retry loop: `left` attempts remain, the next is number `attempt`.
unfoldable pub commit_loop : World → String → NodeStatus → ℕ → ℕ → Tables → Bool × Tables
unfolding commit_tx
commit_loop w node target zero attempt t = (false, t)
commit_loop w node target (suc left) attempt t =
    let rest = commit_loop w node target left (attempt + 1) t in
    if w.commit_fails attempt then rest else (true, commit_tx node target (w.commit_at attempt) t)

abbrev pub commit_failed_detail : String
commit_failed_detail = "COMMIT_FAILED_ONCHAIN_CONFIRMED: requires admin resolveTentative(commit)"

-- `UPDATE ... SET error_detail WHERE node_id AND state = 'PENDING'`
unfoldable pub mark_commit_failed : String → Tables → Tables
mark_commit_failed node t =
    if has_pending t node
    then record t {
      tentative =
          update_row t.tentative node
            (λ row. record row { error_detail = some commit_failed_detail });
    }
    else t

abbrev pub result_of : Ticket → Option String → Bool → Bool → TransitionResult
result_of k hash committed rolled_back = record {
  node_id = k.node_id;
  previous_status = k.current_status;
  target_status = k.target_status;
  idempotency_key = k.idempotency_key;
  tx_hash = hash;
  committed = committed;
  rolled_back = rolled_back;
}

-- What follows a commit loop.
unfoldable pub after_commit :
    World → Ticket → String → Bool × Tables → Result TransitionResult × Tables
unfolding mark_commit_failed
after_commit w k hash (true, t) = (ok (result_of k (some hash) true false), t)
after_commit w k hash (false, t) = (
  ok (result_of k (some hash) false false),
  if w.mark_fails then t else mark_commit_failed k.node_id t,
)

-- The commit path or the rollback path.
unfoldable pub finish : World → Ticket → Outcome → Tables → Result TransitionResult × Tables
unfolding after_commit
finish w k (confirmed hash) t =
    after_commit w k hash (commit_loop w k.node_id k.target_status commit_retry_attempts 1 t)
finish w k (contract_error reason) t = if w.rollback_fails then (err db_error, t) else (
  ok (result_of k none false true),
  (execute k.node_id k.idempotency_key k.target_status reason w.rollback_at t).0,
)

abbrev and_finish : World → Result Ticket × Tables → Result TransitionResult × Tables
and_finish w (err e, t) = (err e, t)
and_finish w (ok k, t) = finish w k (phase_two w k) t

unfoldable pub transition : World → String → NodeStatus → Tables → Result TransitionResult × Tables
transition w node target t = and_finish w (prepare w node target t)

-- `getNodeStatus`: a record is tentative or committed.
pub data StatusRecord : Type 0 where
  settled : NodeStatus → StatusRecord
  tentative : NodeStatus → String → ℕ → StatusRecord

abbrev settled_status : Tables → String → Option StatusRecord
settled_status t node = elim (get t.node_status node) [
  | none ↦ none
  | some row ↦ some (settled row.status)
]

unfoldable pub get_node_status : String → ℕ → Tables → Option StatusRecord
get_node_status node now t = elim (get t.tentative node) [
  | none ↦ settled_status t node
  | some row ↦
      if is_pending row.state && ltb now row.expires_at
      then some (tentative row.target_status row.idempotency_key row.expires_at)
      else settled_status t node
]

pub data Resolution : Type 0 where
  commit rollback : Resolution

pub data ResolveOutcome : Type 0 where
  committed rolled_back no_pending_row : ResolveOutcome

-- The transaction of an admin's force-commit.
unfoldable pub force_commit_tx : String → NodeStatus → ℕ → Tables → Tables
force_commit_tx node target now t = record t {
  node_status = update_row t.node_status node (λ row. record { status = target; updated_at = now });
  tentative = update_row t.tentative node (λ row. record row {
    state = RowState.committed;
    resolved_at = some now;
    error_detail = some "Admin force-commit";
  });
}

abbrev pub force_rollback_reason : String
force_rollback_reason = "Admin force-rollback via /internal/state/resolve-tentative"

abbrev pub resolve_row :
    World → String → Resolution → TentativeRow → Tables → Result ResolveOutcome × Tables
resolve_row w node commit row t =
    if w.commit_fails 1
    then (err db_error, t)
    else (ok ResolveOutcome.committed, force_commit_tx node row.target_status (w.commit_at 1) t)
resolve_row w node rollback row t = if w.rollback_fails then (err db_error, t) else (
  ok ResolveOutcome.rolled_back,
  (execute node row.idempotency_key row.target_status force_rollback_reason w.rollback_at t).0,
)

unfoldable pub resolve_tentative :
    World → String → Resolution → Tables → Result ResolveOutcome × Tables
resolve_tentative w node resolution t =
    if w.read_fails then (err db_error, t) else elim (get t.tentative node) [
      | none ↦ (ok no_pending_row, t)
      | some row ↦
          if is_pending row.state
          then resolve_row w node resolution row t
          else (ok no_pending_row, t)
    ]
