-- ===== src/TwoPhase/Outcomes.antt =====
-- What `transition` returns, and what it leaves in the tables.
use veri_node_backend.Prelude.{
  ℕ, String, eq_refl, ◌≡◌, refl, ◌⊎◌, inl, inr, true, false, Option, none, some, [], ◌∷◌, ◌++◌,
  arith, Bool-cases,
}
use veri_node_backend.Dict.{get}
use veri_node_backend.TwoPhase.Tables.{
  pending_in, NodeStatus, is_allowed, NodeRow, TentativeRow, Tables, has_pending,
}
use veri_node_backend.TwoPhase.Rollback.{execute, cascade}
use veri_node_backend.TwoPhase.Effects.{
  has_pending-begun, commit_tx-node_status, has_pending-execute, has_pending-commit_tx,
  settled_status_lem, mapped, get-update_row, execute-node_status, prepare_cases,
}
use veri_node_backend.TwoPhase.Controller.{
  commit_failed_detail, Result, ok, err, World, success, TransitionResult, Ticket, Outcome,
  confirmed, contract_error, begun, make_ticket, encode_tx, phase_two, commit_tx, commit_loop,
  commit_retry_attempts, mark_commit_failed, result_of, after_commit, finish, transition, settled,
  get_node_status,
}

-- A call that returns, seen from the tables `t` before and `u` after it.
pub record Committed (w : World) (k : Ticket) (t u : Tables) (r : TransitionResult) : Type 0 where
  pub hash : String
  pub confirmed : w.send (encode_tx w k) ≡ success hash
  pub result : r ≡ result_of k (some hash) true false
  pub status : (now : ℕ) → get_node_status k.node_id now u ≡ some (settled k.target_status)

pub record RolledBack (w : World) (k : Ticket) (t u : Tables) (r : TransitionResult) : Type 0 where
  pub reason : String
  pub failed : (hash : String) → w.send (encode_tx w k) ≡ success hash → ⊥
  pub cause : phase_two w k ≡ contract_error reason
  pub result : r ≡ result_of k none false true
  pub nodes : u.node_status ≡ t.node_status
  pub status : (now : ℕ) → get_node_status k.node_id now u ≡ some (settled k.current_status)
  pub log :
      u.rollback_log
      ≡ t.rollback_log
        ++ record {
          node_id = k.node_id;
          idempotency_key = k.idempotency_key;
          target_status = k.target_status;
          failure_reason = reason;
        }
          ∷ []

pub record Stuck (w : World) (k : Ticket) (t u : Tables) (r : TransitionResult) : Type 0 where
  pub hash : String
  pub confirmed : w.send (encode_tx w k) ≡ success hash
  pub result : r ≡ result_of k (some hash) false false
  pub exhausted : (w.commit_fails 1 ≡ true) × (w.commit_fails 2 ≡ true)
  pub nodes : u.node_status ≡ t.node_status
  pub locked : has_pending u k.node_id ≡ true

-- A call that throws: before phase 1 it writes nothing; otherwise the rollback transaction failed,
-- and the tentative row stays PENDING.
pub record Unresolved (w : World) (k : Ticket) (t u : Tables) : Type 0 where
  pub rejected : (hash : String) → w.send (encode_tx w k) ≡ success hash → ⊥
  pub refused : w.rollback_fails ≡ true
  pub tables : u ≡ begun w k t
  pub locked : has_pending u k.node_id ≡ true

abbrev pub Ends : World → Ticket → Tables → Result TransitionResult × Tables → Type 0
Ends w k t (ok r, u) = Committed w k t u r ⊎ (RolledBack w k t u r ⊎ Stuck w k t u r)
Ends w k t (err e, u) = Unresolved w k t u

abbrev pub MayBegin : World → String → NodeStatus → Tables → (Ticket → Type 0) → Type 0
MayBegin w node target t P =
    (row : NodeRow) × (get t.node_status node ≡ some row)
    × (is_allowed row.status target ≡ true)
    × (has_pending t node ≡ false)
    × P (make_ticket w node row.status target)

abbrev pub Outcomes :
    World → String → NodeStatus → Tables → Result TransitionResult × Tables → Type 0
Outcomes w node target t (ok r, u) = MayBegin w node target t (λ k. Ends w k t (ok r, u))
Outcomes w node target t (err e, u) = (u ≡ t) ⊎ MayBegin w node target t (λ k. Unresolved w k t u)

pub rollback_log-execute :
    (node key : String) (target : NodeStatus) (reason : String) (now : ℕ) (t : Tables)
    → has_pending t node ≡ true
    → (execute node key target reason now t).0.rollback_log
      ≡ t.rollback_log
        ++ record {
          node_id = node;
          idempotency_key = key;
          target_status = target;
          failure_reason = reason;
        }
          ∷ []
unfolding execute cascade
rollback_log-execute node key target reason now t h = rw (h, execute)

pub has_pending-mark :
    (node : String) (t : Tables)
    → has_pending t node ≡ true
    → has_pending (mark_commit_failed node t) node ≡ true
unfolding mark_commit_failed
has_pending-mark node t h =
    rw (h, mark_commit_failed)
      (unfold has_pending in
        (rw (get-update_row t.tentative node, eq_refl node) (still (get t.tentative node) h)))
  where
    still :
        (r : Option TentativeRow)
        → pending_in r ≡ true
        → pending_in (mapped (λ row. record row { error_detail = some commit_failed_detail }) r)
          ≡ true
    still none h = h
    still (some row) h = h

mark_commit_failed-node_status :
    (node : String) (t : Tables) → (mark_commit_failed node t).node_status ≡ t.node_status
unfolding mark_commit_failed
mark_commit_failed-node_status node t = ground arith

phase_two_confirmed :
    (w : World) (k : Ticket) (hash : String)
    → phase_two w k ≡ confirmed hash
    → w.send (encode_tx w k) ≡ success hash
unfolding phase_two
phase_two_confirmed w k hash e = ground arith

phase_two_success :
    (w : World) (k : Ticket) (hash reason : String)
    → w.send (encode_tx w k) ≡ success hash
    → phase_two w k ≡ contract_error reason
    → ⊥
unfolding phase_two
phase_two_success w k hash reason sent e = ground arith

module _ (w : World) (t : Tables) (row : NodeRow) (k : Ticket)
    (found : get t.node_status k.node_id ≡ some row) (same : k.current_status ≡ row.status) where
  begun-Committed :
      (hash : String) (at : ℕ)
      → w.send (encode_tx w k) ≡ success hash
      → Committed w k t
          (commit_tx k.node_id k.target_status at (begun w k t))
          (result_of k (some hash) true false)
  begun-Committed hash at sent = record {
    hash = hash;
    confirmed = sent;
    result = refl;
    status = λ now.
        settled_status_lem k.node_id now _ _
          (has_pending-commit_tx k.node_id k.target_status at (begun w k t))
          (commit_tx-node_status k.node_id k.target_status at (begun w k t) row found);
  }

  begun-RolledBack :
      (reason : String)
      → phase_two w k ≡ contract_error reason
      → RolledBack w k t
          (execute k.node_id k.idempotency_key k.target_status reason w.rollback_at (begun w k t)).0
          (result_of k none false true)
  begun-RolledBack reason e = record {
    reason = reason;
    failed = λ hash sent. phase_two_success w k hash reason sent e;
    cause = e;
    result = refl;
    nodes = execute-node_status k.node_id k.idempotency_key k.target_status reason _ (begun w k t);
    status = λ now. rw same (
        settled_status_lem k.node_id now _ row
          (has_pending-execute k.node_id k.idempotency_key k.target_status reason _ (begun w k t))
          (rw execute-node_status found));
    log =
        rollback_log-execute k.node_id k.idempotency_key k.target_status reason _ (begun w k t)
          (has_pending-begun w k t);
  }

  begun-Stuck :
      (hash : String) (u : Tables)
      → w.send (encode_tx w k) ≡ success hash
      → (w.commit_fails 1 ≡ true) × (w.commit_fails 2 ≡ true)
      → u.node_status ≡ t.node_status
      → has_pending u k.node_id ≡ true
      → Stuck w k t u (result_of k (some hash) false false)
  begun-Stuck hash u sent gone nodes locked = record {
    hash = hash;
    confirmed = sent;
    result = refl;
    exhausted = gone;
    nodes = nodes;
    locked = locked;
  }

  after_commit-Ends :
      (hash : String)
      → w.send (encode_tx w k) ≡ success hash
      → Ends w k t (
          after_commit w k hash
            (commit_loop w k.node_id k.target_status commit_retry_attempts 1 (begun w k t)))
  unfolding after_commit commit_loop
  after_commit-Ends hash sent = elim (Bool-cases (w.commit_fails 1)) [
    | inr e ↦ rw e (inl (begun-Committed hash (w.commit_at 1) sent))
    | inl e ↦ elim (Bool-cases (w.commit_fails 2)) [
      | inr f ↦ rw (e, f) (inl (begun-Committed hash (w.commit_at 2) sent))
      | inl f ↦ elim (Bool-cases w.mark_fails) [
        | inl g ↦
            simp (e, f, g)
              (inr (inr (begun-Stuck hash _ sent (e, f) refl (has_pending-begun w k t))))
        | inr g ↦
            simp (e, f, g)
              (inr (
                inr (
                  begun-Stuck hash _ sent (e, f) (mark_commit_failed-node_status k.node_id _)
                    (has_pending-mark k.node_id (begun w k t) (has_pending-begun w k t)))))
      ]
    ]
  ]

  finish-Ends : (o : Outcome) → phase_two w k ≡ o → Ends w k t (finish w k o (begun w k t))
  unfolding finish
  finish-Ends (confirmed hash) e = after_commit-Ends hash (phase_two_confirmed w k hash e)
  finish-Ends (contract_error reason) e = elim (Bool-cases w.rollback_fails) [
    | inl f ↦ simp f (record {
      rejected = λ hash sent. phase_two_success w k hash reason sent e;
      refused = f;
      tables = refl;
      locked = has_pending-begun w k t;
    })
    | inr f ↦ simp f (inr (inl (begun-RolledBack reason e)))
  ]

Ends→Outcomes :
    (w : World) (node : String) (target : NodeStatus) (t : Tables)
    (p : Result TransitionResult × Tables)
    → MayBegin w node target t (λ k. Ends w k t p)
    → Outcomes w node target t p
Ends→Outcomes w node target t (ok r, u) h = h
Ends→Outcomes w node target t (err e, u) h = inr h

-- Every call of `transition` ends in one of these ways. It throws and writes nothing. Or the node
-- was there, the edge legal and no row PENDING, and then: the contract confirmed and readers see
-- the target as committed; the contract call failed, node_status is as before, readers see the
-- previous status, and the rollback log has one more entry, with the reason of the failure; the contract confirmed but both
-- commit attempts failed, node_status is as before and the row stays PENDING; or the contract
-- call failed and so did the rollback, which throws and leaves phase 1's row PENDING.
pub transition_outcome :
    (w : World) (node : String) (target : NodeStatus) (t : Tables)
    → Outcomes w node target t (transition w node target t)
unfolding transition make_ticket
transition_outcome w node target t = elim (prepare_cases w node target t) [
  | inl (e, q) ↦ rw q (inl refl)
  | inr (row, e, a, p, q) ↦ rw q (
      Ends→Outcomes w node target t _
        (row, e, a, p, finish-Ends w t row (make_ticket w node row.status target) e refl _ refl))
]
