-- ===== src/TwoPhase/History.antt =====
-- Histories of complete calls: transitions, admin resolutions and sweeps, one after another.
use veri_node_backend.Prelude.{
  ℕ, zero, suc, ◌+◌, String, ◌≡◌, refl, ◌⊎◌, inl, inr, Bool, true, false, List, [], ◌∷◌, Bool-cases,
  Option-cases,
}
use veri_node_backend.Dict.{get}
use veri_node_backend.TwoPhase.Tables.{NodeStatus, is_pending, TentativeRow, Tables}
use veri_node_backend.TwoPhase.Rollback.{execute}
use veri_node_backend.TwoPhase.Effects.{prepare_cases}
use veri_node_backend.TwoPhase.Controller.{
  World, Ticket, Outcome, confirmed, contract_error, begun, make_ticket, phase_two, commit_tx,
  commit_loop, commit_retry_attempts, after_commit, finish, transition, Resolution, commit,
  rollback, resolve_row, resolve_tentative, force_rollback_reason,
}
use veri_node_backend.TwoPhase.Cleanup.{
  Worker, SweepState, sweep_row, sweep_rows, sweep, sweep_reason, count_claim,
}
use veri_node_backend.TwoPhase.Evolution.{
  Targets, IsCoherent, Evolves, Evolves-refl, Evolves-trans, begun-Evolves, execute-Evolves,
  commit_tx-Evolves, force_commit_tx-Evolves, mark_commit_failed-Evolves,
}

-- The loop either runs one commit, or nothing at all.
pub commit_loop_cases :
    (w : World) (node : String) (target : NodeStatus) (left attempt : ℕ) (t : Tables)
    → (commit_loop w node target left attempt t ≡ (false, t))
      ⊎ ((now : ℕ) × (commit_loop w node target left attempt t
            ≡ (true, commit_tx node target now t)))
unfolding commit_loop
commit_loop_cases w node target zero attempt t = inl refl
commit_loop_cases w node target (suc left) attempt t = elim (Bool-cases (w.commit_fails attempt)) [
  | inl e ↦ rw e (commit_loop_cases w node target left (attempt + 1) t)
  | inr e ↦ rw e (inr (w.commit_at attempt, refl))
]

module _ (w : World) (k : Ticket) (t : Tables) (c : IsCoherent t)
    (legal : Targets (get t.node_status k.node_id) k.target_status) where
  marked-Evolves : (hash : String) → Evolves t (after_commit w k hash (false, t)).1
  unfolding after_commit
  marked-Evolves hash = elim (Bool-cases w.mark_fails) [
    | inl e ↦ rw e (Evolves-refl t c)
    | inr e ↦ rw e (mark_commit_failed-Evolves k.node_id t c)
  ]

  finish-Evolves : (o : Outcome) → Evolves t (finish w k o t).1
  unfolding finish
  finish-Evolves (confirmed hash) =
      elim (commit_loop_cases w k.node_id k.target_status commit_retry_attempts 1 t) [
        | inl e ↦ rw e (marked-Evolves hash)
        | inr (now, e) ↦
            rw e (unfold after_commit in commit_tx-Evolves k.node_id k.target_status now t c legal)
      ]
  finish-Evolves (contract_error reason) = elim (Bool-cases w.rollback_fails) [
    | inl e ↦ rw e (Evolves-refl t c)
    | inr e ↦
        rw e (execute-Evolves k.node_id k.idempotency_key k.target_status reason w.rollback_at t c)
  ]

pub transition-Evolves :
    (w : World) (node : String) (target : NodeStatus) (t : Tables)
    → IsCoherent t
    → Evolves t (transition w node target t).1
unfolding transition make_ticket
transition-Evolves w node target t c = elim (prepare_cases w node target t) [
  | inl (e, q) ↦ rw q (Evolves-refl t c)
  | inr (row, e, a, p, q) ↦
      let k = make_ticket w node row.status target in
      let legal : Targets (get t.node_status node) target = rw e a in
      let b = begun-Evolves w k t c legal in
      rw q (
        Evolves-trans t (begun w k t) _ b
          (finish-Evolves w k (begun w k t) b.coherent legal (phase_two w k)))
]

pub resolve_tentative-Evolves :
    (w : World) (node : String) (resolution : Resolution) (t : Tables)
    → IsCoherent t
    → Evolves t (resolve_tentative w node resolution t).1
unfolding resolve_tentative
resolve_tentative-Evolves w node resolution t c = elim (Bool-cases w.read_fails) [
  | inl f ↦ rw f (Evolves-refl t c)
  | inr f ↦ elim (Option-cases (get t.tentative node)) [
    | inl e ↦ rw (f, e) (Evolves-refl t c)
    | inr (row, e) ↦ elim (Bool-cases (is_pending row.state)) [
      | inr p ↦ rw (f, e, resolve_tentative) (rw p (Evolves-refl t c))
      | inl p ↦
          rw (f, e, resolve_tentative)
            (rw p (resolve_row-Evolves resolution row ((rw e at (c.at node)) p)))
    ]
  ]
]
  where
    resolve_row-Evolves :
        (r : Resolution) (row : TentativeRow)
        → Targets (get t.node_status node) row.target_status
        → Evolves t (resolve_row w node r row t).1
    resolve_row-Evolves commit row legal = elim (Bool-cases (w.commit_fails 1)) [
      | inl g ↦ rw g (Evolves-refl t c)
      | inr g ↦ rw g (force_commit_tx-Evolves node row.target_status (w.commit_at 1) t c legal)
    ]
    resolve_row-Evolves rollback row legal = elim (Bool-cases w.rollback_fails) [
      | inl g ↦ rw g (Evolves-refl t c)
      | inr g ↦ rw g (
          execute-Evolves node row.idempotency_key row.target_status force_rollback_reason
            w.rollback_at t c)
    ]

count_claim-tables : (b : Bool) (s : SweepState) → (count_claim b s).tables ≡ s.tables
count_claim-tables true s = refl
count_claim-tables false s = refl

pub sweep_row-tables :
    (now : ℕ) (node : String) (row : TentativeRow) (s : SweepState)
    → (sweep_row now (node, row) s).tables
      ≡ (execute node row.idempotency_key row.target_status sweep_reason now s.tables).0
unfolding sweep_row
sweep_row-tables now node row s = count_claim-tables _ _

sweep_rows-Evolves :
    (now : ℕ) (fails : ℕ → Bool) (i : ℕ) (l : List (String × TentativeRow)) (s : SweepState)
    → IsCoherent s.tables
    → Evolves s.tables (sweep_rows now fails i l s).1.tables
unfolding sweep_rows
sweep_rows-Evolves now fails i [] s c = Evolves-refl s.tables c
sweep_rows-Evolves now fails i ((node, row) ∷ l) s c = elim (Bool-cases (fails i)) [
  | inl f ↦ rw f (Evolves-refl s.tables c)
  | inr f ↦
      let u = (execute node row.idempotency_key row.target_status sweep_reason now s.tables).0 in
      let e =
        execute-Evolves node row.idempotency_key row.target_status sweep_reason now s.tables c in
      let s' = sweep_row now (node, row) s in
      let q : s'.tables ≡ u = sweep_row-tables now node row s in
      rw f (
        Evolves-trans s.tables s'.tables _ (rw q e)
          (sweep_rows-Evolves now fails (i + 1) l s' (rw q e.coherent)))
]

pub sweep-Evolves :
    (now : ℕ) (select_fails : Bool) (locked : String → Bool) (fails : ℕ → Bool) (w : Worker)
    (t : Tables)
    → IsCoherent t
    → Evolves t (sweep now select_fails locked fails w t).2
unfolding sweep
sweep-Evolves now true locked fails w t c = Evolves-refl t c
sweep-Evolves now false locked fails w t c = sweep_rows-Evolves now fails 0 _ _ c

-- A complete call, with what the world answers during it.
pub data Call : Type 0 where
  transitions : World → String → NodeStatus → Call
  resolves : World → String → Resolution → Call
  sweeps : ℕ → Bool → (String → Bool) → (ℕ → Bool) → Worker → Call

unfoldable pub step : Call → Tables → Tables
step (transitions w node target) t = (transition w node target t).1
step (resolves w node resolution) t = (resolve_tentative w node resolution t).1
step (sweeps now select_fails locked fails w) t = (sweep now select_fails locked fails w t).2

unfoldable pub run : List Call → Tables → Tables
unfolding step
run [] t = t
run (c ∷ cs) t = run cs (step c t)

pub step-Evolves : (c : Call) (t : Tables) → IsCoherent t → Evolves t (step c t)
unfolding step
step-Evolves (transitions w node target) t c = transition-Evolves w node target t c
step-Evolves (resolves w node resolution) t c = resolve_tentative-Evolves w node resolution t c
step-Evolves (sweeps now select_fails locked fails w) t c =
    sweep-Evolves now select_fails locked fails w t c

-- Over any history of complete calls, whatever fails on the way, every PENDING row keeps naming
-- a legal next status, no node appears or disappears, and each node's committed status moves only
-- along VALID_TRANSITIONS.
pub run-Evolves : (cs : List Call) (t : Tables) → IsCoherent t → Evolves t (run cs t)
unfolding run
run-Evolves [] t c = Evolves-refl t c
run-Evolves (call ∷ cs) t c =
    let e = step-Evolves call t c in
    Evolves-trans t (step call t) _ e (run-Evolves cs (step call t) e.coherent)
