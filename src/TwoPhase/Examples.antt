-- ===== src/TwoPhase/Examples.antt =====
-- Concrete runs of the two-phase update, and the theorems at them.
use veri_node_backend.Prelude.{
  String, ◌≡◌, refl, true, false, none, some, List, [], ◌∷◌, arith, eq_iff,
}
use veri_node_backend.Prelude.Int.{pos, negsuc, ◌+ℤ◌, ◌-ℤ◌}
use veri_node_backend.Dict.{Dict, get, set}
use veri_node_backend.TwoPhase.Tables.{
  NodeStatus, active, slashed, archived, is_allowed, RowState, NodeRow, TentativeRow, Tables,
  has_pending,
}
use veri_node_backend.TwoPhase.Rollback.{cascade, execute}
use veri_node_backend.TwoPhase.Controller.{
  after_commit, phase_two, insert_tentative, phase_one, make_ticket, World, Reply, success, failure,
  Ticket, transition, resolve_tentative, commit, settled, get_node_status, prepare, finish,
  commit_loop, key_taken,
}
use veri_node_backend.TwoPhase.Cleanup.{sweep_rows, select_expired, Worker, is_expired, sweep}
use veri_node_backend.TwoPhase.Evolution.{IsCoherent, Evolves}
use veri_node_backend.TwoPhase.History.{Call, transitions, resolves, sweeps, run, run-Evolves}
use veri_node_backend.TwoPhase.Outcomes.{Outcomes, transition_outcome}
use veri_node_backend.TwoPhase.Cascade.{untouched, slash, execute_twice, reputation_restored}
use veri_node_backend.TwoPhase.Sweep.{sweep_safe, sweep_complete}
use veri_node_backend.TwoPhase.Race.{foreign_rollback}

-- A world where the database answers and the contract replies as given.
abbrev world : String → Reply → World
world nonce reply = record {
  contract_id = "C";
  ledger = some 7;
  nonce = nonce;
  digest = λ s. s;
  show = λ n. "7";
  send = λ e. reply;
  now = 100;
  commit_at = λ n. 200;
  rollback_at = 200;
  read_fails = false;
  insert_fails = false;
  reread_fails = false;
  commit_fails = λ n. false;
  mark_fails = false;
  rollback_fails = false;
}

abbrev node_row : NodeStatus → NodeRow
node_row s = record { status = s; updated_at = 0 }

abbrev pending_row : NodeStatus → String → TentativeRow
pending_row target key = record {
  target_status = target;
  idempotency_key = key;
  state = RowState.pending;
  error_detail = none;
  resolved_at = none;
  created_at = 100;
  expires_at = 30100;
}

abbrev with_rows : Dict NodeRow → Dict TentativeRow → Tables
with_rows nodes rows = record {
  node_status = nodes;
  tentative = rows;
  rollback_log = [];
  reward_tx = record { node_id = "n"; created_at = 150 } ∷ [];
  attestations = [];
  reputations = ("n", record { score = pos 90; slash_version = pos 3; updated_at = 0 }) ∷ [];
  adjustments =
      record { node_id = "n"; idempotency_key = "k1"; delta = negsuc 9; is_slash = true } ∷ [];
}

abbrev idle : Tables
idle = with_rows (("n", node_row active) ∷ []) []

abbrev waiting : Tables
waiting = with_rows (("n", node_row active) ∷ []) (("n", pending_row slashed "k1") ∷ [])

abbrev worker : Worker
worker = record {
  batch_size = 50;
  rollbacks_total = 0;
  sweeps_total = 0;
  skipped_total = 0;
  last_sweep_at = 0;
}

program : Unit {0}
unfolding transition prepare make_ticket phase_one insert_tentative key_taken phase_two finish
    after_commit commit_loop get_node_status resolve_tentative sweep select_expired sweep_rows
    execute cascade is_allowed get set
program = tt

commits :
    get_node_status "n" 300 (transition (world "a" (success "h")) "n" slashed idle).1
    ≡ some (settled slashed)
unfolding program
commits = refl

idle-IsCoherent : IsCoherent idle
unfolding get
idle-IsCoherent = record { at = λ j. tt }

transition_outcome_example :
    Outcomes
      (world "a" (failure none))
      "n"
      slashed
      idle
      (transition (world "a" (failure none)) "n" slashed idle)
transition_outcome_example = transition_outcome (world "a" (failure none)) "n" slashed idle

abbrev script : List Call
script =
    transitions (world "a" (failure none)) "n" slashed
    ∷ resolves (world "b" (success "h")) "n" commit
    ∷ transitions (world "c" (success "h")) "n" archived
    ∷ sweeps 60000 false (λ n. false) (λ i. false) worker
    ∷ []

run-Evolves_example : Evolves idle (run script idle)
run-Evolves_example = run-Evolves script idle idle-IsCoherent

execute_twice_example :
    execute "n" "k2" archived "again" 400 (execute "n" "k1" slashed "failed" 300 waiting).0
    ≡ ((execute "n" "k1" slashed "failed" 300 waiting).0, false)
execute_twice_example =
    execute_twice "n" "k1" "k2" slashed archived "failed" "again" 300 400 waiting

reputation_restored_example :
    get (execute "n" "k1" slashed "failed" 300 waiting).0.reputations "n"
    ≡ some (record { score = pos 100; slash_version = pos 2; updated_at = 300 })
unfolding has_pending get ◌+ℤ◌ ◌-ℤ◌
reputation_restored_example =
    (reputation_restored "n" "k1" slashed "failed" 300 waiting
      (record { score = pos 90; slash_version = pos 3; updated_at = 0 }) (pos 100) _ _ refl refl
      (slash _ refl refl refl untouched) refl (omega arith) (omega arith)).0

sweep_safe_example :
    get (sweep 30000 false (λ n. false) (λ i. false) worker waiting).2.tentative "n"
    ≡ some (pending_row slashed "k1")
unfolding get is_expired
sweep_safe_example =
    (sweep_safe 30000 false (λ n. false) (λ i. false) worker waiting "n" (pending_row slashed "k1")
      (tt, tt) refl refl).1

sweep_complete_example :
    has_pending (sweep 30101 false (λ n. false) (λ i. false) worker waiting).2 "n" ≡ false
unfolding get is_expired
sweep_complete_example =
    sweep_complete 30101 (λ n. false) worker waiting "n" (pending_row slashed "k1") (omega arith)
      refl refl refl

-- The ticket of a transition from active to slashed.
abbrev slow : Ticket
slow = record {
  node_id = "n";
  current_status = active;
  target_status = slashed;
  idempotency_key = "n:7:a";
  ledger_sequence = 7;
}

-- The slow transition begins, its row is swept, the node is archived, and the contract confirms.
abbrev overtaken : Tables
overtaken =
    (transition (world "b" (success "h2")) "n" archived
      (sweep 30101 false (λ n. false) (λ i. false) worker
        (prepare (world "a" (success "h1")) "n" slashed idle).1).2).1

foreign_rollback_example :
    has_pending (execute "n" "k0" archived "failed" 300 waiting).0 "n" ≡ false
unfolding has_pending get
foreign_rollback_example =
    (foreign_rollback "n" "k0" archived "failed" 300 waiting (pending_row slashed "k1") refl refl
      (ground (arith, eq_iff "k1" "k0"))).1
