-- ===== src/TwoPhase/Cleanup.antt =====
-- `TentativeCleanupWorker` of src/core/state/tentative_cleanup_worker.ts: one sweep.
use veri_node_backend.Prelude.{
  ℕ, ◌+◌, String, Bool, true, false, not, ◌&&◌, Option, none, some, List, [], ◌∷◌, ltb, leb, take,
  keep, if◌then◌else◌,
}
use text.Mathlib.Text.{starts_with}
use veri_node_backend.TwoPhase.Tables.{is_pending, TentativeRow, Tables}
use veri_node_backend.TwoPhase.Rollback.{execute}
use veri_node_backend.TwoPhase.Controller.{Result, ok, err, db_error}

-- The metrics object, and the configured batch size.
pub record Worker : Type 0 where
  pub batch_size : ℕ
  pub rollbacks_total : ℕ
  pub sweeps_total : ℕ
  pub skipped_total : ℕ
  pub last_sweep_at : ℕ

pub record SweepCounts : Type 0 where
  pub processed : ℕ
  pub skipped : ℕ

-- `error_detail IS NULL OR error_detail NOT LIKE 'COMMIT_FAILED%'`
abbrev pub may_sweep : Option String → Bool
may_sweep none = true
may_sweep (some detail) = not (starts_with detail "COMMIT_FAILED")

-- The WHERE clause of the sweep.
unfoldable pub is_expired : ℕ → String × TentativeRow → Bool
is_expired now (node, row) =
    is_pending row.state && ltb row.expires_at now && may_sweep row.error_detail

-- ORDER BY expires_at ASC
unfoldable pub insert_by_expiry :
    String × TentativeRow → List (String × TentativeRow) → List (String × TentativeRow)
insert_by_expiry (n, r) [] = (n, r) ∷ []
insert_by_expiry (n, r) ((m, s) ∷ l) =
    if leb r.expires_at s.expires_at
    then (n, r) ∷ (m, s) ∷ l
    else (m, s) ∷ insert_by_expiry (n, r) l

unfoldable pub order_by_expiry : List (String × TentativeRow) → List (String × TentativeRow)
unfolding insert_by_expiry
order_by_expiry [] = []
order_by_expiry (x ∷ l) = insert_by_expiry x (order_by_expiry l)

-- The SELECT. `locked` are the rows that other sessions hold: SKIP LOCKED passes over them.
unfoldable pub select_expired : ℕ → ℕ → (String → Bool) → Tables → List (String × TentativeRow)
unfolding is_expired order_by_expiry
select_expired limit now locked t = take limit (
    order_by_expiry
      (keep (λ (x : String × TentativeRow). is_expired now x && not (locked x.0)) t.tentative))

abbrev pub sweep_reason : String
sweep_reason = "Expired without on-chain confirmation (TentativeCleanupWorker sweep)"

-- The body of the loop over the rows: the counters and the tables after one `execute`.
pub record SweepState : Type 0 where
  pub worker : Worker
  pub counts : SweepCounts
  pub tables : Tables

abbrev pub count_claim : Bool → SweepState → SweepState
count_claim true s = record s {
  worker = record (s.worker) { rollbacks_total = s.worker.rollbacks_total + 1 };
  counts = record (s.counts) { processed = s.counts.processed + 1 };
}
count_claim false s = record s {
  worker = record (s.worker) { skipped_total = s.worker.skipped_total + 1 };
  counts = record (s.counts) { skipped = s.counts.skipped + 1 };
}

unfoldable pub sweep_row : ℕ → String × TentativeRow → SweepState → SweepState
sweep_row now (node, row) s =
    let (t, claimed) =
      execute node row.idempotency_key row.target_status sweep_reason now s.tables in
    count_claim claimed (record s { tables = t })

-- `fails i` says that the transaction for the i-th row throws, which ends the sweep.
unfoldable pub sweep_rows :
    ℕ → (ℕ → Bool) → ℕ → List (String × TentativeRow) → SweepState → Result SweepCounts × SweepState
unfolding sweep_row
sweep_rows now fails i [] s = (ok s.counts, s)
sweep_rows now fails i (x ∷ l) s =
    let rest = sweep_rows now fails (i + 1) l (sweep_row now x s) in
    if fails i then (err db_error, s) else rest

unfoldable pub sweep :
    ℕ → Bool → (String → Bool) → (ℕ → Bool) → Worker → Tables → Result SweepCounts × Worker × Tables
unfolding sweep_rows
sweep now select_fails locked fails w t =
    let w' : Worker = record w { sweeps_total = w.sweeps_total + 1; last_sweep_at = now } in
    if select_fails
    then (err db_error, w', t)
    else (let (r, s) =
          sweep_rows now fails 0 (select_expired w.batch_size now locked t)
            (record { worker = w'; counts = record { processed = 0; skipped = 0 }; tables = t }) in
        (r, s.worker, s.tables))
