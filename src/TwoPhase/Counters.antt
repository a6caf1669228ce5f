-- ===== src/TwoPhase/Counters.antt =====
-- The counters of the cleanup worker.
use veri_node_backend.Prelude.{
  ap, ℕ, suc, ◌+◌, ◌≤◌, String, ◌≡◌, refl, Bool, true, false, inl, inr, List, [], ◌∷◌, arith,
  length, Bool-cases, length-take-le,
}
use veri_node_backend.TwoPhase.Tables.{TentativeRow, Tables}
use veri_node_backend.TwoPhase.Rollback.{execute}
use veri_node_backend.TwoPhase.Controller.{Result, ok, err}
use veri_node_backend.TwoPhase.Cleanup.{
  Worker, SweepCounts, SweepState, select_expired, sweep_reason, count_claim, sweep_row, sweep_rows,
  sweep,
}

abbrev Entry : Type 0
Entry = String × TentativeRow

-- The counters of a worker grow with the counts of a sweep, and each row counts once.
abbrev Tallies : ℕ → SweepState → SweepState → Type 0
Tallies n s u =
    (u.counts.processed + u.counts.skipped ≡ s.counts.processed + s.counts.skipped + n)
    × (u.worker.rollbacks_total + s.counts.processed
        ≡ s.worker.rollbacks_total + u.counts.processed)
    × (u.worker.skipped_total + s.counts.skipped ≡ s.worker.skipped_total + u.counts.skipped)
    × (u.worker.sweeps_total ≡ s.worker.sweeps_total)

count_claim-Tallies : (b : Bool) (s : SweepState) → Tallies 1 s (count_claim b s)
count_claim-Tallies true s = (omega arith, omega arith, omega arith, refl)
count_claim-Tallies false s = (omega arith, omega arith, omega arith, refl)

sweep_row-Tallies : (now : ℕ) (x : Entry) (s : SweepState) → Tallies 1 s (sweep_row now x s)
unfolding sweep_row
sweep_row-Tallies now (m, r) s =
    count_claim-Tallies (execute m r.idempotency_key r.target_status sweep_reason now s.tables).1
      (record s {
        tables = (execute m r.idempotency_key r.target_status sweep_reason now s.tables).0;
      })

abbrev Handled : ℕ → SweepState → SweepState → SweepCounts → Type 0
Handled n s u c = (u.counts ≡ c) × Tallies n s u

Handled-step :
    (n : ℕ) (s t u : SweepState)
    → Tallies 1 s t
    → (c : SweepCounts) → Handled n t u c
    → Handled (suc n) s u c
Handled-step n s t u h c (e, k) = (e, omega arith)

abbrev pub IfOk : (SweepCounts → Type 0) → Result SweepCounts → Type 0
IfOk P (ok c) = P c
IfOk P (err e) = Unit

IfOk-map :
    (P Q : SweepCounts → Type 0)
    → ((c : SweepCounts) → P c → Q c)
    → (r : Result SweepCounts) → IfOk P r
    → IfOk Q r
IfOk-map P Q f (ok c) h = f c h
IfOk-map P Q f (err e) h = tt

sweep_rows-Tallies :
    (now : ℕ) (fails : ℕ → Bool) (i : ℕ) (l : List Entry) (s : SweepState)
    → IfOk (Handled (length l) s (sweep_rows now fails i l s).1) (sweep_rows now fails i l s).0
unfolding sweep_rows
sweep_rows-Tallies now fails i [] s = (refl, (omega arith, omega arith, omega arith, refl))
sweep_rows-Tallies now fails i (x ∷ l) s = elim (Bool-cases (fails i)) [
  | inl f ↦ rw f tt
  | inr f ↦
      let s' = sweep_row now x s in
      let u = (sweep_rows now fails (i + 1) l s').1 in
      rw f (
        IfOk-map (Handled (length l) s' u) (Handled (suc (length l)) s u)
          (Handled-step (length l) s s' u (sweep_row-Tallies now x s))
          (sweep_rows now fails (i + 1) l s').0 (sweep_rows-Tallies now fails (i + 1) l s'))
]

abbrev pub Totals : Worker → Worker → SweepCounts → Type 0
Totals w w' c =
    (c.processed + c.skipped ≤ w.batch_size)
    × (w'.rollbacks_total ≡ w.rollbacks_total + c.processed)
    × (w'.skipped_total ≡ w.skipped_total + c.skipped)
    × (w'.sweeps_total ≡ w.sweeps_total + 1)

Handled-Totals :
    (w : Worker) (n : ℕ) (s u : SweepState)
    → n ≤ w.batch_size
    → s.counts ≡ record { processed = 0; skipped = 0 }
    → (s.worker.rollbacks_total ≡ w.rollbacks_total)
      × (s.worker.skipped_total ≡ w.skipped_total)
      × (s.worker.sweeps_total ≡ w.sweeps_total + 1)
    → (c : SweepCounts) → Handled n s u c
    → Totals w u.worker c
Handled-Totals w n s u fits zero_counts start c (e, k) = ground (
  arith,
  ap (λ (x : SweepCounts). x.processed) e,
  ap (λ (x : SweepCounts). x.skipped) e,
  ap (λ (x : SweepCounts). x.processed) zero_counts,
  ap (λ (x : SweepCounts). x.skipped) zero_counts,
)

-- A sweep that returns has handled at most `batch_size` rows, each counted once as processed or
-- skipped, and the worker's totals have grown by exactly these counts and one sweep.
pub sweep_counts :
    (now : ℕ) (select_fails : Bool) (locked : String → Bool) (fails : ℕ → Bool) (w : Worker)
    (t : Tables)
    → let (r, w', u) = sweep now select_fails locked fails w t in IfOk (Totals w w') r
unfolding sweep select_expired
sweep_counts now true locked fails w t = tt
sweep_counts now false locked fails w t =
    let l = select_expired w.batch_size now locked t in
    let s : SweepState = record {
      worker = record w { sweeps_total = w.sweeps_total + 1; last_sweep_at = now };
      counts = record { processed = 0; skipped = 0 };
      tables = t;
    } in
    let u = (sweep_rows now fails 0 l s).1 in
    IfOk-map (Handled (length l) s u) (Totals w u.worker)
      (Handled-Totals w (length l) s u (length-take-le w.batch_size _) refl (refl, refl, refl))
      (sweep_rows now fails 0 l s).0 (sweep_rows-Tallies now fails 0 l s)
