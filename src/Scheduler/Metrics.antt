-- ===== src/Scheduler/Metrics.antt =====
-- `JobSchedulerMetrics` of src/scheduler/metrics.ts, without the text that it renders.
use veri_node_backend.Prelude.{
  ◌≡◌, ℕ, suc, String, str_eq, Bool, false, Option, none, some, List, [], ◌∷◌, ◌++◌, length,
  length-append, ltb, if◌then◌else◌, ◌≤◌, inl, inr, Bool-cases, arith,
}
use veri_node_backend.Dict.{Dict, set}

pub record JobExecutionRecord : Type 0 where
  pub job_type : String
  pub duration_ms : ℕ
  pub success : Bool
  pub retry_count : ℕ

pub record SchedulerMetrics : Type 0 where
  pub execution_records : List JobExecutionRecord
  pub lease_timeout_total : ℕ
  pub jobs_completed_total : ℕ
  pub jobs_failed_total : ℕ
  pub lease_renewal_failures : ℕ
  pub lease_expired_total : ℕ
  pub queue_depth : ℕ
  pub queue_depth_by_type : Dict ℕ

abbrev pub shift : List JobExecutionRecord → List JobExecutionRecord
shift [] = []
shift (r ∷ rs) = rs

-- `push`, and `shift` when there are more than a thousand.
unfoldable pub push_record : JobExecutionRecord → List JobExecutionRecord → List JobExecutionRecord
push_record r rs = let all = rs ++ r ∷ [] in if ltb 1000 (length all) then shift all else all

unfoldable pub record_execution : JobExecutionRecord → SchedulerMetrics → SchedulerMetrics
unfolding push_record
record_execution r m =
    let kept = record m { execution_records = push_record r m.execution_records } in
    if r.success
    then record kept { jobs_completed_total = suc m.jobs_completed_total }
    else record kept { jobs_failed_total = suc m.jobs_failed_total }

unfoldable pub record_lease_timeout : SchedulerMetrics → SchedulerMetrics
record_lease_timeout m = record m { lease_timeout_total = suc m.lease_timeout_total }

unfoldable pub record_lease_expired : SchedulerMetrics → SchedulerMetrics
record_lease_expired m = record m { lease_expired_total = suc m.lease_expired_total }

unfoldable pub record_lease_renewal_failure : SchedulerMetrics → SchedulerMetrics
record_lease_renewal_failure m = record m { lease_renewal_failures = suc m.lease_renewal_failures }

-- No type, or an empty one, sets the total alone.
unfoldable pub set_queue_depth : ℕ → Option String → SchedulerMetrics → SchedulerMetrics
set_queue_depth depth none m = record m { queue_depth = depth }
set_queue_depth depth (some t) m =
    if str_eq t ""
    then record m { queue_depth = depth }
    else record m { queue_depth = depth; queue_depth_by_type = set m.queue_depth_by_type t depth }

unfoldable pub reset : SchedulerMetrics
reset = record {
  execution_records = [];
  lease_timeout_total = 0;
  jobs_completed_total = 0;
  jobs_failed_total = 0;
  lease_renewal_failures = 0;
  lease_expired_total = 0;
  queue_depth = 0;
  queue_depth_by_type = [];
}

shifted-le : (rs : List JobExecutionRecord) → length rs ≤ 1001 → length (shift rs) ≤ 1000
shifted-le [] h = omega arith
shifted-le (r ∷ rs) h = omega (arith, h)

push_record-le :
    (r : JobExecutionRecord) (rs : List JobExecutionRecord)
    → length rs ≤ 1000
    → length (push_record r rs) ≤ 1000
unfolding push_record
push_record-le r rs h = elim (Bool-cases (ltb 1000 (length (rs ++ r ∷ [])))) [
  | inl e ↦ rw e (shifted-le (rs ++ r ∷ []) (omega (arith, h, length-append rs (r ∷ []))))
  | inr e ↦ rw e (not_more (length (rs ++ r ∷ [])) e)
]
  where
    not_more : (n : ℕ) → ltb 1000 n ≡ false → n ≤ 1000
    not_more n e = ground arith

-- At most a thousand records are kept.
record_execution-le :
    (r : JobExecutionRecord) (m : SchedulerMetrics)
    → length m.execution_records ≤ 1000
    → length (record_execution r m).execution_records ≤ 1000
unfolding record_execution
record_execution-le r m h = elim (Bool-cases r.success) [
  | inl e ↦ simp (e, record_execution) (push_record-le r m.execution_records h)
  | inr e ↦ simp (e, record_execution) (push_record-le r m.execution_records h)
]
