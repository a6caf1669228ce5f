-- ===== src/Scheduler/Worker.antt =====
-- `JobWorker` of src/scheduler/scheduler.ts: polling, and the execution of a claimed job up to the
-- statement that ends it. The renewal timer calls `renew_lease` of Scheduler.Store.
use Prim.Native.String.{◌++◌}
use veri_node_backend.Dict.{Dict, set}
use veri_node_backend.Prelude.{[], ◌∷◌, ℕ, String, Bool, true, false, ltb, if◌then◌else◌, ◌-◌, suc}
use veri_node_backend.Scheduler.Store.{Job, Jobs, complete_job, fail_job}

pub record Worker : Type 0 where
  pub running : Bool
  pub timer : Bool
  pub active_jobs : ℕ

-- Whether `poll` starts `tryClaimAndExecute`, and the worker.
unfoldable pub poll : ℕ → Worker → Bool × Worker
poll max_concurrency w =
    if w.running then (ltb w.active_jobs max_concurrency, record w { timer = true }) else (false, w)

unfoldable pub start : ℕ → Worker → Bool × Worker
unfolding poll
start max_concurrency w =
    if w.running then (false, w) else poll max_concurrency (record w { running = true })

-- Up to the wait for the active jobs.
unfoldable pub stop : Worker → Worker
stop w = record w { running = false; timer = false }

-- `tryClaimAndExecute` between the claim's answer and the end of `executeJob`.
unfoldable pub job_begins : Worker → Worker
job_begins w = record w { active_jobs = suc w.active_jobs }

unfoldable pub job_ends : Worker → Worker
job_ends w = record w { active_jobs = w.active_jobs - 1 }

-- What the handler did; an error of `completeJob` counts as one of the handler.
pub data Outcome : Type 0 where
  returned : Outcome
  threw : String → Outcome

-- The table after the job, whether the job was handed to the dead letter queue, and whether the
-- error of `failJob` leaves `executeJob`.
pub record Finished : Type 0 where
  pub jobs : Jobs
  pub dead : Bool
  pub escaped : Bool

-- `fail_error` says that `failJob` throws; its statement then changes nothing.
unfoldable pub finish_job : Bool → String → Job → Outcome → Bool → ℕ → Jobs → Finished
finish_job has_dlq id j returned fail_error now js = record {
  jobs = complete_job id now js;
  dead = false;
  escaped = false;
}
finish_job has_dlq id j (threw message) true now js = record {
  jobs = js;
  dead = false;
  escaped = true;
}
finish_job has_dlq id j (threw message) false now js =
    if ltb j.retry_count j.max_retries
    then record { jobs = fail_job id message now js; dead = false; escaped = false }
    else record { jobs = fail_job id message now js; dead = has_dlq; escaped = false }

-- The scheduler's map of workers, with each worker's concurrency.
abbrev pub Workers : Type 0
Workers = Dict (ℕ × Worker)

-- `${jobType}:${workerId}`; a worker registered under the same key takes the other's place.
unfoldable pub register_worker : String → String → ℕ → Workers → Workers
register_worker job_type worker_id max_concurrency ws =
    set ws (job_type ++ (":" ++ worker_id))
      (max_concurrency, record { running = false; timer = false; active_jobs = 0 })

unfoldable pub start_all : Workers → Workers
unfolding start
start_all [] = []
start_all ((k, (n, w)) ∷ ws) = (k, (n, (start n w).1)) ∷ start_all ws

-- Up to the waits for the active jobs.
unfoldable pub stop_all : Workers → Workers
unfolding stop
stop_all [] = []
stop_all ((k, (n, w)) ∷ ws) = (k, (n, stop w)) ∷ stop_all ws
