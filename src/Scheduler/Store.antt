-- ===== src/Scheduler/Store.antt =====
-- `PostgresJobStore` of src/scheduler/job_store.ts: the table distributed_jobs, each statement a
-- function of it and of NOW(). Times are milliseconds. Rows that concurrent transactions have locked
-- are a parameter of the claim, which skips them.
use veri_node_backend.Prelude.{
  ℕ, String, str_eq, Bool, true, false, not, ◌&&◌, Option, none, some, [], ◌∷◌, length, keep, leb,
  ltb, if◌then◌else◌, ◌+◌, ◌*◌, ◌/◌, suc, min,
}
use veri_node_backend.Dict.{Dict, get, set}
use veri_node_backend.Prelude.Int.{ℤ, pos, negsuc}

pub data JobStatus : Type 0 where
  pending running completed failed : JobStatus

pub record Job : Type 0 where
  pub job_type : String
  pub payload : String
  pub status : JobStatus
  pub run_at : ℕ
  pub locked_until : Option ℕ
  pub locked_by : Option String
  pub retry_count : ℕ
  pub max_retries : ℕ
  pub error_message : Option String
  pub created_at : ℕ
  pub updated_at : ℕ

-- The table by its primary key, `id`.
abbrev pub Jobs : Type 0
Jobs = Dict Job

-- `clampInt(value, 0, max)` at a whole number.
abbrev pub clamp_int : ℤ → ℕ → ℕ
clamp_int (pos n) m = min n m
clamp_int (negsuc n) m = 0

abbrev pub or_default {ℓ} : {A : Type ℓ} → Option A → A → A
or_default none d = d
or_default (some a) d = a

abbrev pub new_job : String → String → Option ℕ → Option ℤ → ℕ → Job
new_job job_type payload at retries now = record {
  job_type = job_type;
  payload = payload;
  status = pending;
  run_at = or_default at now;
  locked_until = none;
  locked_by = none;
  retry_count = 0;
  max_retries = clamp_int (or_default retries (pos 3)) 10;
  error_message = none;
  created_at = now;
  updated_at = now;
}

-- INSERT with the id that the database draws; its primary key refuses one that is there.
abbrev pub insert_new : Option Job → String → Job → Jobs → Jobs
insert_new none id j js = set js id j
insert_new (some k) id j js = js

unfoldable pub schedule_job : String → String → String → Option ℕ → Option ℤ → ℕ → Jobs → Jobs
schedule_job id job_type payload at retries now js =
    insert_new (get js id) id (new_job job_type payload at retries now) js

-- `UPDATE … SET f WHERE id = …`
abbrev pub put_updated : Option Job → String → (Job → Job) → Jobs → Jobs
put_updated none id f js = js
put_updated (some j) id f js = set js id (f j)

unfoldable pub update_job : String → (Job → Job) → Jobs → Jobs
update_job id f js = put_updated (get js id) id f js

-- `status IN ('pending', 'running')`
abbrev pub is_live : JobStatus → Bool
is_live pending = true
is_live running = true
is_live completed = false
is_live failed = false

-- `locked_until IS NULL OR locked_until <= NOW()`
abbrev pub is_free : Option ℕ → ℕ → Bool
is_free none now = true
is_free (some t) now = leb t now

-- The condition of the claim's subselect, with SKIP LOCKED.
abbrev pub is_claimable : (String → Bool) → String → ℕ → String → Job → Bool
is_claimable locked job_type now id j =
    str_eq j.job_type job_type
    && is_live j.status
    && is_free j.locked_until now
    && leb j.run_at now
    && not (locked id)

-- `ORDER BY run_at ASC LIMIT 1`; among equals the first.
abbrev pub earlier : String × Job → Option (String × Job) → Option (String × Job)
earlier x none = some x
earlier (i, j) (some (l, k)) = if ltb k.run_at j.run_at then some (l, k) else some (i, j)

unfoldable pub oldest : (String → Job → Bool) → Jobs → Option (String × Job)
oldest p [] = none
oldest p ((i, j) ∷ js) = let rest = oldest p js in if p i j then earlier (i, j) rest else rest

-- `make_interval(secs => Math.floor(ms / 1000))`
abbrev pub lease : ℕ → ℕ
lease duration_ms = duration_ms / 1000 * 1000

abbrev pub leased : String → ℕ → ℕ → Job → Job
leased worker duration_ms now j = record j {
  status = running;
  locked_until = some (now + lease duration_ms);
  locked_by = some worker;
  updated_at = now;
}

abbrev pub claim_found :
    String → ℕ → ℕ → Option (String × Job) → Jobs → Option (String × Job) × Jobs
claim_found worker duration_ms now none js = (none, js)
claim_found worker duration_ms now (some (id, j)) js =
    (some (id, leased worker duration_ms now j), set js id (leased worker duration_ms now j))

unfoldable pub claim_job :
    (String → Bool) → String → String → ℕ → ℕ → Jobs → Option (String × Job) × Jobs
unfolding oldest
claim_job locked job_type worker duration_ms now js =
    claim_found worker duration_ms now (oldest (is_claimable locked job_type now) js) js

abbrev pub completed_job : ℕ → Job → Job
completed_job now j = record j {
  status = completed;
  locked_until = none;
  locked_by = none;
  updated_at = now;
}

unfoldable pub complete_job : String → ℕ → Jobs → Jobs
unfolding update_job
complete_job id now js = update_job id (completed_job now) js

abbrev pub failed_job : String → ℕ → Job → Job
failed_job message now j = record j {
  status = failed;
  error_message = some message;
  locked_until = none;
  locked_by = none;
  retry_count = suc j.retry_count;
  updated_at = now;
}

unfoldable pub fail_job : String → String → ℕ → Jobs → Jobs
unfolding update_job
fail_job id message now js = update_job id (failed_job message now) js

abbrev pub is_running : JobStatus → Bool
is_running running = true
is_running _ = false

abbrev pub is_held_by : Option String → String → Bool
is_held_by none worker = false
is_held_by (some w) worker = str_eq w worker

abbrev pub is_renewable : String → Job → Bool
is_renewable worker j = is_held_by j.locked_by worker && is_running j.status

abbrev pub renewed_job : String → ℕ → ℕ → Job → Job
renewed_job worker duration_ms now j =
    if is_renewable worker j
    then record j { locked_until = some (now + lease duration_ms); updated_at = now }
    else j

abbrev pub renews : Option Job → String → Bool
renews none worker = false
renews (some j) worker = is_renewable worker j

-- Whether a row was updated, and the table.
unfoldable pub renew_lease : String → String → ℕ → ℕ → Jobs → Bool × Jobs
unfolding update_job
renew_lease id worker duration_ms now js =
    (renews (get js id) worker, update_job id (renewed_job worker duration_ms now) js)

unfoldable pub get_job : String → Jobs → Option Job
get_job id js = get js id

abbrev pub is_of_type : Option String → String → Bool
is_of_type none job_type = true
is_of_type (some t) job_type = str_eq job_type t

unfoldable pub get_queue_depth : Option String → ℕ → Jobs → ℕ
get_queue_depth job_type now js = length (
    keep
      (λ x. is_live x.1.status && is_free x.1.locked_until now && is_of_type job_type x.1.job_type)
      js)

abbrev pub is_purged : ℕ → Job → Bool
is_purged older_than j = not (is_live j.status) && ltb j.created_at older_than

-- The number of rows deleted, and the table.
unfoldable pub purge_completed : ℕ → Jobs → ℕ × Jobs
purge_completed older_than js = (
  length (keep (λ x. is_purged older_than x.1) js),
  keep (λ x. not (is_purged older_than x.1)) js,
)
