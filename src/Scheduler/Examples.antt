-- ===== src/Scheduler/Examples.antt =====
-- The job scheduler at concrete histories.
use veri_node_backend.Prelude.{
  ℕ, String, Bool, false, true, ◌≡◌, refl, none, some, List, [], ◌∷◌, ◌≤◌, ◌+◌, arith,
}
use veri_node_backend.Prelude.Int.{pos}
use veri_node_backend.Dict.{get, set}
use veri_node_backend.Scheduler.Store.{
  Job, Jobs, new_job, leased, renewed_job, lease, schedule_job, update_job, oldest, claim_job,
  complete_job, fail_job, renew_lease, purge_completed, get_job, get_queue_depth,
}
use veri_node_backend.Scheduler.Worker.{threw, finish_job, poll, start}
use veri_node_backend.Scheduler.Oldest.{Claims, claim_job-Claims}
use veri_node_backend.Scheduler.Histories.{StoreCall, schedules, claims, fails, renews_lease, run}
use veri_node_backend.Scheduler.Leases.{lease_exclusive, failed_for_good}
use veri_node_backend.Scheduler.Retries.{never_dead}

program : Unit {0}
unfolding get set schedule_job update_job oldest claim_job complete_job fail_job renew_lease
    purge_completed get_job get_queue_depth finish_job poll start
program = tt

abbrev none_locked : String → Bool
none_locked id = false

-- Two jobs, the second to run earlier.
abbrev scheduled : List (ℕ × StoreCall)
scheduled =
    (1000, schedules "a" "report" "{}" (some 5000) none)
    ∷ (1000, schedules "b" "report" "{}" (some 4000) (some (pos 12)))
    ∷ []

abbrev job_b : Job
job_b = leased "w" 30500 6000 (new_job "report" "{}" (some 4000) (some (pos 12)) 1000)

abbrev claimed : Jobs
claimed = (claim_job none_locked "report" "w" 30500 6000 (run scheduled [])).1

b_first :
    claim_job none_locked "report" "w" 30500 6000 (run scheduled []) ≡ (some ("b", job_b), claimed)
unfolding program
b_first = refl

claim_job-Claims_example :
    Claims none_locked "report" "w" 30500 6000
      (run scheduled [])
      (claim_job none_locked "report" "w" 30500 6000 (run scheduled []))
claim_job-Claims_example = claim_job-Claims none_locked "report" "w" 30500 6000 (run scheduled [])

abbrev meanwhile : List (ℕ × StoreCall)
meanwhile =
    (7000, claims none_locked "report" "x" 20000)
    ∷ (20000, renews_lease "b" "w" 25000)
    ∷ (21000, fails "a" "boom")
    ∷ []

abbrev job_b_again : Job
job_b_again = leased "x" 40000 50000 (renewed_job "w" 25000 20000 job_b)

abbrev reclaimed : Jobs
reclaimed = (claim_job none_locked "report" "x" 40000 50000 (run meanwhile claimed)).1

b_again :
    claim_job none_locked "report" "x" 40000 50000 (run meanwhile claimed)
    ≡ (some ("b", job_b_again), reclaimed)
unfolding program
b_again = refl

lease_exclusive_example : 6000 + lease 30500 ≤ 50000
lease_exclusive_example =
    lease_exclusive 30500 6000 scheduled none_locked "report" "w" "b" job_b claimed meanwhile
      none_locked "report" "x" 40000 50000 job_b_again reclaimed b_first
      ((omega arith, tt), ((omega arith, λ _. omega arith), ((omega arith, tt), tt))) b_again

failed_for_good_example : ¬ (
    claim_job none_locked "report" "x" 30500 90000
      (run meanwhile (fail_job "b" "boom" 7000 (run scheduled [])))
    ≡ (some ("b", job_b_again), reclaimed))
failed_for_good_example =
    failed_for_good 30500 scheduled "b" "boom" 7000 meanwhile none_locked "report" "x" 90000
      job_b_again reclaimed ((omega arith, tt), ((omega arith, tt), ((omega arith, tt), tt)))

never_dead_example :
    ◌≡◌ {A = ℕ} 0 0 × ((finish_job true "b" job_b (threw "boom") false 7000 claimed).dead ≡ false)
never_dead_example =
    never_dead 30500 scheduled none_locked "report" "w" "b" 6000 job_b claimed true (threw "boom")
      false 7000 claimed b_first (omega arith)
