-- ===== src/Scheduler/Retries.antt =====
-- The retries of src/scheduler/scheduler.ts over the table of src/scheduler/job_store.ts.
use veri_node_backend.Prelude.{
  All, ℕ, String, ◌≡◌, refl, sym, ap, ◌∙◌, inl, inr, Bool, true, false, Option, none, some, List,
  [], ◌∷◌, lt→ltb, ltb, ◌≤◌, ◌<◌, arith, Bool-cases, true-false, same_some, none-some,
}
use veri_node_backend.Scheduler.Store.{
  Job, Jobs, is_live, is_claimable, is_renewable, renewed_job, claim_job, claim_found,
}
use veri_node_backend.Scheduler.Oldest.{All-In, IsAnswer, oldest-IsAnswer}
use veri_node_backend.Scheduler.Histories.{
  StoreCall, schedules, claims, completes, fails, renews_lease, purges, run, Entry, IsStable,
  IsFreshCall, run-All, claimable_row,
}
use veri_node_backend.Scheduler.Worker.{Outcome, returned, threw, finish_job}

-- A row that can still be claimed has not been retried.
abbrev IsUntried : Entry → Type 0
IsUntried (i, j) = is_live j.status ≡ true → j.retry_count ≡ 0

IsUntried-renewed :
    (w : String) (d now : ℕ) (j : Job)
    → (is_live j.status ≡ true → j.retry_count ≡ 0)
    → is_live (renewed_job w d now j).status ≡ true
    → (renewed_job w d now j).retry_count ≡ 0
IsUntried-renewed w d now j g = elim (Bool-cases (is_renewable w j)) [
  | inl e ↦ rw e g
  | inr e ↦ rw e g
]

IsUntried-IsStable : IsStable 0 (λ i. Unit) (λ i now d. Unit) IsUntried
IsUntried-IsStable = record {
  on_new = λ i job_type payload at retries now f p. refl;
  on_claim = λ i w d now j late live free g p. g live;
  on_complete = λ i now j g p. absurd (true-false (sym p));
  on_fail = λ i m now j g p. absurd (true-false (sym p));
  on_renew = λ i w d now j late held g p. IsUntried-renewed w d now j g p;
}

IsFreshCall-any : (now : ℕ) (c : StoreCall) → IsFreshCall (λ i. Unit) (λ i now d. Unit) now c
IsFreshCall-any now (schedules id job_type payload at retries) = tt
IsFreshCall-any now (claims locked job_type worker duration) = tt
IsFreshCall-any now (completes id) = tt
IsFreshCall-any now (fails id message) = tt
IsFreshCall-any now (renews_lease id worker duration) = tt
IsFreshCall-any now (purges older_than) = tt

any_calls :
    (cs : List (ℕ × StoreCall))
    → All (λ (c : ℕ × StoreCall). (0 ≤ c.0) × IsFreshCall (λ i. Unit) (λ i now d. Unit) c.0 c.1) cs
any_calls [] = tt
any_calls (c ∷ cs) = ((omega arith, IsFreshCall-any c.0 c.1), any_calls cs)

claimed_untried :
    (locked : String → Bool) (job_type worker : String) (d now : ℕ) (js : Jobs) (o : Option Entry)
    {id : String} {k : Job} {ks : Jobs}
    → All IsUntried js
    → IsAnswer (is_claimable locked job_type now) js o
    → claim_found worker d now o js ≡ (some (id, k), ks)
    → k.retry_count ≡ 0
claimed_untried locked job_type worker d now js none h a e =
    absurd (none-some (ap (λ (r : Option Entry × Jobs). r.0) e))
claimed_untried locked job_type worker d now js (some (i, j)) h a e =
    let (listed, live, _) = claimable_row locked job_type now js i j a in
    ap (λ (x : Entry). x.1.retry_count) (sym (same_some (ap (λ (r : Option Entry × Jobs). r.0) e)))
    ∙ All-In IsUntried js (i, j) h listed live

-- A job that a worker has claimed, after any statements on a new table, has not been retried; so
-- when its `max_retries` is positive, the worker does not hand it to the dead letter queue, whatever
-- the handler does and whether or not `failJob` throws.
pub never_dead :
    (d : ℕ) (before : List (ℕ × StoreCall)) (locked : String → Bool) (job_type worker id : String)
    (now : ℕ) (j : Job) (js : Jobs) (has_dlq : Bool) (outcome : Outcome) (fail_error : Bool)
    (at : ℕ) (table : Jobs)
    → claim_job locked job_type worker d now (run before []) ≡ (some (id, j), js)
    → 0 < j.max_retries
    → (j.retry_count ≡ 0) × ((finish_job has_dlq id j outcome fail_error at table).dead ≡ false)
unfolding claim_job finish_job
never_dead d before locked job_type worker id now j js has_dlq outcome fail_error at table e h =
    let untried =
      claimed_untried locked job_type worker d now (run before []) _
        (run-All 0 (λ i. Unit) (λ i now d. Unit) IsUntried IsUntried-IsStable before []
          (any_calls before) tt)
        (oldest-IsAnswer (is_claimable locked job_type now) (run before [])) e in
    (
      untried,
      not_dead outcome fail_error (lt→ltb j.retry_count j.max_retries (omega (arith, untried, h))),
    )
  where
    not_dead :
        (outcome : Outcome) (fail_error : Bool)
        → ltb j.retry_count j.max_retries ≡ true
        → (finish_job has_dlq id j outcome fail_error at table).dead ≡ false
    not_dead returned fail_error more = refl
    not_dead (threw m) true more = refl
    not_dead (threw m) false more = rw more refl
