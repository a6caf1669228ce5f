-- ===== src/Scheduler/Histories.antt =====
-- Histories of the statements of src/scheduler/job_store.ts, and rows that they keep a property of.
use veri_node_backend.Prelude.{
  All, All-keep, ℕ, String, str_eq, ◌≡◌, inl, inr, Bool, true, Option, none, some, List, [], ◌∷◌,
  leb, ◌≤◌, Option-cases, &&-true, not,
}
use veri_node_backend.Prelude.Int.{ℤ}
use veri_node_backend.Dict.{get, All-set, All-get, Distinct, Distinct-set, Distinct-keep}
use veri_node_backend.Scheduler.Store.{
  Job, Jobs, is_live, is_free, is_claimable, new_job, leased, completed_job, failed_job,
  renewed_job, schedule_job, update_job, claim_job, claim_found, complete_job, fail_job,
  renew_lease, purge_completed, is_purged, oldest,
}
use veri_node_backend.Scheduler.Oldest.{In, All-In, IsOldest, IsAnswer, oldest-IsAnswer}

pub data StoreCall : Type 0 where
  schedules : String → String → String → Option ℕ → Option ℤ → StoreCall
  claims : (String → Bool) → String → String → ℕ → StoreCall
  completes : String → StoreCall
  fails : String → String → StoreCall
  renews_lease : String → String → ℕ → StoreCall
  purges : ℕ → StoreCall

abbrev pub apply : StoreCall → ℕ → Jobs → Jobs
apply (schedules id job_type payload at retries) now js =
    schedule_job id job_type payload at retries now js
apply (claims locked job_type worker duration) now js =
    (claim_job locked job_type worker duration now js).1
apply (completes id) now js = complete_job id now js
apply (fails id message) now js = fail_job id message now js
apply (renews_lease id worker duration) now js = (renew_lease id worker duration now js).1
apply (purges older_than) now js = (purge_completed older_than js).1

-- The calls with the times at which the database runs them.
abbrev pub run : List (ℕ × StoreCall) → Jobs → Jobs
run [] js = js
run ((now, c) ∷ cs) js = run cs (apply c now js)

abbrev pub Entry : Type 0
Entry = String × Job

-- A property of rows that every statement from time `t` on keeps, where `IsFresh` holds of the ids
-- that are inserted and `IsHeld` of the id, the time and the duration of each renewal.
pub record IsStable (t : ℕ) (IsFresh : String → Type 0) (IsHeld : String → ℕ → ℕ → Type 0)
    (P : Entry → Type 0) : Type 0 where
  pub on_new :
      (id job_type payload : String) (at : Option ℕ) (retries : Option ℤ) (now : ℕ)
      → IsFresh id
      → P (id, new_job job_type payload at retries now)
  pub on_claim :
      (id worker : String) (duration now : ℕ) (j : Job)
      → t ≤ now
      → is_live j.status ≡ true
      → is_free j.locked_until now ≡ true
      → P (id, j)
      → P (id, leased worker duration now j)
  pub on_complete : (id : String) (now : ℕ) (j : Job) → P (id, j) → P (id, completed_job now j)
  pub on_fail :
      (id message : String) (now : ℕ) (j : Job) → P (id, j) → P (id, failed_job message now j)
  pub on_renew :
      (id worker : String) (duration now : ℕ) (j : Job)
      → t ≤ now
      → IsHeld id now duration
      → P (id, j)
      → P (id, renewed_job worker duration now j)

All-update_job :
    (P : Entry → Type 0) (id : String) (f : Job → Job) (js : Jobs)
    → ((j : Job) → P (id, j) → P (id, f j))
    → All P js
    → All P (update_job id f js)
unfolding update_job
All-update_job P id f js g h = elim (Option-cases (get js id)) [
  | inl e ↦ rw e h
  | inr (j, e) ↦ rw e (All-set P js id (f j) h (g j (All-get P js id j h e)))
]

-- What a claimed row was.
pub claimable_row :
    (locked : String → Bool) (job_type : String) (now : ℕ) (js : Jobs) (id : String) (j : Job)
    → IsOldest (is_claimable locked job_type now) js id j
    → In (id, j) js × (is_live j.status ≡ true) × (is_free j.locked_until now ≡ true)
claimable_row locked job_type now js id j h =
    let (h1, _) = &&-true _ (not (locked id)) h.passes in
    let (h2, _) = &&-true _ (leb j.run_at now) h1 in
    let (h3, free) = &&-true _ (is_free j.locked_until now) h2 in
    let (_, live) = &&-true (str_eq j.job_type job_type) (is_live j.status) h3 in
    (h.listed, live, free)

-- Which calls a history may hold.
abbrev pub IsFreshCall : (String → Type 0) → (String → ℕ → ℕ → Type 0) → ℕ → StoreCall → Type 0
IsFreshCall F D now (schedules id job_type payload at retries) = F id
IsFreshCall F D now (claims locked job_type worker duration) = Unit
IsFreshCall F D now (completes id) = Unit
IsFreshCall F D now (fails id message) = Unit
IsFreshCall F D now (renews_lease id worker duration) = D id now duration
IsFreshCall F D now (purges older_than) = Unit

module _ (t : ℕ) (F : String → Type 0) (D : String → ℕ → ℕ → Type 0) (P : Entry → Type 0)
    (s : IsStable t F D P) where
  claim_found-All :
      (locked : String → Bool) (job_type worker : String) (duration now : ℕ) (js : Jobs)
      (o : Option Entry)
      → IsAnswer (is_claimable locked job_type now) js o
      → t ≤ now
      → All P js
      → All P (claim_found worker duration now o js).1
  claim_found-All locked job_type worker duration now js none a late h = h
  claim_found-All locked job_type worker duration now js (some (id, j)) a late h =
      let (listed, live, free) = claimable_row locked job_type now js id j a in
      All-set P js id (leased worker duration now j) h
        (s.on_claim id worker duration now j late live free (All-In P js (id, j) h listed))

  apply-All :
      (c : StoreCall) (now : ℕ) (js : Jobs)
      → IsFreshCall F D now c
      → t ≤ now
      → All P js
      → All P (apply c now js)
  unfolding schedule_job claim_job complete_job fail_job renew_lease purge_completed
  apply-All (schedules id job_type payload at retries) now js f late h =
      elim (Option-cases (get js id)) [
        | inr (j, e) ↦ rw e h
        | inl e ↦ rw e (
            All-set P js id (new_job job_type payload at retries now) h
              (s.on_new id job_type payload at retries now f))
      ]
  apply-All (claims locked job_type worker duration) now js f late h =
      claim_found-All locked job_type worker duration now js
        (oldest (is_claimable locked job_type now) js)
        (oldest-IsAnswer (is_claimable locked job_type now) js) late h
  apply-All (completes id) now js f late h =
      All-update_job P id (completed_job now) js (s.on_complete id now) h
  apply-All (fails id message) now js f late h =
      All-update_job P id (failed_job message now) js (s.on_fail id message now) h
  apply-All (renews_lease id worker duration) now js f late h =
      All-update_job P id (renewed_job worker duration now) js
        (λ j. s.on_renew id worker duration now j late f) h
  apply-All (purges older_than) now js f late h =
      All-keep P (λ x. not (is_purged older_than x.1)) js h

  pub run-All :
      (cs : List (ℕ × StoreCall)) (js : Jobs)
      → All (λ (c : ℕ × StoreCall). (t ≤ c.0) × IsFreshCall F D c.0 c.1) cs
      → All P js
      → All P (run cs js)
  run-All [] js a h = h
  run-All ((now, c) ∷ cs) js ((late, f), a) h =
      run-All cs (apply c now js) a (apply-All c now js f late h)

update_job-Distinct :
    (id : String) (f : Job → Job) (js : Jobs) → Distinct js → Distinct (update_job id f js)
unfolding update_job
update_job-Distinct id f js h = elim (Option-cases (get js id)) [
  | inl e ↦ rw e h
  | inr (j, e) ↦ rw e (Distinct-set js id (f j) h)
]

claim_found-Distinct :
    (worker : String) (d now : ℕ) (o : Option Entry) (js : Jobs)
    → Distinct js
    → Distinct (claim_found worker d now o js).1
claim_found-Distinct worker d now none js h = h
claim_found-Distinct worker d now (some (id, j)) js h = Distinct-set js id (leased worker d now j) h

apply-Distinct : (c : StoreCall) (now : ℕ) (js : Jobs) → Distinct js → Distinct (apply c now js)
unfolding schedule_job claim_job complete_job fail_job renew_lease purge_completed
apply-Distinct (schedules id job_type payload at retries) now js h =
    elim (Option-cases (get js id)) [
      | inr (j, e) ↦ rw e h
      | inl e ↦ rw e (Distinct-set js id (new_job job_type payload at retries now) h)
    ]
apply-Distinct (claims locked job_type worker duration) now js h =
    claim_found-Distinct worker duration now (oldest (is_claimable locked job_type now) js) js h
apply-Distinct (completes id) now js h = update_job-Distinct id (completed_job now) js h
apply-Distinct (fails id message) now js h = update_job-Distinct id (failed_job message now) js h
apply-Distinct (renews_lease id worker duration) now js h =
    update_job-Distinct id (renewed_job worker duration now) js h
apply-Distinct (purges older_than) now js h =
    Distinct-keep (λ x. not (is_purged older_than x.1)) js h

pub run-Distinct : (cs : List (ℕ × StoreCall)) (js : Jobs) → Distinct js → Distinct (run cs js)
run-Distinct [] js h = h
run-Distinct ((now, c) ∷ cs) js h = run-Distinct cs (apply c now js) (apply-Distinct c now js h)
