-- ===== src/Scheduler/Leases.antt =====
-- What a lease and a failure of src/scheduler/job_store.ts mean for the claims that come later.
use veri_node_backend.Prelude.{
  All, All-map, ℕ, String, str_eq, eq_iff, ◌≡◌, refl, sym, ap, subst, ◌∙◌, ◌⊎◌, inl, inr, Bool,
  true, false, Option, none, some, List, [], leb→le, ◌≤◌, ◌+◌, arith, Bool-cases, Option-cases,
  true-false, same_some, none-some,
}
use veri_node_backend.Dict.{get, set, All-set_only, Distinct, Distinct-get}
use veri_node_backend.Scheduler.Store.{
  Job, Jobs, is_live, is_free, is_claimable, is_renewable, leased, lease, renewed_job, claim_job,
  claim_found, fail_job, update_job, failed_job,
}
use veri_node_backend.Scheduler.Oldest.{In, All-In, IsAnswer, oldest-IsAnswer}
use veri_node_backend.Scheduler.Histories.{
  StoreCall, run, Entry, IsStable, IsFreshCall, run-All, run-Distinct, claimable_row,
}

-- The row of `id` is over, or locked until `u` at least.
abbrev IsGuarded : String → ℕ → Entry → Type 0
IsGuarded id u (i, j) =
    i ≡ id → (is_live j.status ≡ false) ⊎ ((l : ℕ) × (j.locked_until ≡ some l) × (u ≤ l))

free_later : (o : Option ℕ) (l now : ℕ) → is_free o now ≡ true → o ≡ some l → l ≤ now
free_later none l now h e = absurd (none-some e)
free_later (some m) l now h e = omega (arith, leb→le m now h, same_some e)

IsGuarded-renewed :
    (u d now : ℕ) (w : String) (j : Job)
    → u ≤ now + lease d
    → (is_live j.status ≡ false) ⊎ ((l : ℕ) × (j.locked_until ≡ some l) × (u ≤ l))
    → (is_live (renewed_job w d now j).status ≡ false)
      ⊎ ((l : ℕ) × ((renewed_job w d now j).locked_until ≡ some l) × (u ≤ l))
IsGuarded-renewed u d now w j h g = elim (Bool-cases (is_renewable w j)) [
  | inr e ↦ rw e g
  | inl e ↦ rw e (inr (now + lease d, refl, h))
]

-- A renewal of `id` that does not end before `u`.
abbrev pub IsHeld : String → ℕ → String → ℕ → ℕ → Type 0
IsHeld id u i now d = i ≡ id → u ≤ now + lease d

-- A claim finds the row free, so the lock `l` that it had, `u` or later, is over.
IsGuarded-leased :
    (u d now : ℕ) (w : String) (j : Job)
    → is_live j.status ≡ true
    → is_free j.locked_until now ≡ true
    → (is_live j.status ≡ false) ⊎ ((l : ℕ) × (j.locked_until ≡ some l) × (u ≤ l))
    → (is_live (leased w d now j).status ≡ false)
      ⊎ ((l : ℕ) × ((leased w d now j).locked_until ≡ some l) × (u ≤ l))
IsGuarded-leased u d now w j live free (inl dead) = absurd (true-false (sym live ∙ dead))
IsGuarded-leased u d now w j live free (inr (l, held, far)) =
    inr (now + lease d, refl, omega (arith, free_later j.locked_until l now free held, far))

IsGuarded-IsStable :
    (id : String) (t u : ℕ) → IsStable t (λ i. str_eq i id ≡ false) (IsHeld id u) (IsGuarded id u)
IsGuarded-IsStable id t u = record {
  on_new =
      λ i job_type payload at retries now f p. absurd (true-false (sym ((eq_iff i id).1 p) ∙ f));
  on_claim = λ i w d now j late live free g p. IsGuarded-leased u d now w j live free (g p);
  on_complete = λ i now j g p. inl refl;
  on_fail = λ i m now j g p. inl refl;
  on_renew = λ i w d now j late held g p. IsGuarded-renewed u d now w j (held p) (g p);
}

-- What a claim answers was a row that is live and free, and stands in the table as it was answered.
claimed_row :
    (locked : String → Bool) (job_type worker : String) (d now : ℕ) (js : Jobs) (o : Option Entry)
    {id : String} {k : Job} {ks : Jobs}
    → IsAnswer (is_claimable locked job_type now) js o
    → claim_found worker d now o js ≡ (some (id, k), ks)
    → (j : Job) × In (id, j) js
      × (is_live j.status ≡ true)
      × (is_free j.locked_until now ≡ true)
      × (ks ≡ set js id (leased worker d now j))
claimed_row locked job_type worker d now js none a e =
    absurd (none-some (ap (λ (r : Option Entry × Jobs). r.0) e))
claimed_row locked job_type worker d now js (some (i, j)) {id} {k} {ks} a e =
    let p : i ≡ id =
      ap (λ (x : Entry). x.0) (same_some (ap (λ (r : Option Entry × Jobs). r.0) e)) in
    let (listed, live, free) = claimable_row locked job_type now js i j a in
    (
      j,
      subst (λ (x : String). In (x, j) js) p listed,
      live,
      free,
      sym (ap (λ (r : Option Entry × Jobs). r.1) e)
          ∙ ap (λ (x : String). set js x (leased worker d now j)) p,
    )

-- The calls run at `t` or later, and none schedules a job under the id, which the database draws anew.
abbrev pub IsSince : ℕ → String → ℕ × StoreCall → Type 0
IsSince t id c = (t ≤ c.0) × IsFreshCall (λ i. str_eq i id ≡ false) (λ i now d. Unit) c.0 c.1

-- Moreover no renewal of the job ends before `u`.
abbrev pub IsWithin : ℕ → ℕ → String → ℕ × StoreCall → Type 0
IsWithin t u id c = (t ≤ c.0) × IsFreshCall (λ i. str_eq i id ≡ false) (IsHeld id u) c.0 c.1

-- Whatever happened before, when a job has been claimed at `t`, any later claim that answers the same
-- job comes at the end of that lease, `t` plus the whole seconds of the lease's duration, or after it,
-- if the statements in between run at `t` or later, insert no new job under its id, and renew the
-- job, if they do, for a time that does not end before that lease. Each claim and renewal has a
-- duration of its own.
pub lease_exclusive :
    (d t : ℕ) (before : List (ℕ × StoreCall)) (locked : String → Bool) (job_type worker id : String)
    (j : Job) (js : Jobs) (between : List (ℕ × StoreCall)) (locked1 : String → Bool)
    (job_type1 worker1 : String) (d1 now : ℕ) (k : Job) (ks : Jobs)
    → claim_job locked job_type worker d t (run before []) ≡ (some (id, j), js)
    → All (IsWithin t (t + lease d) id) between
    → claim_job locked1 job_type1 worker1 d1 now (run between js) ≡ (some (id, k), ks)
    → t + lease d ≤ now
unfolding claim_job
lease_exclusive d t before locked job_type worker id j js between locked1 job_type1 worker1 d1 now k
      ks e since e1 =
    let js0 = run before [] in
    let (i, _, _, _, table) =
      claimed_row locked job_type worker d t js0 _
        (oldest-IsAnswer (is_claimable locked job_type t) js0) e in
    let guarded = subst (All (IsGuarded id (t + lease d))) (sym table) (
      All-set_only (IsGuarded id (t + lease d)) js0 id (leased worker d t i)
        (run-Distinct before [] tt) (λ p. inr (t + lease d, refl, omega arith))
        (λ x n p. absurd (true-false (sym ((eq_iff x.0 id).1 p) ∙ n)))) in
    let later =
      run-All t (λ i. str_eq i id ≡ false) (IsHeld id (t + lease d)) (IsGuarded id (t + lease d))
        (IsGuarded-IsStable id t (t + lease d)) between js since guarded in
    let (m, listed, live, free, _) =
      claimed_row locked1 job_type1 worker1 d1 now (run between js) _
        (oldest-IsAnswer (is_claimable locked1 job_type1 now) (run between js)) e1 in
    elim (All-In (IsGuarded id (t + lease d)) (run between js) (id, m) later listed refl) [
      | inl dead ↦ absurd (true-false (sym live ∙ dead))
      | inr (l, held, far) ↦ omega (arith, free_later m.locked_until l now free held, far)
    ]

abbrev IsOver : String → Entry → Type 0
IsOver id (i, j) = i ≡ id → is_live j.status ≡ false

IsOver-renewed :
    (w : String) (d now : ℕ) (j : Job)
    → is_live j.status ≡ false
    → is_live (renewed_job w d now j).status ≡ false
IsOver-renewed w d now j h = elim (Bool-cases (is_renewable w j)) [
  | inl e ↦ rw e h
  | inr e ↦ rw e h
]

IsOver-IsStable :
    (id : String) → IsStable 0 (λ i. str_eq i id ≡ false) (λ i now d. Unit) (IsOver id)
IsOver-IsStable id = record {
  on_new =
      λ i job_type payload at retries now f p. absurd (true-false (sym ((eq_iff i id).1 p) ∙ f));
  on_claim = λ i w d now j late live free g p. absurd (true-false (sym live ∙ g p));
  on_complete = λ i now j g p. refl;
  on_fail = λ i m now j g p. refl;
  on_renew = λ i w d now j late held g p. IsOver-renewed w d now j (g p);
}

failed-IsOver :
    (id message : String) (at : ℕ) (js : Jobs)
    → Distinct js
    → All (IsOver id) (fail_job id message at js)
unfolding fail_job update_job
failed-IsOver id message at js h = elim (Option-cases (get js id)) [
  | inr (j, e) ↦ rw e (
      All-set_only (IsOver id) js id (failed_job message at j) h (λ p. refl)
        (λ x n p. absurd (true-false (sym ((eq_iff x.0 id).1 p) ∙ n))))
  | inl e ↦ rw e (
      All-map (λ (x : Entry). get js x.0 ≡ some x.1) (IsOver id)
        (λ x f p. absurd (none-some (sym e ∙ ap (get js) (sym p) ∙ f))) js (Distinct-get js h))
]

-- Whatever happened before, no claim answers a job after `failJob` was called for it, although its
-- retries may not be used up, if the statements in between insert no new job under its id.
pub failed_for_good :
    (d : ℕ) (before : List (ℕ × StoreCall)) (id message : String) (at : ℕ)
    (between : List (ℕ × StoreCall)) (locked : String → Bool) (job_type worker : String) (now : ℕ)
    (k : Job) (ks : Jobs)
    → All (IsSince 0 id) between
    → ¬ (
        claim_job locked job_type worker d now
          (run between (fail_job id message at (run before [])))
        ≡ (some (id, k), ks))
unfolding claim_job fail_job
failed_for_good d before id message at between locked job_type worker now k ks since e =
    let js = fail_job id message at (run before []) in
    let later =
      run-All 0 (λ i. str_eq i id ≡ false) (λ i now d. Unit) (IsOver id) (IsOver-IsStable id)
        between js since
        (failed-IsOver id message at (run before []) (run-Distinct before [] tt)) in
    let (m, listed, live, _, _) =
      claimed_row locked job_type worker d now (run between js) _
        (oldest-IsAnswer (is_claimable locked job_type now) (run between js)) e in
    true-false (sym live ∙ All-In (IsOver id) (run between js) (id, m) later listed refl)
