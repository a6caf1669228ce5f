-- ===== src/Scheduler/Oldest.antt =====
-- `ORDER BY run_at ASC LIMIT 1` of `claimJob`, src/scheduler/job_store.ts.
use veri_node_backend.Prelude.{
  All, All-map, ℕ, String, ◌≡◌, refl, sym, subst, ◌∙◌, ◌⊎◌, inl, inr, Bool, true, false, Option,
  none, some, [], ◌∷◌, ltb, ltb→lt, ◌≤◌, arith, Bool-cases, true-false,
}
use veri_node_backend.Dict.{set}
use veri_node_backend.Scheduler.Store.{
  Job, Jobs, oldest, earlier, is_claimable, claim_job, claim_found, leased,
}

abbrev pub In : String × Job → Jobs → Type 0
In x [] = ⊥
In x (y ∷ js) = (y ≡ x) ⊎ In x js

pub All-In {ℓ} :
    (P : String × Job → Type ℓ) (js : Jobs) (x : String × Job) → All P js → In x js → P x
All-In P [] x h i = elim i [ ]
All-In P (y ∷ js) x (p, h) (inl e) = subst P e p
All-In P (y ∷ js) x (p, h) (inr i) = All-In P js x h i

-- An entry that passes the test, with the least `run_at` of those that do.
pub record IsOldest (p : String → Job → Bool) (js : Jobs) (id : String) (j : Job) : Type 0 where
  pub listed : In (id, j) js
  pub passes : p id j ≡ true
  pub least : All (λ (x : String × Job). p x.0 x.1 ≡ true → j.run_at ≤ x.1.run_at) js

abbrev pub IsAnswer : (String → Job → Bool) → Jobs → Option (String × Job) → Type 0
IsAnswer p js none = All (λ (x : String × Job). p x.0 x.1 ≡ false) js
IsAnswer p js (some (id, j)) = IsOldest p js id j

added :
    (p : String → Job → Bool) (i : String) (j : Job) (js : Jobs) (o : Option (String × Job))
    → p i j ≡ true
    → IsAnswer p js o
    → IsAnswer p ((i, j) ∷ js) (earlier (i, j) o)
added p i j js none t h = record {
  listed = inl refl;
  passes = t;
  least = (λ _. omega arith, All-map _ _ (λ x f e. absurd (true-false (sym e ∙ f))) js h);
}
added p i j js (some (l, k)) t h = elim (Bool-cases (ltb k.run_at j.run_at)) [
  | inl e ↦ rw e (record {
    listed = inr h.listed;
    passes = h.passes;
    least = (λ _. omega (arith, ltb→lt k.run_at j.run_at e), h.least);
  })
  | inr e ↦ rw e (record {
    listed = inl refl;
    passes = t;
    least = (
      λ _. omega arith,
      All-map _ _ (λ x f q. not_less k.run_at j.run_at x.1.run_at e (f q)) js h.least,
    );
  })
]
  where
    not_less : (a b c : ℕ) → ltb a b ≡ false → a ≤ c → b ≤ c
    not_less a b c e h = ground arith

skipped :
    (p : String → Job → Bool) (i : String) (j : Job) (js : Jobs) (o : Option (String × Job))
    → p i j ≡ false
    → IsAnswer p js o
    → IsAnswer p ((i, j) ∷ js) o
skipped p i j js none t h = (t, h)
skipped p i j js (some (l, k)) t h = record {
  listed = inr h.listed;
  passes = h.passes;
  least = (λ e. absurd (true-false (sym e ∙ t)), h.least);
}

pub oldest-IsAnswer : (p : String → Job → Bool) (js : Jobs) → IsAnswer p js (oldest p js)
unfolding oldest
oldest-IsAnswer p [] = tt
oldest-IsAnswer p ((i, j) ∷ js) = elim (Bool-cases (p i j)) [
  | inl e ↦ rw e (added p i j js (oldest p js) e (oldest-IsAnswer p js))
  | inr e ↦ rw e (skipped p i j js (oldest p js) e (oldest-IsAnswer p js))
]

-- What `claimJob` may do: nothing, where no job of the type is due, free and unlocked, or lease one
-- that is, and of which there is none with an earlier `run_at`.
pub data Claims (locked : String → Bool) (job_type worker : String) (duration_ms now : ℕ)
    (js : Jobs) (r : Option (String × Job) × Jobs) : Type 0 where
  claims_nothing :
      All (λ (x : String × Job). is_claimable locked job_type now x.0 x.1 ≡ false) js
      → r ≡ (none, js)
      → Claims locked job_type worker duration_ms now js r
  claims_oldest :
      (id : String) (j : Job)
      → IsOldest (is_claimable locked job_type now) js id j
      → r
        ≡ (some (id, leased worker duration_ms now j), set js id (leased worker duration_ms now j))
      → Claims locked job_type worker duration_ms now js r

-- `claimJob` answers nothing only where no job of the type can be claimed; otherwise it leases, and
-- answers, a claimable job with the least `run_at`, and changes no other row.
pub claim_job-Claims :
    (locked : String → Bool) (job_type worker : String) (duration_ms now : ℕ) (js : Jobs)
    → Claims locked job_type worker duration_ms now js
        (claim_job locked job_type worker duration_ms now js)
unfolding claim_job
claim_job-Claims locked job_type worker duration_ms now js =
    go (oldest (is_claimable locked job_type now) js)
      (oldest-IsAnswer (is_claimable locked job_type now) js)
  where
    go :
        (o : Option (String × Job))
        → IsAnswer (is_claimable locked job_type now) js o
        → Claims locked job_type worker duration_ms now js (claim_found worker duration_ms now o js)
    go none h = claims_nothing h refl
    go (some (id, j)) h = claims_oldest id j h refl
