-- ===== src/Keys/Events.antt =====
-- Histories of the broadcaster of src/consensus/commitment-broadcaster.ts.
use veri_node_backend.Prelude.{
  ℕ, String, ◌≡◌, refl, ap, subst, ◌∙◌, not, Option, none, some, List, [], ◌∷◌, length, keep,
}
use veri_node_backend.Prelude.Results.{same_ok, Result, ok, err, >>=-eq-ok, guard->>-ok}
use veri_node_backend.Dict.{get, All-set, All-get}
use veri_node_backend.Keys.Identifiers.{is_empty}
use veri_node_backend.Keys.Sets.{distinct, IsNodup-distinct}
use veri_node_backend.Keys.Broadcast.{
  Proposal, CommitResult, CommitError, PendingCommitment, Broadcaster, Promised,
  calculate_rotation_approval_threshold, validate_proposal, commit_rotation, join_commit, resolved,
  joined, started, start_commit, clean_up, fail_commitment, approve_rotation,
}
use veri_node_backend.Keys.Quorum.{IsOpenEntry, IsProvenEntry, IsProven, IsQuorate}

-- What happens to a broadcaster: calls, the arrival of snapshots, timers and listeners that fail.
pub data Event : Type 0 where
  commits : Proposal → Event
  supplies : String → List String → Event
  votes : String → String → Event
  fails : String → Event
  cleans : String → Event

abbrev pub kept : {A : Type 0} → Result CommitError (A × Broadcaster) → Broadcaster → Broadcaster
kept (ok a) b = a.1
kept (err e) b = b

abbrev pub begun : Result CommitError Broadcaster → Broadcaster → Broadcaster
begun (ok a) b = a
begun (err e) b = b

abbrev pub supply : Option Proposal → List String → Broadcaster → Broadcaster
supply none ids b = b
supply (some p) ids b = begun (start_commit p ids b) b

abbrev pub step : Event → Broadcaster → Broadcaster
step (commits p) b = kept (commit_rotation p b) b
step (supplies id ids) b = supply (get b.starting id) ids b
step (votes id v) b = (approve_rotation id v b).1
step (fails id) b = fail_commitment id b
step (cleans id) b = clean_up id b

abbrev pub run : List Event → Broadcaster → Broadcaster
run [] b = b
run (e ∷ es) b = run es (step e b)

abbrev pub new_broadcaster : ℕ → Broadcaster
new_broadcaster n = record {
  max_completed_commitments = n;
  pending = [];
  starting = [];
  completed = [];
}

pub start_commit-IsQuorate :
    (p : Proposal) (ids : List String) (b : Broadcaster) {c : Broadcaster}
    → start_commit p ids b ≡ ok c
    → IsQuorate b
    → IsQuorate c
unfolding start_commit
start_commit-IsQuorate p ids b e h =
    let ids' = distinct (keep (λ s. not (is_empty s)) ids) in
    let (t, q, e1) = >>=-eq-ok (calculate_rotation_approval_threshold (length ids')) _ e in
    subst IsQuorate (same_ok e1) (record {
      open_entries = All-set IsOpenEntry b.pending p.rotation_id _ h.open_entries (record {
        own = refl;
        electors = IsNodup-distinct (keep (λ s. not (is_empty s)) ids);
        voters = tt;
        eligible = refl;
        counted = q;
      });
      proven_entries = h.proven_entries;
    })

same_result : {k l : CommitResult} → resolved k ≡ resolved l → k ≡ l
same_result e = cc

joined_resolved : {k : CommitResult} → joined ≡ resolved k → ⊥
joined_resolved e = cc

started_resolved : {k : CommitResult} → started ≡ resolved k → ⊥
started_resolved e = cc

join_commit-IsSafe :
    (o : Option (Proposal × CommitResult)) (c : Option PendingCommitment) (s : Option Proposal)
    (p : Proposal) (b : Broadcaster) (id : String) {w : Promised} {d : Broadcaster}
    → join_commit o c s p b ≡ ok (w, d)
    → IsQuorate b
    → ((q : Proposal) (k : CommitResult) → o ≡ some (q, k) → IsProven id k)
    → IsQuorate d × ((k : CommitResult) → w ≡ resolved k → IsProven id k)
join_commit-IsSafe (some (q, k)) c s p b id e h f =
    let (_, e1) = guard->>-ok _ _ _ e in
    (
      subst IsQuorate (ap (λ (x : Promised × Broadcaster). x.1) (same_ok e1)) h,
      λ l g. f q l (
          ap (λ (m : CommitResult). some (q, m))
            (same_result (ap (λ (x : Promised × Broadcaster). x.0) (same_ok e1) ∙ g))),
    )
join_commit-IsSafe none (some c) s p b id e h f =
    let (_, e1) = guard->>-ok _ _ _ e in
    (
      subst IsQuorate (ap (λ (x : Promised × Broadcaster). x.1) (same_ok e1)) h,
      λ l g. absurd (joined_resolved (ap (λ (x : Promised × Broadcaster). x.0) (same_ok e1) ∙ g)),
    )
join_commit-IsSafe none none (some q) p b id e h f =
    let (_, e1) = guard->>-ok _ _ _ e in
    (
      subst IsQuorate (ap (λ (x : Promised × Broadcaster). x.1) (same_ok e1)) h,
      λ l g. absurd (joined_resolved (ap (λ (x : Promised × Broadcaster). x.0) (same_ok e1) ∙ g)),
    )
join_commit-IsSafe none none none p b id e h f = (
  subst IsQuorate (ap (λ (x : Promised × Broadcaster). x.1) (same_ok e))
      (record { open_entries = h.open_entries; proven_entries = h.proven_entries }),
  λ l g. absurd (started_resolved (ap (λ (x : Promised × Broadcaster). x.0) (same_ok e) ∙ g)),
)

pub commit_rotation-IsSafe :
    (p : Proposal) (b : Broadcaster) {w : Promised} {d : Broadcaster}
    → commit_rotation p b ≡ ok (w, d)
    → IsQuorate b
    → IsQuorate d × ((k : CommitResult) → w ≡ resolved k → IsProven p.rotation_id k)
unfolding commit_rotation
commit_rotation-IsSafe p b e h =
    let (_, _, e1) = >>=-eq-ok (validate_proposal p) _ e in
    join_commit-IsSafe (get b.completed p.rotation_id) (get b.pending p.rotation_id)
      (get b.starting p.rotation_id) p b p.rotation_id e1 h
      (λ q k f. All-get IsProvenEntry b.completed p.rotation_id (q, k) h.proven_entries f)
