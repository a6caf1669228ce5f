-- ===== src/Keys/Accepted.antt =====
-- The ceremony of src/keys/rotation-ceremony.ts at the commitments that come out of any history of
-- the broadcaster of src/consensus/commitment-broadcaster.ts.
use veri_node_backend.Prelude.{
  same_some, ℕ, String, ◌≡◌, refl, subst, true, Option, none, some, List, [], ◌∷◌,
}
use veri_node_backend.Prelude.Results.{Result, ok, err}
use veri_node_backend.Dict.{get, set, All-remove}
use veri_node_backend.Keys.Identifiers.{Number}
use veri_node_backend.Keys.Broadcast.{
  Proposal, CommitResult, CommitError, Broadcaster, Promised, commit_rotation, resolved, joined,
  started, start_commit, clean_up, fail_commitment, approve_rotation,
}
use veri_node_backend.Keys.Ceremony.{
  Ceremony, RotationRecord, assert_clock, get_rotation, is_initiated,
}
use veri_node_backend.Keys.Approval.{approved_record, persist_approval}
use veri_node_backend.Keys.Quorum.{
  IsOpenEntry, IsProven, IsQuorate, approve_rotation-IsSafe, quorum_of,
}
use veri_node_backend.Keys.Events.{
  Event, begun, cleans, commit_rotation-IsSafe, commits, fails, kept, new_broadcaster, run,
  start_commit-IsQuorate, step, supplies, supply, votes,
}

-- The rotation and the value of a promise that an event resolves.
abbrev pub told : String → Option CommitResult → Option (String × CommitResult)
told id none = none
told id (some k) = some (id, k)

abbrev pub told_at_once :
    String → Result CommitError (Promised × Broadcaster) → Option (String × CommitResult)
told_at_once id (ok (resolved k, b)) = some (id, k)
told_at_once id (ok (joined, b)) = none
told_at_once id (ok (started, b)) = none
told_at_once id (err e) = none

abbrev pub resolves : Event → Broadcaster → Option (String × CommitResult)
resolves (commits p) b = told_at_once p.rotation_id (commit_rotation p b)
resolves (votes id v) b = told id (approve_rotation id v b).0.resolves
resolves (supplies id ids) b = none
resolves (fails id) b = none
resolves (cleans id) b = none

kept-IsQuorate :
    (m : Result CommitError (Promised × Broadcaster)) (b : Broadcaster)
    → ((w : Promised) (d : Broadcaster) → m ≡ ok (w, d) → IsQuorate d)
    → IsQuorate b
    → IsQuorate (kept m b)
kept-IsQuorate (ok (w, d)) b f h = f w d refl
kept-IsQuorate (err e) b f h = h

begun-IsQuorate :
    (m : Result CommitError Broadcaster) (b : Broadcaster)
    → ((d : Broadcaster) → m ≡ ok d → IsQuorate d)
    → IsQuorate b
    → IsQuorate (begun m b)
begun-IsQuorate (ok d) b f h = f d refl
begun-IsQuorate (err e) b f h = h

supply-IsQuorate :
    (o : Option Proposal) (ids : List String) (b : Broadcaster)
    → IsQuorate b
    → IsQuorate (supply o ids b)
supply-IsQuorate none ids b h = h
supply-IsQuorate (some p) ids b h =
    begun-IsQuorate (start_commit p ids b) b (λ d e. start_commit-IsQuorate p ids b e h) h

step-IsQuorate : (e : Event) (b : Broadcaster) → IsQuorate b → IsQuorate (step e b)
unfolding fail_commitment clean_up
step-IsQuorate (commits p) b h =
    kept-IsQuorate (commit_rotation p b) b (λ w d e. (commit_rotation-IsSafe p b e h).0) h
step-IsQuorate (supplies id ids) b h = supply-IsQuorate (get b.starting id) ids b h
step-IsQuorate (votes id v) b h = (approve_rotation-IsSafe id v b h).0
step-IsQuorate (fails id) b h = record {
  open_entries = All-remove IsOpenEntry b.pending id h.open_entries;
  proven_entries = h.proven_entries;
}
step-IsQuorate (cleans id) b h = record {
  open_entries = h.open_entries;
  proven_entries = h.proven_entries;
}

run-IsQuorate : (es : List Event) (b : Broadcaster) → IsQuorate b → IsQuorate (run es b)
run-IsQuorate [] b h = h
run-IsQuorate (e ∷ es) b h = run-IsQuorate es (step e b) (step-IsQuorate e b h)

same_entry :
    {i j : String} {k l : CommitResult}
    → ◌≡◌ {A = Option (String × CommitResult)} (some (i, k)) (some (j, l))
    → (i ≡ j) × (k ≡ l)
same_entry e = (cc, cc)

told-IsProven :
    (i : String) (o : Option CommitResult) (id : String) (k : CommitResult)
    → told i o ≡ some (id, k)
    → ((l : CommitResult) → o ≡ some l → IsProven i l)
    → IsProven id k
told-IsProven i none id k e f = cc
told-IsProven i (some l) id k e f =
    let (p, q) = same_entry e in
    subst (λ (x : String). IsProven x k) p (subst (λ (x : CommitResult). IsProven i x) q (f l refl))

told_at_once-IsProven :
    (i : String) (m : Result CommitError (Promised × Broadcaster)) (id : String) (k : CommitResult)
    → told_at_once i m ≡ some (id, k)
    → ((l : CommitResult) (d : Broadcaster) → m ≡ ok (resolved l, d) → IsProven i l)
    → IsProven id k
told_at_once-IsProven i (ok (resolved l, d)) id k e f =
    told-IsProven i (some l) id k e (λ m g. subst (IsProven i) (same_some g) (f l d refl))
told_at_once-IsProven i (ok (joined, d)) id k e f = cc
told_at_once-IsProven i (ok (started, d)) id k e f = cc
told_at_once-IsProven i (err x) id k e f = cc

resolves-IsProven :
    (e : Event) (b : Broadcaster) (id : String) (k : CommitResult)
    → IsQuorate b
    → resolves e b ≡ some (id, k)
    → IsProven id k
resolves-IsProven (commits p) b id k h e =
    told_at_once-IsProven p.rotation_id (commit_rotation p b) id k e
      (λ l d f. (commit_rotation-IsSafe p b f h).1 l refl)
resolves-IsProven (votes i v) b id k h e =
    told-IsProven i (approve_rotation i v b).0.resolves id k e (approve_rotation-IsSafe i v b h).1
resolves-IsProven (supplies i ids) b id k h e = cc
resolves-IsProven (fails i) b id k h e = cc
resolves-IsProven (cleans i) b id k h e = cc

-- Whatever has happened to a broadcaster, a commitment with which it resolves a promise makes the
-- ceremony's `persistApproval` approve: at a rotation of that id that is still initiated, and a clock
-- that gives a protocol number, it returns the record as approved with the commitment's approvals,
-- threshold and validators, and stores it.
pub persist_approval-resolves :
    (n : ℕ) (es : List Event) (e : Event) (id : String) (k : CommitResult) (c : Ceremony)
    (r : RotationRecord) (epoch : Number) (at : ℕ)
    → resolves e (run es (new_broadcaster n)) ≡ some (id, k)
    → get_rotation id c ≡ some r
    → is_initiated r.phase ≡ true
    → assert_clock epoch ≡ ok at
    → persist_approval id k epoch c
      ≡ ok (
        approved_record r (quorum_of k) at,
        record c { rotations = set c.rotations id (approved_record r (quorum_of k) at) },
      )
unfolding persist_approval get_rotation
persist_approval-resolves n es e id k c r epoch at f found waits clock =
    let proven =
      resolves-IsProven e (run es (new_broadcaster n)) id k
        (run-IsQuorate es (new_broadcaster n) (record { open_entries = tt; proven_entries = tt }))
        f in
    rw found (rw waits (rw proven (rw clock refl)))
