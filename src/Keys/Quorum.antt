-- ===== src/Keys/Quorum.antt =====
-- What the broadcaster's promises resolve with is a quorum that the ceremony accepts: the two parts
-- together, src/consensus/commitment-broadcaster.ts and src/keys/rotation-ceremony.ts.
use veri_node_backend.Prelude.{
  same_some, none-some, All, ℕ, String, eq_refl, ◌≡◌, refl, sym, subst, ◌∙◌, Bool, true, false, not,
  none, some, [], ◌∷◌, length, arith, if◌then◌else◌, leb, ◌==◌, inl, inr, Bool-cases, Option-cases,
}
use veri_node_backend.Prelude.Results.{ok}
use veri_node_backend.Dict.{Dict, get, set, All-set, All-remove, All-get}
use veri_node_backend.Keys.Sets.{
  has, add, sort, all_in, IsNodup, IsNodup-add, IsNodup-sort, distinct_of_IsNodup, length-sort,
  all_in-add, all_in-sort,
}
use veri_node_backend.Keys.Broadcast.{
  count_vote, Proposal, CommitResult, PendingCommitment, Broadcaster, Approval,
  calculate_rotation_approval_threshold, result_of, drop_oldest, remember_completed,
  complete_commitment, approve_pending, approve_rotation, unknown_answer, answer, ApprovalStatus,
  ineligible, duplicate,
}
use veri_node_backend.Keys.Approval.{Quorum, prove_quorum}

-- A commitment that collects approvals, with the key that it stands under.
pub record IsOpen (id : String) (c : PendingCommitment) : Type 0 where
  pub own : c.proposal.rotation_id ≡ id
  pub electors : IsNodup c.active_validator_ids
  pub voters : IsNodup c.approvals
  pub eligible : all_in c.active_validator_ids c.approvals ≡ true
  pub counted :
      calculate_rotation_approval_threshold (length c.active_validator_ids)
      ≡ ok c.approval_threshold

abbrev pub quorum_of : CommitResult → Quorum
quorum_of k = record {
  threshold = k.approval_threshold;
  approvals = k.approvals;
  validators = k.active_validator_ids;
}

abbrev pub IsProven : String → CommitResult → Type 0
IsProven id k = prove_quorum id k ≡ ok (quorum_of k)

same_count : (n : ℕ) → (n == n) ≡ true
same_count n = ground arith

result_of-IsProven :
    (id : String) (c : PendingCommitment)
    → IsOpen id c
    → leb c.approval_threshold (length c.approvals) ≡ true
    → IsProven id (result_of c)
unfolding prove_quorum
result_of-IsProven id c h enough = rw (distinct_of_IsNodup c.active_validator_ids h.electors) (
    rw (distinct_of_IsNodup (sort c.approvals) (IsNodup-sort c.approvals h.voters)) (
      rw h.counted (
        rw
          (
            length-sort c.approvals,
            all_in-sort c.active_validator_ids c.approvals,
            h.own,
            enough,
            h.eligible,
          )
          (rw (eq_refl, same_count c.approval_threshold) refl))))

abbrev pub IsOpenEntry : String × PendingCommitment → Type 0
IsOpenEntry (id, c) = IsOpen id c

abbrev pub IsProvenEntry : String × (Proposal × CommitResult) → Type 0
IsProvenEntry (id, (p, k)) = IsProven id k

pub record IsQuorate (b : Broadcaster) : Type 0 where
  pub open_entries : All IsOpenEntry b.pending
  pub proven_entries : All IsProvenEntry b.completed

All-drop_oldest :
    (n : ℕ) (d : Dict (Proposal × CommitResult))
    → All IsProvenEntry d
    → All IsProvenEntry (drop_oldest n d)
All-drop_oldest n [] h = tt
All-drop_oldest n (x ∷ d) (p, h) = elim (Bool-cases (leb (length (x ∷ d)) n)) [
  | inl e ↦ rw e (p, h)
  | inr e ↦ rw e (All-drop_oldest n d h)
]

remember_completed-IsQuorate :
    (p : Proposal) (k : CommitResult) (b : Broadcaster)
    → IsProven p.rotation_id k
    → IsQuorate b
    → IsQuorate (remember_completed p k b)
unfolding remember_completed
remember_completed-IsQuorate p k b t h = elim (Bool-cases (b.max_completed_commitments == 0)) [
  | inl e ↦ rw e h
  | inr e ↦ rw e (record {
    open_entries = h.open_entries;
    proven_entries =
        All-drop_oldest b.max_completed_commitments (set b.completed p.rotation_id (p, k))
          (All-set IsProvenEntry b.completed p.rotation_id (p, k) h.proven_entries t);
  })
]

-- A validator that may vote is added.
voted :
    (id : String) (c : PendingCommitment) (v : String)
    → IsOpen id c
    → has c.active_validator_ids v ≡ true
    → IsOpen id (record c { approvals = add c.approvals v })
voted id c v h e = record {
  own = h.own;
  electors = h.electors;
  voters = IsNodup-add c.approvals v h.voters;
  eligible = all_in-add c.active_validator_ids c.approvals v e h.eligible;
  counted = h.counted;
}

-- The state and the promise's value after a vote.
abbrev pub IsSafe : Approval × Broadcaster → String → Type 0
IsSafe r id = IsQuorate r.1 × ((k : CommitResult) → r.0.resolves ≡ some k → IsProven id k)

quiet :
    (r : Approval) (b : Broadcaster) (id : String)
    → IsQuorate b
    → r.resolves ≡ none
    → IsSafe (r, b) id
quiet r b id h e = (h, λ k f. absurd (none-some (sym e ∙ f)))

count_vote-IsSafe :
    (id : String) (d : PendingCommitment) (b : Broadcaster)
    → IsOpen id d
    → IsQuorate b
    → IsSafe (count_vote d b) id
unfolding count_vote complete_commitment
count_vote-IsSafe id d b o h = elim (Bool-cases (leb d.approval_threshold (length d.approvals))) [
  | inr e ↦ rw e (
      quiet (answer ApprovalStatus.counted d none) _ id
        (record {
          open_entries =
              All-set IsOpenEntry b.pending d.proposal.rotation_id d h.open_entries
                (subst (λ i. IsOpen i d) (sym o.own) o);
          proven_entries = h.proven_entries;
        })
        refl)
  | inl e ↦
      let proven = result_of-IsProven id d o e in
      rw e (
        remember_completed-IsQuorate d.proposal (result_of d) _
            (subst (λ i. IsProven i (result_of d)) (sym o.own) proven)
            (record {
              open_entries = All-remove IsOpenEntry b.pending d.proposal.rotation_id h.open_entries;
              proven_entries = h.proven_entries;
            }),
        λ k f. subst (λ k. IsProven id k) (same_some f) proven,
      )
]

votes-IsSafe :
    (id : String) (x y : Bool) (r s t : Approval × Broadcaster)
    → IsSafe r id
    → IsSafe s id
    → (x ≡ true → IsSafe t id)
    → IsSafe (if not x then r else if y then s else t) id
votes-IsSafe id false y r s t hr hs ht = hr
votes-IsSafe id true true r s t hr hs ht = hs
votes-IsSafe id true false r s t hr hs ht = ht refl

approve_pending-IsSafe :
    (v id : String) (c : PendingCommitment) (b : Broadcaster)
    → IsOpen id c
    → IsQuorate b
    → IsSafe (approve_pending v c b) id
unfolding approve_pending
approve_pending-IsSafe v id c b o h =
    votes-IsSafe id (has c.active_validator_ids v) (has c.approvals v) _ _ _
      (quiet (answer ineligible c none) b id h refl) (quiet (answer duplicate c none) b id h refl)
      (λ e.
        count_vote-IsSafe id (record c { approvals = add c.approvals v }) b (voted id c v o e) h)

pub approve_rotation-IsSafe :
    (id v : String) (b : Broadcaster) → IsQuorate b → IsSafe (approve_rotation id v b) id
unfolding approve_rotation
approve_rotation-IsSafe id v b h = elim (Option-cases (get b.pending id)) [
  | inl e ↦ rw (e, approve_rotation) (quiet unknown_answer b id h refl)
  | inr (c, e) ↦
      rw (e, approve_rotation)
        (approve_pending-IsSafe v id c b (All-get IsOpenEntry b.pending id c h.open_entries e) h)
]
