-- ===== src/Keys/Broadcast.antt =====
-- `CommitmentBroadcaster` of src/consensus/commitment-broadcaster.ts. A call of `commitRotation` is
-- split where it waits: the call itself, the snapshot of the active validators, and the cleanup that
-- runs when its promise has settled. Timers and listeners are the steps that they trigger.
use veri_node_backend.Prelude.{
  ℕ, String, str_eq, Bool, not, ◌&&◌, Option, none, some, List, [], ◌∷◌, length, ◌==◌, leb,
  if◌then◌else◌, ◌+◌, ◌*◌, ◌/◌, keep,
}
use veri_node_backend.Prelude.Results.{Result, ok, err, ◌>>=◌, ◌>>◌, guard}
use veri_node_backend.Dict.{Dict, get, set, remove}
use veri_node_backend.Keys.Identifiers.{is_empty}
use veri_node_backend.Keys.Sets.{has, add, distinct, sort}

abbrev pub validator_key_rotation_event : String
validator_key_rotation_event = "ValidatorKeyRotation"

pub record Proposal : Type 0 where
  pub event : String
  pub rotation_id : String
  pub validator_id : String
  pub old_public_key : String
  pub new_public_key : String
  pub initiated_epoch : ℕ
  pub initiated_slot : ℕ

pub record CommitResult : Type 0 where
  pub rotation_id : String
  pub approvals : List String
  pub approval_threshold : ℕ
  pub active_validator_ids : List String

pub data CommitError : Type 0 where
  empty_active_validator_set invalid_rotation_proposal rotation_id_conflict commit_timeout :
      CommitError

-- `Math.ceil(2n / 3)`, exact for the length of an array.
unfoldable pub calculate_rotation_approval_threshold : ℕ → Result CommitError ℕ
calculate_rotation_approval_threshold n =
    if n == 0 then err empty_active_validator_set else ok ((2 * n + 2) / 3)

abbrev pub proposals_match : Proposal → Proposal → Bool
proposals_match l r =
    str_eq l.event r.event
    && str_eq l.rotation_id r.rotation_id
    && str_eq l.validator_id r.validator_id
    && str_eq l.old_public_key r.old_public_key
    && str_eq l.new_public_key r.new_public_key
    && l.initiated_epoch == r.initiated_epoch
    && l.initiated_slot == r.initiated_slot

-- `eligibleValidators` is the set of `activeValidatorIds`.
pub record PendingCommitment : Type 0 where
  pub proposal : Proposal
  pub active_validator_ids : List String
  pub approval_threshold : ℕ
  pub approvals : List String

pub record Broadcaster : Type 0 where
  pub max_completed_commitments : ℕ
  pub pending : Dict PendingCommitment
  pub starting : Dict Proposal
  pub completed : Dict (Proposal × CommitResult)

unfoldable pub validate_proposal : Proposal → Result CommitError (Unit {0})
validate_proposal p = do
  guard
      (str_eq p.event validator_key_rotation_event
        && not (is_empty p.rotation_id)
        && not (is_empty p.validator_id))
      invalid_rotation_proposal
  guard
      (not (is_empty p.old_public_key)
        && not (is_empty p.new_public_key)
        && not (str_eq p.old_public_key p.new_public_key))
      invalid_rotation_proposal

abbrev pub assert_same_proposal : Proposal → Proposal → Result CommitError (Unit {0})
assert_same_proposal expected received =
    guard (proposals_match expected received) rotation_id_conflict

-- What `commitRotation` returns: a result, or the promise that another call or this one made.
pub data Promised : Type 0 where
  resolved : CommitResult → Promised
  joined : Promised
  started : Promised

-- What is found under the proposal's id, among the completed, the pending and the starting
-- commitments in this order, decides.
abbrev pub join_commit :
    Option (Proposal × CommitResult)
    → Option PendingCommitment
    → Option Proposal
    → Proposal
    → Broadcaster
    → Result CommitError (Promised × Broadcaster)
join_commit (some (q, result)) c s p b = assert_same_proposal q p >> ok (resolved result, b)
join_commit none (some c) s p b = assert_same_proposal c.proposal p >> ok (joined, b)
join_commit none none (some q) p b = assert_same_proposal q p >> ok (joined, b)
join_commit none none none p b =
    ok (started, record b { starting = set b.starting p.rotation_id p })

unfoldable pub commit_rotation :
    Proposal → Broadcaster → Result CommitError (Promised × Broadcaster)
unfolding validate_proposal
commit_rotation p b = do
  validate_proposal p
  join_commit (get b.completed p.rotation_id) (get b.pending p.rotation_id)
      (get b.starting p.rotation_id) p b

-- `startCommit` when the snapshot has arrived, up to the event that it emits.
unfoldable pub start_commit : Proposal → List String → Broadcaster → Result CommitError Broadcaster
unfolding calculate_rotation_approval_threshold
start_commit p supplied b = do
  let ids = distinct (keep (λ s. not (is_empty s)) supplied)
  threshold ← calculate_rotation_approval_threshold (length ids)
  ok (record b {
    pending = set b.pending p.rotation_id (record {
      proposal = p;
      active_validator_ids = ids;
      approval_threshold = threshold;
      approvals = [];
    });
  })

-- The promise has settled.
unfoldable pub clean_up : String → Broadcaster → Broadcaster
clean_up id b = record b { starting = remove b.starting id }

-- The timer fired, or a listener threw: the promise is rejected where the commitment is pending.
unfoldable pub fail_commitment : String → Broadcaster → Broadcaster
fail_commitment id b = record b { pending = remove b.pending id }

-- `while (size > max) delete the oldest`: what is over the limit goes from the front.
abbrev pub drop_oldest {ℓ} : {A : Type ℓ} → ℕ → List A → List A
drop_oldest limit [] = []
drop_oldest limit (x ∷ xs) =
    let rest = drop_oldest limit xs in if leb (length (x ∷ xs)) limit then x ∷ xs else rest

unfoldable pub remember_completed : Proposal → CommitResult → Broadcaster → Broadcaster
remember_completed p result b = if b.max_completed_commitments == 0 then b else record b {
  completed = drop_oldest b.max_completed_commitments (set b.completed p.rotation_id (p, result));
}

abbrev pub result_of : PendingCommitment → CommitResult
result_of c = record {
  rotation_id = c.proposal.rotation_id;
  approvals = sort c.approvals;
  approval_threshold = c.approval_threshold;
  active_validator_ids = c.active_validator_ids;
}

unfoldable pub complete_commitment : PendingCommitment → Broadcaster → Broadcaster
unfolding remember_completed
complete_commitment c b =
    remember_completed c.proposal (result_of c)
      (record b { pending = remove b.pending c.proposal.rotation_id })

pub data ApprovalStatus : Type 0 where
  counted duplicate ineligible unknown_rotation : ApprovalStatus

-- The answer of `approveRotation`, and what the commitment's promise resolves with, if it does.
pub record Approval : Type 0 where
  pub status : ApprovalStatus
  pub approval_count : ℕ
  pub approval_threshold : Option ℕ
  pub resolves : Option CommitResult

abbrev pub answer : ApprovalStatus → PendingCommitment → Option CommitResult → Approval
answer s c o = record {
  status = s;
  approval_count = length c.approvals;
  approval_threshold = some c.approval_threshold;
  resolves = o;
}

-- The end of `approveRotation`, on a commitment to which the vote has been added.
unfoldable pub count_vote : PendingCommitment → Broadcaster → Approval × Broadcaster
unfolding complete_commitment
count_vote d b =
    if leb d.approval_threshold (length d.approvals)
    then (answer counted d (some (result_of d)), complete_commitment d b)
    else (answer counted d none, record b { pending = set b.pending d.proposal.rotation_id d })

unfoldable pub approve_pending : String → PendingCommitment → Broadcaster → Approval × Broadcaster
unfolding count_vote
approve_pending validator c b =
    if not (has c.active_validator_ids validator)
    then (answer ineligible c none, b)
    else if has c.approvals validator
    then (answer duplicate c none, b)
    else count_vote (record c { approvals = add c.approvals validator }) b

abbrev pub unknown_answer : Approval
unknown_answer = record {
  status = unknown_rotation;
  approval_count = 0;
  approval_threshold = none;
  resolves = none;
}

unfoldable pub approve_rotation : String → String → Broadcaster → Approval × Broadcaster
unfolding approve_pending
approve_rotation id validator b = elim (get b.pending id) [
  | none ↦ (unknown_answer, b)
  | some c ↦ approve_pending validator c b
]
