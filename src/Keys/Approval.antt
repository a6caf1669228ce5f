-- ===== src/Keys/Approval.antt =====
-- `approve` and `persistApproval` of src/keys/rotation-ceremony.ts, around the wait for the committer.
use veri_node_backend.Prelude.{
  ℕ, String, str_eq, not, ◌&&◌, Option, none, some, List, length, ◌==◌, leb, if◌then◌else◌,
}
use veri_node_backend.Prelude.Results.{ok, ◌>>=◌, ◌>>◌, guard, or_throw}
use veri_node_backend.Dict.{get, set, remove}
use veri_node_backend.Keys.Identifiers.{Number}
use veri_node_backend.Keys.Sets.{distinct, all_in}
use veri_node_backend.Keys.Broadcast.{Proposal, CommitResult, calculate_rotation_approval_threshold}
use veri_node_backend.Keys.Ceremony.{
  RotationRecord, Attempt, passing, Ceremony, assert_clock, is_initiated, proposal_of, approved,
  invalid_rotation_commitment, unknown_rotation, of_commit,
}

-- What `approve` returns: a record, the promise of an earlier attempt, or a new one that proposes.
pub data Approving : Type 0 where
  settled : RotationRecord → Approving
  joined_attempt : Approving
  proposes : Proposal → Approving

abbrev pub propose :
    Option Proposal → String → RotationRecord → Ceremony → Attempt (Approving × Ceremony)
propose (some p) id r c = ok (joined_attempt, c)
propose none id r c = ok (
  proposes (proposal_of r),
  record c { approval_attempts = set c.approval_attempts id (proposal_of r) },
)

unfoldable pub approve : String → Ceremony → Attempt (Approving × Ceremony)
approve id c = do
  r ← or_throw (get c.rotations id) unknown_rotation
  if not (is_initiated r.phase)
      then ok (settled r, c)
      else propose (get c.approval_attempts id) id r c

-- The attempt's promise has settled.
unfoldable pub attempt_settled : String → Ceremony → Ceremony
attempt_settled id c = record c { approval_attempts = remove c.approval_attempts id }

pub record Quorum : Type 0 where
  pub threshold : ℕ
  pub approvals : List String
  pub validators : List String

-- The check of `persistApproval`: what the commitment proves, or an error.
unfoldable pub prove_quorum : String → CommitResult → Attempt Quorum
unfolding calculate_rotation_approval_threshold
prove_quorum id k = do
  let validators = distinct k.active_validator_ids
  let approvals = distinct k.approvals
  t ← passing of_commit (calculate_rotation_approval_threshold (length validators))
  guard
      (str_eq k.rotation_id id
        && k.approval_threshold == t
        && leb t (length approvals)
        && all_in validators approvals)
      invalid_rotation_commitment
  ok (record { threshold = t; approvals = approvals; validators = validators })

abbrev pub approved_record : RotationRecord → Quorum → ℕ → RotationRecord
approved_record r q e = record r {
  phase = approved;
  approved_epoch = some e;
  approvals = q.approvals;
  approval_threshold = some q.threshold;
  approval_validator_set = q.validators;
}

unfoldable pub persist_approval :
    String → CommitResult → Number → Ceremony → Attempt (RotationRecord × Ceremony)
unfolding prove_quorum assert_clock
persist_approval id k epoch c = do
  r ← or_throw (get c.rotations id) unknown_rotation
  if not (is_initiated r.phase) then ok (r, c) else do
    q ← prove_quorum id k
    e ← assert_clock epoch
    let a = approved_record r q e
    ok (a, record c { rotations = set c.rotations id a })
