-- ===== src/Keys/Examples.antt =====
-- The key registry, the broadcaster and the ceremony at concrete calls.
use veri_node_backend.Prelude.{◌≡◌, refl, String, none, some, List, [], ◌∷◌}
use veri_node_backend.Prelude.Results.{ok}
use veri_node_backend.Keys.Identifiers.{is_space, is_blank, is_empty, protocol_number}
use veri_node_backend.Dict.{remove, get, set}
use veri_node_backend.Keys.Registry.{
  assert_protocol_number, validate_registration, register_active_key, reserve_pending_key,
  release_pending_key, retire_key, has_public_key, KeyRecord, KeyRegistry, get_key,
  get_current_signing_key, active_record, pending_record,
}
use veri_node_backend.Keys.Activation.{switch_keys, activate_rotation, activated}
use veri_node_backend.Keys.Consistent.{empty_registry}
use veri_node_backend.Keys.Calls.{
  KeyCall, register, reserve, activate, retire, run, signing_key_unique,
}
use veri_node_backend.Keys.Broadcast.{
  calculate_rotation_approval_threshold, validate_proposal, commit_rotation, start_commit, clean_up,
  fail_commitment, remember_completed, complete_commitment, count_vote, approve_pending,
  approve_rotation, Proposal, CommitResult,
}
use veri_node_backend.Keys.Ceremony.{
  assert_clock, initiate, retired_record, Ceremony, RotationRecord, activated_record,
  initiated_record, proposal_of, get_rotation,
}
use veri_node_backend.Keys.Approval.{
  approve, attempt_settled, prove_quorum, approved_record, persist_approval,
}
use veri_node_backend.Keys.Ceremony
use veri_node_backend.Keys.Events
use veri_node_backend.Keys.Phases.{
  CeremonyCall, initiates, approves, persists, settles, activates, retires, after, Change,
  after-Change,
}
use veri_node_backend.Keys.Quorum.{quorum_of}
use veri_node_backend.Keys.Accepted.{resolves, persist_approval-resolves}
use veri_node_backend.Keys.Events.{Event, commits, supplies, votes, fails, cleans, new_broadcaster}
use veri_node_backend.Keys.Rotations.{run_calls, new_ceremony, IsQuorum, run_calls-IsQuorum}
use veri_node_backend.Keys.Forward.{IsLater, run_calls-IsLater}

-- Validator "v" rotates from "old" to "new"; a second registration of "old" is refused.
abbrev rotate_v : List KeyCall
rotate_v =
    register "v" "old" (some 1) none none
    ∷ register "w" "old" (some 1) none none
    ∷ reserve "v" "new" (some 2)
    ∷ activate (record {
      validator_id = "v";
      old_public_key = "old";
      new_public_key = "new";
      activation_epoch = some 3;
      activation_slot = some 96;
    })
    ∷ retire "v" "old" (some 200)
    ∷ []

abbrev new_key : KeyRecord
new_key = activated (pending_record "v" "new" 2) 3 96

program : Unit {0}
unfolding get set remove is_space is_blank is_empty protocol_number assert_protocol_number
    validate_registration register_active_key reserve_pending_key release_pending_key switch_keys
    activate_rotation retire_key get_key get_current_signing_key has_public_key
    calculate_rotation_approval_threshold validate_proposal commit_rotation start_commit clean_up
    fail_commitment remember_completed complete_commitment count_vote approve_pending
    approve_rotation assert_clock initiate approve attempt_settled prove_quorum persist_approval
    Ceremony.activate Ceremony.retire get_rotation
program = tt

new_key_found : get_key "new" (run rotate_v empty_registry) ≡ some new_key
unfolding program
new_key_found = refl

signing_key_unique_example :
    ◌≡◌ {A = String} "new" "new"
    × (get_current_signing_key "v" (run rotate_v empty_registry) ≡ some new_key)
signing_key_unique_example =
    signing_key_unique rotate_v "new" "new" new_key new_key new_key_found new_key_found refl refl
      refl

-- The same rotation as a ceremony, with two of three validators approving.
abbrev proposal : Proposal
proposal = proposal_of (initiated_record "r" "v" "old" "new" 2 64)

abbrev script : List Event
script =
    commits proposal
    ∷ supplies "r" ("a" ∷ "b" ∷ "" ∷ "c" ∷ "a" ∷ [])
    ∷ votes "r" "c"
    ∷ votes "r" "x"
    ∷ votes "r" "c"
    ∷ []

abbrev commitment : CommitResult
commitment = record {
  rotation_id = "r";
  approvals = "a" ∷ "c" ∷ [];
  approval_threshold = 2;
  active_validator_ids = "a" ∷ "b" ∷ "c" ∷ [];
}

quorum_reached :
    resolves (votes "r" "a") (Events.run script (new_broadcaster 1024)) ≡ some ("r", commitment)
unfolding program
quorum_reached = refl

abbrev old_registered : KeyRegistry
old_registered = record {
  keys = ("old", active_record "v" "old" 1 1 0) ∷ [];
  current = ("v", "old") ∷ [];
  pending_keys = [];
}

abbrev first_calls : List CeremonyCall
first_calls = initiates "v" "new" "r" 10000 (some 2) (some 64) ∷ approves "r" ∷ []

abbrev under_way : Ceremony
under_way = run_calls first_calls (new_ceremony old_registered)

under_way_found : get_rotation "r" under_way ≡ some (initiated_record "r" "v" "old" "new" 2 64)
unfolding program
under_way_found = refl

clock : assert_clock (some 3) ≡ ok 3
unfolding program
clock = refl

abbrev approved_now : RotationRecord
approved_now = approved_record (initiated_record "r" "v" "old" "new" 2 64) (quorum_of commitment) 3

persist_approval-resolves_example :
    persist_approval "r" commitment (some 3) under_way
    ≡ ok (approved_now, record under_way { rotations = set under_way.rotations "r" approved_now })
persist_approval-resolves_example =
    persist_approval-resolves 1024 script (votes "r" "a") "r" commitment under_way
      (initiated_record "r" "v" "old" "new" 2 64) (some 3) 3 quorum_reached under_way_found refl
      clock

after-Change_example : Change under_way (after (persists "r" commitment (some 3)) under_way)
after-Change_example = after-Change (persists "r" commitment (some 3)) under_way

abbrev later_calls : List CeremonyCall
later_calls =
    persists "r" commitment (some 3)
    ∷ settles "r"
    ∷ retires "r" (some 4) (some 100)
    ∷ activates "r" (some 4) (some 100)
    ∷ retires "r" (some 4) (some 4195)
    ∷ retires "r" (some 140) (some 4196)
    ∷ []

abbrev all_calls : List CeremonyCall
all_calls = initiates "v" "new" "r" 10000 (some 2) (some 64) ∷ approves "r" ∷ later_calls

abbrev retired_now : RotationRecord
retired_now = retired_record (activated_record approved_now 4 100) 140

retired_found :
    get_rotation "r" (run_calls all_calls (new_ceremony old_registered)) ≡ some retired_now
unfolding program
retired_found = refl

run_calls-IsQuorum_example : IsQuorum ("a" ∷ "c" ∷ []) ("a" ∷ "b" ∷ "c" ∷ [])
run_calls-IsQuorum_example =
    run_calls-IsQuorum old_registered all_calls "r" retired_now retired_found refl

run_calls-IsLater_example :
    (s : RotationRecord) × (get_rotation "r" (run_calls later_calls under_way) ≡ some s)
    × IsLater (initiated_record "r" "v" "old" "new" 2 64) s
run_calls-IsLater_example =
    run_calls-IsLater later_calls under_way "r" (initiated_record "r" "v" "old" "new" 2 64)
      under_way_found
