-- ===== src/Keys/Ceremony.antt =====
-- `RotationCeremony` of src/keys/rotation-ceremony.ts. `initiate` and `approve` are split where they
-- wait: for the stake, and for the committer. Between waits a call is one JavaScript turn, and every
-- throw comes before the first write that stays.
use veri_node_backend.Prelude.{
  ℕ, String, Bool, true, false, not, ◌&&◌, ◌||◌, Option, none, some, List, [], leb, if◌then◌else◌,
  ◌+◌,
}
use veri_node_backend.Prelude.Results.{Result, ok, err, ◌>>=◌, ◌>>◌, guard, or_throw}
use veri_node_backend.Dict.{Dict, get, set, remove}
use veri_node_backend.Keys.Identifiers.{is_empty, Number, protocol_number}
use veri_node_backend.Keys.Registry.{
  KeyRegistry, KeyError, duplicate_key, is_active, is_key, has_public_key, get_current_signing_key,
  reserve_pending_key, retire_key,
}
use veri_node_backend.Keys.Activation.{Rotation, activate_rotation}
use veri_node_backend.Keys.Broadcast.{Proposal, CommitError, validator_key_rotation_event}

abbrev pub min_rotation_stake : ℕ
min_rotation_stake = 10000

abbrev pub old_key_retirement_slots : ℕ
old_key_retirement_slots = 4096

pub data RotationPhase : Type 0 where
  initiated approved activated retired : RotationPhase

pub record RotationRecord : Type 0 where
  pub rotation_id : String
  pub validator_id : String
  pub old_public_key : String
  pub new_public_key : String
  pub phase : RotationPhase
  pub initiated_epoch : ℕ
  pub initiated_slot : ℕ
  pub approved_epoch : Option ℕ
  pub activated_epoch : Option ℕ
  pub activation_slot : Option ℕ
  pub retired_epoch : Option ℕ
  pub approvals : List String
  pub approval_threshold : Option ℕ
  pub approval_validator_set : List String

pub data CeremonyError : Type 0 where
  invalid_rotation insufficient_rotation_stake invalid_protocol_clock rotation_in_progress :
      CeremonyError
  no_active_signing_key rotation_id_in_use illegal_rotation_transition retirement_delay :
      CeremonyError
  invalid_rotation_commitment unknown_rotation : CeremonyError
  of_registry : KeyError → CeremonyError
  of_commit : CommitError → CeremonyError

abbrev pub Attempt : Type 0 → Type 0
Attempt A = Result CeremonyError A

-- An error of a callee passes through.
abbrev pub passing {ℓ κ} :
    {E : Type ℓ} {A : Type κ} → (E → CeremonyError) → Result E A → Result CeremonyError A
passing f (ok a) = ok a
passing f (err e) = err (f e)

-- `approval_attempts` holds what was proposed, in place of the promise of its commitment.
pub record Ceremony : Type 0 where
  pub registry : KeyRegistry
  pub rotations : Dict RotationRecord
  pub active_rotation_by_validator : Dict String
  pub approval_attempts : Dict Proposal

unfoldable pub assert_clock : Number → Attempt ℕ
unfolding protocol_number
assert_clock n = or_throw (protocol_number n) invalid_protocol_clock

-- `if (id)`
abbrev pub is_some_id : Option String → Bool
is_some_id none = false
is_some_id (some id) = not (is_empty id)

abbrev pub has_rotation : Option RotationRecord → Bool
has_rotation none = false
has_rotation (some r) = true

-- The checks of `initiate` before it asks for the stake.
unfoldable pub request_rotation : String → String → Ceremony → Attempt (Unit {0})
unfolding has_public_key
request_rotation validator key c = do
  guard (not (is_empty validator) && not (is_empty key)) invalid_rotation
  guard (not (has_public_key key c.registry)) (of_registry duplicate_key)

abbrev pub initiated_record : String → String → String → String → ℕ → ℕ → RotationRecord
initiated_record id validator old new epoch slot = record {
  rotation_id = id;
  validator_id = validator;
  old_public_key = old;
  new_public_key = new;
  phase = initiated;
  initiated_epoch = epoch;
  initiated_slot = slot;
  approved_epoch = none;
  activated_epoch = none;
  activation_slot = none;
  retired_epoch = none;
  approvals = [];
  approval_threshold = none;
  approval_validator_set = [];
}

-- `initiate` when the stake has come. Its `catch` runs only where the reservation threw: then there
-- is no rotation of this id and no entry of the validator, and what it deletes is not there.
unfoldable pub initiate :
    String → String → String → ℕ → Number → Number → Ceremony → Attempt (RotationRecord × Ceremony)
unfolding assert_clock
initiate validator key id stake epoch slot c = do
  guard (leb min_rotation_stake stake) insufficient_rotation_stake
  e ← assert_clock epoch
  s ← assert_clock slot
  guard (not (is_some_id (get c.active_rotation_by_validator validator))) rotation_in_progress
  old ← or_throw (get_current_signing_key validator c.registry) no_active_signing_key
  guard (is_active old.state && old.signing_enabled) no_active_signing_key
  guard (not (is_empty id) && not (has_rotation (get c.rotations id))) rotation_id_in_use
  reserved ← passing of_registry (reserve_pending_key validator key (some e) c.registry)
  let r = initiated_record id validator old.public_key key e s
  ok (
    r,
    record c {
      registry = reserved.1;
      rotations = set c.rotations id r;
      active_rotation_by_validator = set c.active_rotation_by_validator validator id;
    },
  )

abbrev pub is_initiated : RotationPhase → Bool
is_initiated initiated = true
is_initiated _ = false

abbrev pub proposal_of : RotationRecord → Proposal
proposal_of r = record {
  event = validator_key_rotation_event;
  rotation_id = r.rotation_id;
  validator_id = r.validator_id;
  old_public_key = r.old_public_key;
  new_public_key = r.new_public_key;
  initiated_epoch = r.initiated_epoch;
  initiated_slot = r.initiated_slot;
}

abbrev pub is_activated : RotationPhase → Bool
is_activated activated = true
is_activated _ = false

abbrev pub is_phase_retired : RotationPhase → Bool
is_phase_retired retired = true
is_phase_retired _ = false

abbrev pub is_approved : RotationPhase → Bool
is_approved approved = true
is_approved _ = false

abbrev pub activated_record : RotationRecord → ℕ → ℕ → RotationRecord
activated_record r e s = record r {
  phase = activated;
  activated_epoch = some e;
  activation_slot = some s;
}

abbrev pub rotation_of : RotationRecord → ℕ → ℕ → Rotation
rotation_of r e s = record {
  validator_id = r.validator_id;
  old_public_key = r.old_public_key;
  new_public_key = r.new_public_key;
  activation_epoch = some e;
  activation_slot = some s;
}

unfoldable pub activate : String → Number → Number → Ceremony → Attempt (RotationRecord × Ceremony)
unfolding assert_clock
activate id epoch slot c = do
  r ← or_throw (get c.rotations id) unknown_rotation
  if is_activated r.phase || is_phase_retired r.phase then ok (r, c) else do
    guard (is_approved r.phase) illegal_rotation_transition
    e ← assert_clock epoch
    s ← assert_clock slot
    switched ← passing of_registry (activate_rotation (rotation_of r e s) c.registry)
    let a = activated_record r e s
    ok (a, record c { registry = switched.1; rotations = set c.rotations id a })

abbrev pub retired_record : RotationRecord → ℕ → RotationRecord
retired_record r e = record r { phase = retired; retired_epoch = some e }

unfoldable pub retire : String → Number → Number → Ceremony → Attempt (RotationRecord × Ceremony)
unfolding assert_clock
retire id epoch slot c = do
  r ← or_throw (get c.rotations id) unknown_rotation
  if is_phase_retired r.phase then ok (r, c) else do
    guard (is_activated r.phase) illegal_rotation_transition
    since ← or_throw r.activation_slot illegal_rotation_transition
    s ← assert_clock slot
    e ← assert_clock epoch
    guard (leb (since + old_key_retirement_slots) s) retirement_delay
    done ← passing of_registry (retire_key r.validator_id r.old_public_key (some e) c.registry)
    let a = retired_record r e
    ok (
      a,
      record c {
        registry = done.1;
        rotations = set c.rotations id a;
        active_rotation_by_validator =
            if is_key (get c.active_rotation_by_validator r.validator_id) id
            then remove c.active_rotation_by_validator r.validator_id
            else c.active_rotation_by_validator;
      },
    )

unfoldable pub get_rotation : String → Ceremony → Option RotationRecord
get_rotation id c = get c.rotations id
