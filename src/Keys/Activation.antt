-- ===== src/Keys/Activation.antt =====
-- `activateRotation` of src/keys/key-registry.ts.
use veri_node_backend.Prelude.{
  ℕ, String, str_eq, Bool, true, false, not, ◌&&◌, Option, none, some, ◌==◌, if◌then◌else◌,
}
use veri_node_backend.Prelude.Results.{ok, ◌>>=◌, ◌>>◌, guard, or_throw}
use veri_node_backend.Dict.{get, set, remove}
use veri_node_backend.Keys.Identifiers.{Number}
use veri_node_backend.Keys.Registry.{
  activation_conflict, is_pending, is_active, KeyRecord, Checked, KeyRegistry,
  assert_protocol_number, is_key, active, invalid_old_key, invalid_new_key,
}

pub record Rotation : Type 0 where
  pub validator_id : String
  pub old_public_key : String
  pub new_public_key : String
  pub activation_epoch : Number
  pub activation_slot : Number

abbrev pub is_at : Option ℕ → ℕ → Bool
is_at none n = false
is_at (some m) n = m == n

-- The rotation has been activated before.
abbrev pub is_done : KeyRecord → KeyRecord → Option String → Rotation → Bool
is_done old new current i =
    str_eq old.validator_id i.validator_id
    && str_eq new.validator_id i.validator_id
    && is_active old.state
    && not old.signing_enabled
    && is_active new.state
    && new.signing_enabled
    && is_key current i.new_public_key

abbrev pub is_done_at : KeyRecord → KeyRecord → ℕ → ℕ → Bool
is_done_at old new epoch slot =
    is_at old.deactivation_epoch epoch
    && is_at old.deactivation_slot slot
    && is_at new.activation_epoch epoch
    && is_at new.activation_slot slot

abbrev pub deactivated : KeyRecord → ℕ → ℕ → KeyRecord
deactivated k epoch slot = record k {
  signing_enabled = false;
  deactivation_epoch = some epoch;
  deactivation_slot = some slot;
}

abbrev pub activated : KeyRecord → ℕ → ℕ → KeyRecord
activated k epoch slot = record k {
  state = active;
  signing_enabled = true;
  activation_epoch = some epoch;
  activation_slot = some slot;
}

abbrev pub both_done : Option KeyRecord → Option KeyRecord → Option String → Rotation → Bool
both_done (some old) (some new) current i = is_done old new current i
both_done _ _ current i = false

abbrev pub both_done_at : Option KeyRecord → Option KeyRecord → ℕ → ℕ → Bool
both_done_at (some old) (some new) epoch slot = is_done_at old new epoch slot
both_done_at _ _ epoch slot = false

-- The branch of a rotation that was activated before: it answers the two records.
abbrev pub repeated :
    Option KeyRecord
    → Option KeyRecord
    → ℕ
    → ℕ
    → KeyRegistry
    → Checked ((KeyRecord × KeyRecord) × KeyRegistry)
repeated old new epoch slot r = do
  guard (both_done_at old new epoch slot) activation_conflict
  o ← or_throw old invalid_old_key
  n ← or_throw new invalid_new_key
  ok ((o, n), r)

-- The validation and the four writes of a first activation.
unfoldable pub switch_keys :
    Rotation → ℕ → ℕ → KeyRegistry → Checked ((KeyRecord × KeyRecord) × KeyRegistry)
switch_keys i epoch slot r = do
  old ← or_throw (get r.keys i.old_public_key) invalid_old_key
  guard (str_eq old.validator_id i.validator_id && is_active old.state) invalid_old_key
  guard (old.signing_enabled && is_key (get r.current i.validator_id) i.old_public_key)
      invalid_old_key
  new ← or_throw (get r.keys i.new_public_key) invalid_new_key
  guard (str_eq new.validator_id i.validator_id && is_pending new.state) invalid_new_key
  guard (is_key (get r.pending_keys i.validator_id) i.new_public_key) invalid_new_key
  ok (
    (deactivated old epoch slot, activated new epoch slot),
    record {
      keys =
          set (set r.keys i.old_public_key (deactivated old epoch slot)) i.new_public_key
            (activated new epoch slot);
      current = set r.current i.validator_id i.new_public_key;
      pending_keys = remove r.pending_keys i.validator_id;
    },
  )

unfoldable pub activate_rotation :
    Rotation → KeyRegistry → Checked ((KeyRecord × KeyRecord) × KeyRegistry)
unfolding assert_protocol_number switch_keys
activate_rotation i r = do
  epoch ← assert_protocol_number i.activation_epoch
  slot ← assert_protocol_number i.activation_slot
  let old = get r.keys i.old_public_key
  let new = get r.keys i.new_public_key
  if both_done old new (get r.current i.validator_id) i
      then repeated old new epoch slot r
      else switch_keys i epoch slot r
