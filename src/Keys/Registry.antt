-- ===== src/Keys/Registry.antt =====
-- `KeyRegistry` of src/keys/key-registry.ts. Every mutation is one JavaScript turn and validates
-- before it writes, so a call that throws leaves the registry as it was.
use veri_node_backend.Prelude.{
  ℕ, String, str_eq, Bool, true, false, not, ◌&&◌, Option, none, some, List, [], ◌∷◌, if◌then◌else◌,
}
use veri_node_backend.Prelude.Results.{Result, ok, ◌>>=◌, ◌>>◌, guard, or_throw, or_absent}
use veri_node_backend.Dict.{Dict, get, set, remove}
use veri_node_backend.Keys.Identifiers.{is_blank, Number, protocol_number}

pub data KeyState : Type 0 where
  pending active retired : KeyState

abbrev pub is_pending : KeyState → Bool
is_pending pending = true
is_pending _ = false

abbrev pub is_active : KeyState → Bool
is_active active = true
is_active _ = false

abbrev pub is_retired : KeyState → Bool
is_retired retired = true
is_retired _ = false

pub record KeyRecord : Type 0 where
  pub validator_id : String
  pub public_key : String
  pub state : KeyState
  pub registered_epoch : ℕ
  pub activation_epoch : Option ℕ
  pub activation_slot : Option ℕ
  pub deactivation_epoch : Option ℕ
  pub deactivation_slot : Option ℕ
  pub retirement_epoch : Option ℕ
  pub signing_enabled : Bool

pub data KeyError : Type 0 where
  invalid_key_record duplicate_key active_key_exists pending_key_exists activation_conflict :
      KeyError
  invalid_old_key invalid_new_key unknown_key key_not_deactivated registry_inconsistent : KeyError

abbrev pub Checked : Type 0 → Type 0
Checked A = Result KeyError A

pub record KeyRegistry : Type 0 where
  pub keys : Dict KeyRecord
  pub current : Dict String
  pub pending_keys : Dict String

unfoldable pub assert_protocol_number : Number → Checked ℕ
unfolding protocol_number
assert_protocol_number n = or_throw (protocol_number n) invalid_key_record

unfoldable pub validate_registration : String → String → Number → Checked ℕ
unfolding assert_protocol_number
validate_registration validator key epoch = do
  guard (not (is_blank validator)) invalid_key_record
  guard (not (is_blank key)) invalid_key_record
  assert_protocol_number epoch

-- `input.epoch ?? epoch`
abbrev pub or_number : Option Number → Number → Number
or_number none d = d
or_number (some n) d = n

abbrev pub active_record : String → String → ℕ → ℕ → ℕ → KeyRecord
active_record validator key registered epoch slot = record {
  validator_id = validator;
  public_key = key;
  state = active;
  registered_epoch = registered;
  activation_epoch = some epoch;
  activation_slot = some slot;
  deactivation_epoch = none;
  deactivation_slot = none;
  retirement_epoch = none;
  signing_enabled = true;
}

unfoldable pub register_active_key :
    String
    → String
    → Number
    → Option Number
    → Option Number
    → KeyRegistry
    → Checked (KeyRecord × KeyRegistry)
unfolding validate_registration
register_active_key validator key registered epoch slot r = do
  at ← validate_registration validator key registered
  e ← assert_protocol_number (or_number epoch registered)
  s ← assert_protocol_number (or_number slot (some 0))
  or_absent (get r.keys key) duplicate_key
  or_absent (get r.current validator) active_key_exists
  let new = active_record validator key at e s
  ok (new, record r { keys = set r.keys key new; current = set r.current validator key })

abbrev pub pending_record : String → String → ℕ → KeyRecord
pending_record validator key registered = record {
  validator_id = validator;
  public_key = key;
  state = pending;
  registered_epoch = registered;
  activation_epoch = none;
  activation_slot = none;
  deactivation_epoch = none;
  deactivation_slot = none;
  retirement_epoch = none;
  signing_enabled = false;
}

unfoldable pub reserve_pending_key :
    String → String → Number → KeyRegistry → Checked (KeyRecord × KeyRegistry)
unfolding validate_registration
reserve_pending_key validator key registered r = do
  at ← validate_registration validator key registered
  or_absent (get r.keys key) duplicate_key
  or_absent (get r.pending_keys validator) pending_key_exists
  let new = pending_record validator key at
  ok (new, record r { keys = set r.keys key new; pending_keys = set r.pending_keys validator key })

-- `map.get(k) === key`
abbrev pub is_key : Option String → String → Bool
is_key none key = false
is_key (some k) key = str_eq k key

abbrev pub is_released : Option KeyRecord → Option String → String → String → Bool
is_released none p validator key = false
is_released (some k) p validator key =
    str_eq k.validator_id validator && is_pending k.state && is_key p key

-- Releases only a reservation that was not activated; the Boolean is the answer.
unfoldable pub release_pending_key : String → String → KeyRegistry → Bool × KeyRegistry
release_pending_key validator key r =
    if is_released (get r.keys key) (get r.pending_keys validator) validator key
    then (
      true,
      record r { keys = remove r.keys key; pending_keys = remove r.pending_keys validator },
    )
    else (false, r)

abbrev pub is_set : Option ℕ → Bool
is_set none = false
is_set (some n) = true

unfoldable pub retire_key :
    String → String → Number → KeyRegistry → Checked (KeyRecord × KeyRegistry)
unfolding assert_protocol_number
retire_key validator key epoch r = do
  at ← assert_protocol_number epoch
  k ← or_throw (get r.keys key) unknown_key
  guard (str_eq k.validator_id validator) unknown_key
  if is_retired k.state then ok (k, r) else do
    guard (is_active k.state && not k.signing_enabled && is_set k.deactivation_slot)
        key_not_deactivated
    let old = record k { state = retired; signing_enabled = false; retirement_epoch = some at }
    ok (old, record r { keys = set r.keys key old })

unfoldable pub get_key : String → KeyRegistry → Option KeyRecord
get_key key r = get r.keys key

-- `publicKey ? this.getKey(publicKey) : undefined`; a registered key is not empty.
unfoldable pub get_current_signing_key : String → KeyRegistry → Option KeyRecord
unfolding get_key
get_current_signing_key validator r = elim (get r.current validator) [
  | none ↦ none
  | some key ↦ get_key key r
]

unfoldable pub has_public_key : String → KeyRegistry → Bool
has_public_key key r = elim (get r.keys key) [ none ↦ false | some _ ↦ true ]

unfoldable pub get_validator_keys : String → Dict KeyRecord → List KeyRecord
get_validator_keys validator [] = []
get_validator_keys validator ((_, k) ∷ d) =
    if str_eq k.validator_id validator
    then k ∷ get_validator_keys validator d
    else get_validator_keys validator d
