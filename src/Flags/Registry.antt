-- ===== src/Flags/Registry.antt =====
-- The module state and the functions of src/core/ingress/feature_flags.ts. The configuration is what
-- `getConfigValue` answers. A callback is a number, and its call an entry of `calls`; what a callback
-- throws is swallowed by the source.
use veri_node_backend.Prelude.{
  ℕ, String, str_eq, Bool, true, false, not, ◌||◌, Option, none, some, List, [], ◌∷◌, ◌++◌, map,
  keep, ◌==◌, if◌then◌else◌,
}
use Prim.Native.String.{◌++◌ as append}
use veri_node_backend.Dict.{Dict, get, set, remove}

pub data Status : Type 0 where
  enabled disabled degraded : Status

abbrev pub same_status : Status → Status → Bool
same_status enabled enabled = true
same_status disabled disabled = true
same_status degraded degraded = true
same_status _ _ = false

pub record Flag : Type 0 where
  pub key : String
  pub description : String
  pub default_status : Status
  pub dependencies : Option (List String)
  pub owner : Option String

pub record Call : Type 0 where
  pub callback : ℕ
  pub key : String
  pub status : Status
  pub old_status : Status

pub record Flags : Type 0 where
  pub registry : Dict Flag
  pub cache : Dict Status
  pub listeners : Dict (List ℕ)
  pub initialized : Bool
  pub calls : List Call

-- What `getConfigValue` answers: a string at a path, and the keys of the object at
-- "feature_flags.overrides" if there is one.
pub record Config : Type 0 where
  pub value : String → Option String
  pub override_keys : Option (List String)

unfoldable pub status_of_text : String → Option Status
status_of_text text =
    if str_eq text "enabled"
    then some enabled
    else if str_eq text "disabled"
    then some disabled
    else if str_eq text "degraded"
    then some degraded
    else none

unfoldable pub get_flag_from_config : Config → String → Option Status
unfolding status_of_text
get_flag_from_config config key = elim (config.value (append "feature_flags.overrides." key)) [
  | none ↦ none
  | some text ↦ status_of_text text
]

unfoldable pub register_flag : Flag → Flags → Flags
register_flag flag s = record s { registry = set s.registry flag.key flag }

unfoldable pub register_flags : List Flag → Flags → Flags
unfolding register_flag
register_flags [] s = s
register_flags (flag ∷ flags) s = register_flags flags (register_flag flag s)

-- `getFlagFromConfig(key) || flag.defaultStatus`
unfoldable pub configured : Config → String → Flag → Status
configured config key flag = elim (get_flag_from_config config key) [
  | none ↦ flag.default_status
  | some status ↦ status
]

unfoldable pub get_status : Config → String → Flags → Status × Flags
get_status config key s = elim (get s.cache key) [
  | some cached ↦ (cached, s)
  | none ↦ elim (get s.registry key) [
    | none ↦ (disabled, s)
    | some flag ↦ (
      configured config key flag,
      record s { cache = set s.cache key (configured config key flag) },
    )
  ]
]

abbrev pub listeners_of : Flags → String → List ℕ
listeners_of s key = elim (get s.listeners key) [ none ↦ [] | some callbacks ↦ callbacks ]

unfoldable pub notify_listeners : String → Status → Status → Flags → Flags
notify_listeners key status old s = record s {
  calls =
      s.calls
      ++ map (λ c. record { callback = c; key = key; status = status; old_status = old })
          (listeners_of s key);
}

-- The listeners hear of a change only.
abbrev pub tell : String → Status → Status → Flags → Flags
tell key status old s = if same_status old status then s else notify_listeners key status old s

unfoldable pub set_override : Config → String → Status → Flags → Bool × Flags
set_override config key status s = elim (get s.registry key) [
  | none ↦ (false, s)
  | some flag ↦
      let (old, s1) = get_status config key s in
      (true, tell key status old (record s1 { cache = set s1.cache key status }))
]

unfoldable pub reset_override : Config → String → Flags → Bool × Flags
reset_override config key s = elim (get s.registry key) [
  | none ↦ (false, s)
  | some flag ↦
      let (old, s1) = get_status config key s in
      let (new, s2) = get_status config key (record s1 { cache = remove s1.cache key }) in
      (true, tell key new old s2)
]

abbrev pub holds : ℕ → List ℕ → Bool
holds c [] = false
holds c (d ∷ ds) = (d == c) || holds c ds

-- `onFeatureFlagChange`: a Set holds a callback once.
unfoldable pub on_feature_flag_change : String → ℕ → Flags → Flags
on_feature_flag_change key callback s =
    let known = listeners_of s key in
    record s {
      listeners =
          set s.listeners key (if holds callback known then known else known ++ (callback ∷ []));
    }

-- The function that `onFeatureFlagChange` returns.
unfoldable pub unsubscribe : String → ℕ → Flags → Flags
unsubscribe key callback s = elim (get s.listeners key) [
  | none ↦ s
  | some known ↦ record s {
    listeners = set s.listeners key (keep (λ c. not (c == callback)) known);
  }
]

-- The first loop of `initFeatureFlags`.
unfoldable pub load_overrides : Config → List String → Flags → Flags
load_overrides config [] s = s
load_overrides config (key ∷ keys) s = load_overrides config keys (elim (get s.registry key) [
  | none ↦ s
  | some flag ↦ elim (get_flag_from_config config key) [
    | none ↦ s
    | some status ↦ record s { cache = set s.cache key status }
  ]
])

-- The second loop.
unfoldable pub load_defaults : Dict Flag → Flags → Flags
load_defaults [] s = s
load_defaults ((key, flag) ∷ rest) s = load_defaults rest (elim (get s.cache key) [
  | none ↦ record s { cache = set s.cache key flag.default_status }
  | some _ ↦ s
])

unfoldable pub init_feature_flags : Config → Flags → Flags
unfolding load_overrides load_defaults
init_feature_flags config s =
    if s.initialized
    then s
    else let s1 : Flags = elim config.override_keys [
      | none ↦ s
      | some keys ↦ load_overrides config keys s
    ] in
      let s2 = load_defaults s1.registry s1 in record s2 { initialized = true }

-- One turn of the loop of the `onChangePath` callback.
unfoldable pub reload_flag : Config → String → Flag → Flags → Flags
reload_flag config key flag s =
    let (old, s1) = get_status config key s in
    let new = configured config key flag in
    if same_status old new
    then s1
    else notify_listeners key new old (record s1 { cache = set s1.cache key new })

unfoldable pub reload_flags : Config → Dict Flag → Flags → Flags
unfolding reload_flag
reload_flags config [] s = s
reload_flags config ((key, flag) ∷ rest) s =
    reload_flags config rest (reload_flag config key flag s)

-- The callback on a change of the configuration under "feature_flags".
unfoldable pub config_changed : Config → Flags → Flags
unfolding reload_flags
config_changed config s = reload_flags config s.registry s

abbrev pub empty : Flags
empty = record { registry = []; cache = []; listeners = []; initialized = false; calls = [] }
