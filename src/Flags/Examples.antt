-- ===== src/Flags/Examples.antt =====
-- Concrete feature flags, and the theorems at them.
use veri_node_backend.Prelude.{
  ℕ, ◌<◌, String, str_eq, ◌≡◌, refl, Bool, true, false, none, some, List, [], ◌∷◌, arith, All,
  if◌then◌else◌,
}
use veri_node_backend.Dict.{get, set, remove}
use veri_node_backend.Flags.Registry.{
  enabled, degraded, Flag, Flags, Config, get_flag_from_config, status_of_text, configured,
  get_status, notify_listeners, set_override, reset_override, reload_flag, reload_flags,
  config_changed,
}
use veri_node_backend.Flags.Effective.{effective}
use veri_node_backend.Flags.Enabled.{
  Answered, Enables, dependencies_of, is_enabled, all_enabled, is_enabled-answers, is_enabled-cycle,
}

abbrev flag : String → List String → Flag
flag key deps = record {
  key = key;
  description = "";
  default_status = enabled;
  dependencies = some deps;
  owner = none;
}

-- "search" needs "index"; "loop" needs itself.
abbrev flags : Flags
flags = record {
  registry =
      ("search", flag "search" ("index" ∷ []))
      ∷ ("index", flag "index" [])
      ∷ ("loop", flag "loop" ("loop" ∷ []))
      ∷ [];
  cache = ("search", degraded) ∷ ("loop", degraded) ∷ [];
  listeners = ("search", 1 ∷ []) ∷ [];
  initialized = true;
  calls = [];
}

abbrev config : Config
config = record {
  value = λ path. if str_eq path "feature_flags.overrides.index" then some "disabled" else none;
  override_keys = some ("index" ∷ []);
}

program : Unit {0}
unfolding get set remove get_flag_from_config status_of_text configured get_status notify_listeners
    set_override reset_override reload_flag reload_flags config_changed effective is_enabled
    all_enabled
program = tt

not_searchable : (is_enabled config 2 "search" flags).0 ≡ some false
unfolding program
not_searchable = refl

overridden : effective config (set_override config "index" enabled flags).1 "index" ≡ enabled
unfolding program
overridden = refl

-- Without the flag "loop" the dependencies have no cycle.
abbrev plain : Flags
plain = record flags { registry = ("search", flag "search" ("index" ∷ [])) ∷ [] }

abbrev rank : String → ℕ
rank key = if str_eq "search" key then 1 else 0

at_most_one :
    (b : Bool)
    → All
        (λ dep. rank dep < (if b then 1 else 0))
        (dependencies_of (if b then some (flag "search" ("index" ∷ [])) else none))
at_most_one true = (omega arith, tt)
at_most_one false = tt

plain_acyclic :
    (k : String) → All (λ dep. rank dep < rank k) (dependencies_of (get plain.registry k))
unfolding get
plain_acyclic k = at_most_one (str_eq "search" k)

is_enabled-answers_example :
    Answered config plain (Enables config plain "search") (is_enabled config 2 "search" plain)
is_enabled-answers_example =
    is_enabled-answers config plain rank 2 "search" plain_acyclic (omega arith)

is_enabled-cycle_example : (is_enabled config 9 "loop" flags).0 ≡ none
unfolding program
is_enabled-cycle_example = is_enabled-cycle config flags "loop" [] 9 refl refl
