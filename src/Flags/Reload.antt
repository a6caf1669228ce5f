-- ===== src/Flags/Reload.antt =====
-- What a change of the configuration does to the statuses.
use veri_node_backend.Prelude.{
  String, str_eq, ◌≡◌, refl, sym, ◌∙◌, inl, inr, true, Option, none, some, [], ◌∷◌, if◌then◌else◌,
  Bool-cases,
}
use veri_node_backend.Dict.{Dict, get, split_key, Absent, Distinct}
use veri_node_backend.Flags.Registry.{
  Status, same_status, enabled, disabled, degraded, Flag, Flags, Config, configured, get_status,
  notify_listeners, reload_flag, reload_flags, config_changed,
}
use veri_node_backend.Flags.Effective.{effective, get_status-effective, effective-cached, under_if}

same_status-eq : (a b : Status) → same_status a b ≡ true → a ≡ b
same_status-eq enabled enabled h = refl
same_status-eq enabled disabled h = cc
same_status-eq enabled degraded h = cc
same_status-eq disabled enabled h = cc
same_status-eq disabled disabled h = refl
same_status-eq disabled degraded h = cc
same_status-eq degraded enabled h = cc
same_status-eq degraded disabled h = cc
same_status-eq degraded degraded h = refl

notify-effective :
    (config : Config) (key : String) (new old : Status) (s : Flags) (j : String)
    → effective config (notify_listeners key new old s) j ≡ effective config s j
unfolding effective notify_listeners
notify-effective config key new old s j = refl

reload_flag-effective :
    (config : Config) (key : String) (flag : Flag) (s : Flags) (j : String)
    → effective config (reload_flag config key flag s) j
      ≡ (if str_eq key j then configured config key flag else effective config s j)
unfolding reload_flag
reload_flag-effective config key flag s j =
    let (old_eq, (same, _, _, _)) = get_status-effective config key s in
    let old = (get_status config key s).0 in
    let s1 = (get_status config key s).1 in
    let new = configured config key flag in
    elim (Bool-cases (same_status old new)) [
      | inl e ↦ rw e (
          same j
          ∙ split_key (λ b i. effective config s i ≡ (if b then new else effective config s i)) key
              j (sym old_eq ∙ same_status-eq old new e) (λ _. refl))
      | inr e ↦ rw e (
          notify-effective config key new old _ j
          ∙ effective-cached config s1 key new j
          ∙ under_if (str_eq key j) new (same j))
    ]

-- The status that an entry gives, or else what was there.
abbrev entry_or : Config → String → Option Flag → Status → Status
entry_or config key none old = old
entry_or config key (some flag) old = configured config key flag

Absent-get : (d : Dict Flag) (k : String) → Absent k d → get d k ≡ none
unfolding get
Absent-get [] k a = refl
Absent-get ((j, f) ∷ d) k (n, a) = rw (n, Absent-get d k a) refl

reload_flags-effective :
    (config : Config) (d : Dict Flag) (s : Flags) (j : String)
    → Distinct d
    → effective config (reload_flags config d s) j
      ≡ entry_or config j (get d j) (effective config s j)
unfolding reload_flags get
reload_flags-effective config [] s j h = refl
reload_flags-effective config ((k, flag) ∷ rest) s j (a, h) =
    reload_flags-effective config rest (reload_flag config k flag s) j h
    ∙ (rw (reload_flag-effective config k flag s j) (
        split_key
          (λ b i.
            entry_or config i (get rest i)
              (if b then configured config k flag else effective config s i)
            ≡ entry_or config i (if b then some flag else get rest i) (effective config s i))
          k j (rw (Absent-get rest k a) refl) (λ _. refl)))

-- After a change of the configuration every registered flag has the status that the configuration,
-- or else its registration, says: no override that was set before survives.
pub config_changed-effective :
    (config : Config) (s : Flags) (key : String) (flag : Flag)
    → Distinct s.registry
    → get s.registry key ≡ some flag
    → effective config (config_changed config s) key ≡ configured config key flag
unfolding config_changed
config_changed-effective config s key flag h found =
    reload_flags-effective config s.registry s key h ∙ (rw found refl)
