-- ===== src/Flags/Effective.antt =====
-- The status that a flag has, whether or not it is cached, and what each call does to it.
use veri_node_backend.Prelude.{
  String, str_eq, ◌≡◌, refl, sym, ◌∙◌, ◌⊎◌, inl, inr, Bool, true, false, Option, none, some,
  if◌then◌else◌, Bool-cases, Option-cases,
}
use veri_node_backend.Dict.{Dict, get, set, remove, get-set, get-remove, split_key}
use veri_node_backend.Flags.Registry.{
  Status, disabled, same_status, Flag, Flags, Config, get_status, configured, tell,
  notify_listeners, set_override, reset_override,
}

-- The status behind the cache: what the configuration or the flag says, `disabled` when there is no
-- such flag.
abbrev pub settled : Config → Dict Flag → String → Status
settled config registry key = elim (get registry key) [
  | none ↦ disabled
  | some flag ↦ configured config key flag
]

abbrev pub or_cached : Status → Option Status → Status
or_cached status none = status
or_cached _ (some cached) = cached

unfoldable pub effective : Config → Flags → String → Status
effective config s key = or_cached (settled config s.registry key) (get s.cache key)

-- A read answers the effective status, and leaves every flag's effective status and the
-- registrations as they were.
abbrev pub SameFlags : Config → Flags → Flags → Type 0
SameFlags config s t =
    ((key : String) → effective config t key ≡ effective config s key)
    × (t.registry ≡ s.registry)
    × (t.listeners ≡ s.listeners)
    × (t.calls ≡ s.calls)

settled-found :
    (config : Config) (registry : Dict Flag) (key : String) (flag : Flag)
    → get registry key ≡ some flag
    → settled config registry key ≡ configured config key flag
settled-found config registry key flag found = rw (found, settled) refl

settled-missing :
    (config : Config) (registry : Dict Flag) (key : String)
    → get registry key ≡ none
    → settled config registry key ≡ disabled
settled-missing config registry key n = rw (n, settled) refl

-- What the effective statuses are once a status is cached.
pub effective-cached :
    (config : Config) (s : Flags) (key : String) (status : Status) (j : String)
    → effective config (record s { cache = set s.cache key status }) j
      ≡ (if str_eq key j then status else effective config s j)
unfolding effective
effective-cached config s key status j = rw (get-set s.cache key status j) (
    split_key
      (λ b i.
        or_cached (settled config s.registry i) (if b then some status else get s.cache i)
        ≡ (if b then status else or_cached (settled config s.registry i) (get s.cache i)))
      key j refl (λ _. refl))

pub effective-uncached :
    (config : Config) (s : Flags) (key j : String)
    → effective config (record s { cache = remove s.cache key }) j
      ≡ (if str_eq key j then settled config s.registry key else effective config s j)
unfolding effective
effective-uncached config s key j = rw (get-remove s.cache key j) (
    split_key
      (λ b i. or_cached (settled config s.registry i) (if b then none else get s.cache i) ≡ (
        if b
        then settled config s.registry key
        else or_cached (settled config s.registry i) (get s.cache i)))
      key j refl (λ _. refl))

cached_same :
    (config : Config) (s : Flags) (key : String)
    → get s.cache key ≡ none
    → SameFlags config s (record s { cache = set s.cache key (settled config s.registry key) })
unfolding effective
cached_same config s key fresh = (
  λ j.
      effective-cached config s key (settled config s.registry key) j
      ∙ split_key
          (λ b i.
            (if b then settled config s.registry key else effective config s i)
            ≡ effective config s i)
          key j (rw (fresh, effective) refl) (λ _. refl),
  refl,
  refl,
  refl,
)

pub get_status-effective :
    (config : Config) (key : String) (s : Flags)
    → ((get_status config key s).0 ≡ effective config s key)
      × SameFlags config s (get_status config key s).1
unfolding get_status effective
get_status-effective config key s = elim (Option-cases (get s.cache key)) [
  | inr (status, e) ↦ (rw (e, get_status) refl, rw (e, get_status) ((λ j. refl), refl, refl, refl))
  | inl fresh ↦ elim (Option-cases (get s.registry key)) [
    | inl n ↦ (
      rw (fresh, get_status) (rw (n, get_status) ((sym (settled-missing config s.registry key n)))),
      rw (fresh, get_status) (rw (n, get_status) ((λ j. refl), refl, refl, refl)),
    )
    | inr (flag, found) ↦
        let e = settled-found config s.registry key flag found in
        (
          rw (fresh, get_status) (rw (found, get_status) ((sym e))),
          rw (fresh, get_status)
              (rw (found, get_status) (rw (sym e) (cached_same config s key fresh))),
        )
  ]
]

-- Telling the listeners changes no status.
pub tell-same :
    (config : Config) (key : String) (status old : Status) (s : Flags)
    → ((j : String) → effective config (tell key status old s) j ≡ effective config s j)
      × ((tell key status old s).registry ≡ s.registry)
unfolding effective notify_listeners
tell-same config key status old s = elim (Bool-cases (same_status old status)) [
  | inl e ↦ (λ j. rw (e, tell) refl, rw (e, tell) refl)
  | inr e ↦ (λ j. rw (e, tell) refl, rw (e, tell) refl)
]

pub under_if :
    (b : Bool) (x : Status) {y z : Status} → y ≡ z → (if b then x else y) ≡ (if b then x else z)
under_if b x e = rw e refl

-- `setOverride` of a registered flag answers true, gives the flag that status, and no other flag
-- another; of an unknown one it answers false and changes nothing.
pub set_override-effective :
    (config : Config) (key : String) (status : Status) (s : Flags)
    → ((get s.registry key ≡ none) × (set_override config key status s ≡ (false, s)))
      ⊎ ((flag : Flag) × (get s.registry key ≡ some flag)
          × ((set_override config key status s).0 ≡ true)
          × ((j : String)
              → effective config (set_override config key status s).1 j
                ≡ (if str_eq key j then status else effective config s j))
          × ((set_override config key status s).1.registry ≡ s.registry))
unfolding set_override
set_override-effective config key status s = elim (Option-cases (get s.registry key)) [
  | inl n ↦ inl (n, rw (n, set_override) refl)
  | inr (flag, found) ↦
      let (old_eq, (same, regs, _, _)) = get_status-effective config key s in
      let old = (get_status config key s).0 in
      let s1 = (get_status config key s).1 in
      inr (
        flag,
        found,
        rw (found, set_override) refl,
        (λ j.
            rw (found, set_override)
              ((tell-same config key status old _).0 j
                ∙ effective-cached config s1 key status j
                ∙ under_if (str_eq key j) status (same j))),
        rw (found, set_override) ((tell-same config key status old _).1 ∙ regs),
      )
]

-- `resetOverride` of a registered flag answers true and gives the flag the status that the
-- configuration, or else the registration, says, whatever was cached, and no other flag another; of
-- an unknown one it answers false and changes nothing.
pub reset_override-effective :
    (config : Config) (key : String) (s : Flags)
    → ((get s.registry key ≡ none) × (reset_override config key s ≡ (false, s)))
      ⊎ ((flag : Flag) × (get s.registry key ≡ some flag)
          × ((reset_override config key s).0 ≡ true)
          × ((j : String)
              → effective config (reset_override config key s).1 j
                ≡ (if str_eq key j then settled config s.registry key else effective config s j))
          × ((reset_override config key s).1.registry ≡ s.registry))
unfolding reset_override
reset_override-effective config key s = elim (Option-cases (get s.registry key)) [
  | inl n ↦ inl (n, rw (n, reset_override) refl)
  | inr (flag, found) ↦
      let (_, (same, regs, _, _)) = get_status-effective config key s in
      let old = (get_status config key s).0 in
      let s1 = (get_status config key s).1 in
      let t = record s1 { cache = remove s1.cache key } in
      let (_, (same', regs', _, _)) = get_status-effective config key t in
      let new = (get_status config key t).0 in
      inr (
        flag,
        found,
        rw (found, reset_override) refl,
        (λ j.
            rw (found, reset_override)
              ((tell-same config key new old _).0 j
                ∙ same' j
                ∙ effective-uncached config s1 key j
                ∙ (rw regs (under_if (str_eq key j) _ (same j))))),
        rw (found, reset_override) ((tell-same config key new old _).1 ∙ regs' ∙ regs),
      )
]
