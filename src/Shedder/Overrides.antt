-- ===== src/Shedder/Overrides.antt =====
-- What a change of the level does to the flags.
use veri_node_backend.Prelude.{
  ℕ, String, str_eq, ◌≡◌, refl, ◌∙◌, inl, inr, Bool, true, false, Option, none, some, [], ◌∷◌,
  if◌then◌else◌, Bool-cases,
}
use veri_node_backend.Dict.{Dict, get, split_key, Absent, Distinct}
use veri_node_backend.Flags.Registry.{Status, Flag, Flags, Config, configured}
use veri_node_backend.Flags.Effective.{
  effective, settled, set_override-effective, reset_override-effective,
}
use veri_node_backend.Shedder.Levels.{SheddingLevel, calm, MetricSnapshot, determine_level}
use veri_node_backend.Shedder.Evaluate.{evaluate-found}
use veri_node_backend.Shedder.State.{
  PartialConfig, Shedder, is_calm, same_level, in_cooldown, shed_flag, apply_shedding,
  notify_change, change_level, evaluate_level, evaluate, init_capacity_shedder,
  stop_capacity_shedder,
}

-- The status that a flag of `flagsToShed` gets, if it is registered.
abbrev shed_to :
    Config → SheddingLevel → Dict Flag → String → Option Flag → Status → Status → Status
shed_to c level registry key none status old = old
shed_to c level registry key (some _) status old =
    if is_calm level then settled c registry key else status

module _ (c : Config) (level : SheddingLevel) where
  abbrev Shed : String → Status → Flags → Flags → Type 0
  Shed key status s t =
      ((j : String)
        → effective c t j ≡ (
            if str_eq key j
            then shed_to c level s.registry key (get s.registry key) status (effective c s key)
            else effective c s j))
      × (t.registry ≡ s.registry)

  unchanged :
      (key : String) (status : Status) (s : Flags) → get s.registry key ≡ none → Shed key status s s
  unchanged key status s n = (
    λ j. rw n (
        split_key (λ b i. effective c s i ≡ (if b then effective c s key else effective c s i)) key
          j refl (λ _. refl)),
    refl,
  )

  shed_flag-Shed :
      (key : String) (status : Status) (s : Flags)
      → Shed key status s (shed_flag c level key status s)
  shed_flag-Shed key status s = elim (Bool-cases (is_calm level)) [
    | inl e ↦ elim (reset_override-effective c key s) [
      | inl (n, q) ↦ rw e (rw q (unchanged key status s n))
      | inr (_, found, _, h, regs) ↦ rw e (λ j. h j ∙ rw found (rw e refl), regs)
    ]
    | inr e ↦ elim (set_override-effective c key status s) [
      | inl (n, q) ↦ rw e (rw q (unchanged key status s n))
      | inr (_, found, _, h, regs) ↦ rw e (λ j. h j ∙ rw found (rw e refl), regs)
    ]
  ]

  -- The status of the flag `j` after the loop: what its entry gives, or else what it was.
  abbrev entry_to : Dict Flag → String → Option Status → Status → Status
  entry_to registry key none old = old
  entry_to registry key (some status) old =
      shed_to c level registry key (get registry key) status old

  Absent-get : (d : Dict Status) (k : String) → Absent k d → get d k ≡ none
  unfolding get
  Absent-get [] k a = refl
  Absent-get ((j, f) ∷ d) k (n, a) = rw (n, Absent-get d k a) refl

  apply_shedding-effective :
      (d : Dict Status) (s : Flags) (j : String)
      → Distinct d
      → effective c (apply_shedding c level d s) j
        ≡ entry_to s.registry j (get d j) (effective c s j)
  unfolding apply_shedding get
  apply_shedding-effective [] s j h = refl
  apply_shedding-effective ((k, status) ∷ rest) s j (a, h) =
      let (one, regs) = shed_flag-Shed k status s in
      apply_shedding-effective rest (shed_flag c level k status s) j h
      ∙ (rw (one j, regs)
          (split_key
            (λ b i.
              entry_to s.registry i (get rest i) (
                if b
                then shed_to c level s.registry k (get s.registry k) status (effective c s k)
                else effective c s i)
              ≡ entry_to s.registry i (if b then some status else get rest i) (effective c s i))
            k j (rw (Absent-get rest k a) refl) (λ _. refl)))

under_calm :
    (b : Bool) (x y status : Status) → x ≡ y → (if b then x else status) ≡ (if b then y else status)
under_calm b x y status e = rw e refl

abbrev pub restarted : {N : Type 0} → (ℕ → N) → Option (PartialConfig N) → Shedder N → Shedder N
restarted num loaded s = init_capacity_shedder num loaded (stop_capacity_shedder s)

module _ {N : Type 0} (geb : N → N → Bool) (c : Config) where
  changed :
      (now : ℕ) (level : SheddingLevel) (s : Shedder N) (key : String) (status : Status)
      (flag : Flag)
      → Distinct s.config.flags_to_shed
      → get s.config.flags_to_shed key ≡ some status
      → get s.flags.registry key ≡ some flag
      → effective c (change_level c now level s).flags key
        ≡ (if is_calm level then configured c key flag else status)
  unfolding change_level notify_change
  changed now level s key status flag h listed known =
      apply_shedding-effective c level s.config.flags_to_shed s.flags key h
      ∙ (rw listed (
          rw known (
            under_calm (is_calm level) (settled c s.flags.registry key) (configured c key flag)
              status (rw (known, settled) refl))))

  -- An evaluation that finds another level than the current one gives every registered flag of
  -- `flagsToShed` its degraded status, within the cooldown too; or, when the new level is `none`
  -- and the cooldown is over, the status that the configuration or the registration says.
  pub evaluate_sheds :
      (now : ℕ) (m : MetricSnapshot N) (s : Shedder N) (key : String) (status : Status)
      (flag : Flag)
      → s.has_collector ≡ true
      → Distinct s.config.flags_to_shed
      → get s.config.flags_to_shed key ≡ some status
      → get s.flags.registry key ≡ some flag
      → same_level (determine_level geb s.config.thresholds m) s.current_level ≡ false
      → (is_calm (determine_level geb s.config.thresholds m) ≡ true → in_cooldown now s ≡ false)
      → effective c (evaluate geb c now (some m) s).flags key ≡ (
          if is_calm (determine_level geb s.config.thresholds m)
          then configured c key flag
          else status)
  unfolding evaluate_level
  evaluate_sheds now m s key status flag on h listed known moved free =
      let level = determine_level geb s.config.thresholds m in
      let done = changed now level s key status flag h listed known in
      rw (evaluate-found geb c now m s on) (elim (Bool-cases (is_calm level)) [
        | inl e ↦ rw moved (rw e (rw (free e) (rw e at done)))
        | inr e ↦ rw moved (rw e (rw e at done))
      ])

  -- Stopping while load is shed strands the overrides: stopped and started again, the shedder finds
  -- calm metrics and leaves every flag as it was, degraded or not, at whatever time.
  pub stop_strands :
      (num : ℕ → N) (loaded : Option (PartialConfig N)) (now : ℕ) (m : MetricSnapshot N)
      (s : Shedder N)
      → determine_level geb (restarted num loaded s).config.thresholds m ≡ calm
      → (evaluate geb c now (some m) (restarted num loaded s)).flags ≡ s.flags
  unfolding init_capacity_shedder stop_capacity_shedder evaluate evaluate_level
  stop_strands num loaded now m s h = rw h refl
