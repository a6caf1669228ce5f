-- ===== src/Shedder/State.antt =====
-- The module state of src/core/ingress/capacity_shedder.ts and its functions. Numbers that only
-- `>=` compares are an `N`, times are milliseconds. The flags are those of
-- src/core/ingress/feature_flags.ts; a listener of levels is a number, and its call an entry of
-- `level_calls`. The timer only calls `evaluate`.
use veri_node_backend.Prelude.{
  ℕ, ◌+◌, String, Bool, true, false, not, Option, none, some, List, [], ◌∷◌, ◌++◌, map, keep, ltb,
  leb, ◌==◌, if◌then◌else◌,
}
use veri_node_backend.Flags.Registry.{
  Status, Flag, Flags, Config, holds, set_override, reset_override, register_flags,
  init_feature_flags,
}
use veri_node_backend.Shedder.Levels.{
  SheddingLevel, calm, CapacityThresholds, MetricSnapshot, Thresholds, determine_level, index_of,
}

pub record ShedderConfig (N : Type 0) : Type 0 where
  pub check_interval : ℕ
  pub cooldown_period : ℕ
  pub thresholds : Thresholds N
  -- `Object.entries(flagsToShed)`
  pub flags_to_shed : List (String × Status)

pub record LevelCall : Type 0 where
  pub callback : ℕ
  pub level : SheddingLevel
  pub previous : SheddingLevel

pub record Shedder (N : Type 0) : Type 0 where
  pub config : ShedderConfig N
  pub current_level : SheddingLevel
  pub previous_level : SheddingLevel
  pub last_elevated_at : ℕ
  pub has_collector : Bool
  pub has_timer : Bool
  pub initialized : Bool
  pub listeners : List ℕ
  pub level_calls : List LevelCall
  pub flags : Flags

-- The object at "capacity_shedding", in which every part may be missing.
pub record PartialThresholds (N : Type 0) : Type 0 where
  pub cpu_percent : Option N
  pub memory_percent : Option N
  pub request_rate_per_sec : Option N
  pub p99_latency_ms : Option N

pub record PartialConfig (N : Type 0) : Type 0 where
  pub check_interval : Option ℕ
  pub cooldown_period : Option ℕ
  pub light : Option (PartialThresholds N)
  pub medium : Option (PartialThresholds N)
  pub critical : Option (PartialThresholds N)
  pub flags_to_shed : Option (List (String × Status))

abbrev pub or_default : {A : Type 0} → A → Option A → A
or_default d none = d
or_default d (some x) = x

-- `{ ...defaults, ...(overrides || {}) }`
unfoldable pub spread :
    {N : Type 0} → CapacityThresholds N → Option (PartialThresholds N) → CapacityThresholds N
spread d none = d
spread d (some o) = record {
  cpu_percent = or_default d.cpu_percent o.cpu_percent;
  memory_percent = or_default d.memory_percent o.memory_percent;
  request_rate_per_sec = or_default d.request_rate_per_sec o.request_rate_per_sec;
  p99_latency_ms = or_default d.p99_latency_ms o.p99_latency_ms;
}

-- `DEFAULT_CONFIG`, where `num` is the number of a literal.
abbrev pub at_levels : {N : Type 0} → (ℕ → N) → ℕ → ℕ → ℕ → ℕ → CapacityThresholds N
at_levels num cpu memory rate latency = record {
  cpu_percent = num cpu;
  memory_percent = num memory;
  request_rate_per_sec = num rate;
  p99_latency_ms = num latency;
}

abbrev pub default_config : {N : Type 0} → (ℕ → N) → ShedderConfig N
default_config num = record {
  check_interval = 5000;
  cooldown_period = 30000;
  thresholds = record {
    light = at_levels num 70 75 800 500;
    medium = at_levels num 85 85 1200 1000;
    critical = at_levels num 95 95 2000 3000;
  };
  flags_to_shed = [];
}

unfoldable pub load_config : {N : Type 0} → (ℕ → N) → Option (PartialConfig N) → ShedderConfig N
unfolding spread
load_config num none = default_config num
load_config num (some o) =
    let d = default_config num in
    record {
      check_interval = or_default d.check_interval o.check_interval;
      cooldown_period = or_default d.cooldown_period o.cooldown_period;
      thresholds = record {
        light = spread d.thresholds.light o.light;
        medium = spread d.thresholds.medium o.medium;
        critical = spread d.thresholds.critical o.critical;
      };
      flags_to_shed = or_default d.flags_to_shed o.flags_to_shed;
    }

abbrev pub is_calm : SheddingLevel → Bool
is_calm calm = true
is_calm _ = false

abbrev pub same_level : SheddingLevel → SheddingLevel → Bool
same_level a b = index_of a == index_of b

-- One turn of the loop of `applyShedding`.
abbrev pub shed_flag : Config → SheddingLevel → String → Status → Flags → Flags
shed_flag c level key status flags =
    if is_calm level then (reset_override c key flags).1 else (set_override c key status flags).1

unfoldable pub apply_shedding : Config → SheddingLevel → List (String × Status) → Flags → Flags
apply_shedding c level [] flags = flags
apply_shedding c level ((key, status) ∷ rest) flags =
    apply_shedding c level rest (shed_flag c level key status flags)

module _ {N : Type 0} where
  unfoldable pub notify_change : SheddingLevel → SheddingLevel → Shedder N → Shedder N
  notify_change level previous s = record s {
    level_calls =
        s.level_calls
        ++ map (λ c. record { callback = c; level = level; previous = previous }) s.listeners;
  }

  -- `evaluate` once the level has changed.
  unfoldable pub change_level : Config → ℕ → SheddingLevel → Shedder N → Shedder N
  unfolding notify_change
  change_level c now level s = notify_change level s.current_level (record s {
    last_elevated_at = if is_calm level then s.last_elevated_at else now;
    current_level = level;
    previous_level = s.current_level;
    flags = apply_shedding c level s.config.flags_to_shed s.flags;
  })

  -- `now - lastElevatedAt < cooldownPeriodMs`
  abbrev pub in_cooldown : ℕ → Shedder N → Bool
  in_cooldown now s = ltb now (s.last_elevated_at + s.config.cooldown_period)

  -- `evaluate` from the level on.
  unfoldable pub evaluate_level : Config → ℕ → SheddingLevel → Shedder N → Shedder N
  unfolding change_level
  evaluate_level c now level s =
      if same_level level s.current_level
      then record s { previous_level = s.current_level }
      else if is_calm level
      then (if in_cooldown now s
          then record s { previous_level = s.current_level }
          else change_level c now level s)
      else change_level c now level s

  -- The collector's answer is `none` when it throws.
  unfoldable pub evaluate :
      (N → N → Bool) → Config → ℕ → Option (MetricSnapshot N) → Shedder N → Shedder N
  unfolding evaluate_level
  evaluate geb c now snapshot s =
      if s.has_collector
      then (elim snapshot [
        | none ↦ s
        | some m ↦ evaluate_level c now (determine_level geb s.config.thresholds m) s
      ])
      else s

  unfoldable pub init_capacity_shedder : (ℕ → N) → Option (PartialConfig N) → Shedder N → Shedder N
  init_capacity_shedder num loaded s = if s.initialized then s else record s {
    has_collector = true;
    config = load_config num loaded;
    has_timer = true;
    initialized = true;
  }

  unfoldable pub stop_capacity_shedder : Shedder N → Shedder N
  stop_capacity_shedder s = record s {
    has_timer = false;
    current_level = calm;
    previous_level = calm;
    initialized = false;
  }

  unfoldable pub on_shedding_change : ℕ → Shedder N → Shedder N
  on_shedding_change callback s = record s {
    listeners = if holds callback s.listeners then s.listeners else s.listeners ++ (callback ∷ []);
  }

  unfoldable pub off_shedding_change : ℕ → Shedder N → Shedder N
  off_shedding_change callback s = record s {
    listeners = keep (λ c. not (c == callback)) s.listeners;
  }

  -- `degradeOnLevel`: the status code of a refusal.
  unfoldable pub degrade_on_level : SheddingLevel → Option ℕ → Shedder N → Option ℕ
  degrade_on_level min_level code s =
      if leb (index_of min_level) (index_of s.current_level)
      then some (or_default 503 code)
      else none

  -- `initGracefulDegradation`
  unfoldable pub init_graceful_degradation :
      (ℕ → N) → Option (PartialConfig N) → Config → List Flag → Bool → Shedder N → Shedder N
  unfolding init_capacity_shedder
  init_graceful_degradation num loaded c new has_metrics s =
      let s1 = record s { flags = init_feature_flags c (register_flags new s.flags) } in
      if has_metrics then init_capacity_shedder num loaded s1 else s1
