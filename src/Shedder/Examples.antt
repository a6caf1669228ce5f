-- ===== src/Shedder/Examples.antt =====
-- A concrete load shedder, and the theorems at it. The metrics are whole numbers here.
use veri_node_backend.Prelude.{ℕ, ◌≡◌, refl, Bool, true, false, none, some, [], ◌∷◌, arith, leb}
use veri_node_backend.Dict.{get}
use veri_node_backend.Flags.Registry.{enabled, degraded, Flag, Config}
use veri_node_backend.Flags.Effective.{effective}
use veri_node_backend.Shedder.Levels.{
  SheddingLevel, calm, medium, MetricSnapshot, reaches, determine_level,
}
use veri_node_backend.Shedder.State.{
  Shedder, is_calm, at_levels, default_config, evaluate, init_capacity_shedder,
  stop_capacity_shedder, load_config,
}
use veri_node_backend.Shedder.Evaluate.{run, run_elevated}
use veri_node_backend.Shedder.Overrides.{evaluate_sheds, restarted, stop_strands}

abbrev geb : ℕ → ℕ → Bool
geb a b = leb b a

geb_trans : (a b c : ℕ) → geb a b ≡ true → geb b c ≡ true → geb a c ≡ true
geb_trans a b c h k = ground arith

abbrev config : Config
config = record { value = λ path. none; override_keys = none }

abbrev search : Flag
search = record {
  key = "search";
  description = "";
  default_status = enabled;
  dependencies = none;
  owner = none;
}

abbrev shedder : SheddingLevel → Shedder ℕ
shedder level = record {
  config = record (default_config (λ n. n)) { flags_to_shed = ("search", degraded) ∷ [] };
  current_level = level;
  previous_level = calm;
  last_elevated_at = 1000;
  has_collector = true;
  has_timer = true;
  initialized = true;
  listeners = 7 ∷ [];
  level_calls = [];
  flags = record {
    registry = ("search", search) ∷ [];
    cache = [];
    listeners = [];
    initialized = true;
    calls = [];
  };
}

abbrev busy : MetricSnapshot ℕ
busy = at_levels (λ n. n) 90 10 10 10

abbrev idle : MetricSnapshot ℕ
idle = at_levels (λ n. n) 10 10 10 10

run_elevated_example :
    is_calm
      (run geb config
        ((2000, some idle) ∷ (3000, none) ∷ (30999, some idle) ∷ [])
        (shedder medium)).current_level
    ≡ false
run_elevated_example =
    run_elevated geb config ((2000, some idle) ∷ (3000, none) ∷ (30999, some idle) ∷ []) 1000
      (shedder medium)
      ((omega arith, omega arith), ((omega arith, omega arith), ((omega arith, omega arith), tt)))
      (omega arith) refl

evaluate_sheds_example :
    effective config (evaluate geb config 2000 (some busy) (shedder calm)).flags "search" ≡ degraded
unfolding get determine_level reaches
evaluate_sheds_example =
    evaluate_sheds geb config 2000 busy (shedder calm) "search" degraded search refl (tt, tt) refl
      refl refl (λ h. cc)

stop_strands_example :
    (evaluate geb config 40000 (some idle) (restarted (λ n. n) none (shedder medium))).flags
    ≡ (shedder medium).flags
unfolding determine_level reaches init_capacity_shedder stop_capacity_shedder load_config
stop_strands_example = stop_strands geb config (λ n. n) none 40000 idle (shedder medium) refl
